-- ===== src/ShmQueue/Processes/Laws.antt =====
-- The process table is a list of child processes without gaps.
use native.Mathlib.Numerals.{add-one}
use osisp.Prelude.{
  ℕ, zero, suc, ◌+◌, ◌-◌, ◌<◌, ◌≤◌, ◌≡◌, ◌≢◌, refl, ap, ap₂, sym, ◌∙◌, arith, List, [], ◌∷◌, ◌++◌,
  some, ◌==◌, leb, ltb, ◌||◌, ◌&&◌, if◌then◌else◌, get_or, set, remove_at, remove_at-tabulate,
  length, length-set, get_or-set_self, get_or-set_ne, tabulate, tabulate-cong, tabulate-add_one,
  Bool-cases, ◌⊎◌, inl, inr, false, map,
}
use osisp.Prelude.Int.{ℤ, pos, negsuc}
use osisp.ShmQueue.System.{ProcessType, consumer_process, producer_process}
use osisp.ShmQueue.Ring.{MessageQueue}
use osisp.ShmQueue.Processes.{
  Table, max_processes_count, shift_down, kill_process, terminate_from, cleanup_and_exit,
  create_process, in_parent, goes_on, send_sigusr1, wait_pid, send_sigterm, wait_all,
  remove_semaphores,
}

-- The entry at an index.
abbrev pub child : Table → ℕ → ℕ × ProcessType
child t j = (get_or t.processes j 0, get_or t.types j consumer_process)

-- The children, in the order of the table.
abbrev pub children : Table → List (ℕ × ProcessType)
children t = tabulate (child t) 0 t.processes_count

pub record IsValid (t : Table) : Type 0 where
  pub slots : length t.processes ≡ max_processes_count
  pub type_slots : length t.types ≡ max_processes_count
  pub fits : t.processes_count ≤ max_processes_count

-- What the loop of `kill_process` leaves in each slot.
child-shift_down :
    (n i : ℕ) (t : Table) (j : ℕ)
    → i + n < length t.processes
    → i + n < length t.types
    → child (shift_down n i t) j ≡ (if leb i j && ltb j (i + n) then child t (j + 1) else child t j)
unfolding shift_down
child-shift_down zero i t j hp ht = ground arith
child-shift_down (suc n) i t j hp ht =
    let t' : Table = record t {
      processes = set t.processes i (get_or t.processes (i + 1) 0);
      types = set t.types i (get_or t.types (i + 1) consumer_process);
    } in
    let lp : length t'.processes ≡ length t.processes = length-set t.processes i _ in
    let lt : length t'.types ≡ length t.types = length-set t.types i _ in
    child-shift_down n (i + 1) t' j (omega arith) (omega arith) ∙ by_slot
  where
    by_slot :
        (let t' : Table = record t {
          processes = set t.processes i (get_or t.processes (i + 1) 0);
          types = set t.types i (get_or t.types (i + 1) consumer_process);
        } in
          (if leb (i + 1) j && ltb j (i + 1 + n) then child t' (j + 1) else child t' j)
          ≡ (if leb i j && ltb j (i + suc n) then child t (j + 1) else child t j))
    by_slot = ground (
      arith,
      get_or-set_self t.processes i (get_or t.processes (i + 1) 0) 0,
      get_or-set_self t.types i (get_or t.types (i + 1) consumer_process) consumer_process,
      get_or-set_ne t.processes i j (get_or t.processes (i + 1) 0) 0,
      get_or-set_ne t.types i j (get_or t.types (i + 1) consumer_process) consumer_process,
      get_or-set_ne t.processes i (j + 1) (get_or t.processes (i + 1) 0) 0,
      get_or-set_ne t.types i (j + 1) (get_or t.types (i + 1) consumer_process) consumer_process,
    )

-- Shifting down from an index takes that child out of the list.
shifted-children :
    (index : ℕ) (t : Table)
    → IsValid t
    → index < t.processes_count
    → tabulate
        (child (shift_down (t.processes_count - 1 - index) index t))
        0
        (t.processes_count - 1)
      ≡ remove_at index (children t)
shifted-children index t v h =
    remove_at-tabulate (child t) (child (shift_down n index t)) 0 index (t.processes_count - 1)
      (omega arith) below above
    ∙ ap (λ c. remove_at index (tabulate (child t) 0 c)) (sym full)
  where
    n : ℕ
    n = t.processes_count - 1 - index

    full : t.processes_count ≡ suc (t.processes_count - 1)
    full = omega arith

    below : (j : ℕ) → j < index → child (shift_down n index t) (0 + j) ≡ child t (0 + j)
    below j lt = ground (arith, child-shift_down n index t (0 + j) (omega arith) (omega arith))

    above :
        (j : ℕ)
        → index ≤ j
        → j < t.processes_count - 1
        → child (shift_down n index t) (0 + j) ≡ child t (1 + j)
    above j le lt = ground (arith, child-shift_down n index t (0 + j) (omega arith) (omega arith))

-- For an index in the table of a live child, `kill_process` signals and reaps exactly that child,
-- and takes exactly that child out of the table: the others keep their order.
pub kill_process-children :
    (index : ℕ) (t : Table)
    → IsValid t
    → index < t.processes_count
    → get_or t.processes index 0 ≢ 0
    → let (effects, t') = kill_process (pos index) t in
      let pid = get_or t.processes index 0 in
      (effects ≡ send_sigusr1 pid ∷ wait_pid pid ∷ [])
      × (t'.processes_count + 1 ≡ t.processes_count)
      × (children t' ≡ remove_at index (children t))
unfolding kill_process
kill_process-children index t v h live =
    let in_table : (leb t.processes_count index || get_or t.processes index 0 == 0) ≡ false =
      ground arith in
    rw in_table (refl, omega arith, shifted-children index t v h)

-- Any other index, a negative one included, sends no signal and changes nothing.
pub kill_process_invalid :
    (index : ℤ) (t : Table)
    → ((i : ℕ) → index ≡ pos i → (t.processes_count ≤ i) ⊎ (get_or t.processes i 0 ≡ 0))
    → kill_process index t ≡ ([], t)
unfolding kill_process
kill_process_invalid (pos i) t h = ground (arith, h i)
kill_process_invalid (negsuc k) t h = refl

-- What the parent does with a new child's process id.
pub create_process-children :
    (pid : ℕ) (kind : ℕ) (t : Table)
    → IsValid t
    → t.processes_count < max_processes_count
    → (t' : Table) × (create_process (in_parent pid) kind t ≡ goes_on [] t')
      × IsValid t'
      × (children t'
          ≡ children t ++ (pid, if kind == b'+' then consumer_process else producer_process) ∷ [])
unfolding create_process
create_process-children pid kind t v room = (t', ground arith, valid, longer)
  where
    kind' : ProcessType
    kind' = if kind == b'+' then consumer_process else producer_process

    t' : Table
    t' = record {
      processes = set t.processes t.processes_count pid;
      types = set t.types t.processes_count kind';
      processes_count = t.processes_count + 1;
    }

    valid : IsValid t'
    valid = record {
      slots = omega (arith, length-set t.processes t.processes_count pid);
      type_slots = omega (arith, length-set t.types t.processes_count kind');
      fits = omega arith;
    }

    last : child t' (0 + t.processes_count) ≡ (pid, kind')
    last = ground (
      arith,
      get_or-set_self t.processes t.processes_count pid 0,
      get_or-set_self t.types t.processes_count kind' consumer_process,
    )

    others : (j : ℕ) → j < t.processes_count → child t' (0 + j) ≡ child t (0 + j)
    others j lt = ground (
      arith,
      get_or-set_ne t.processes t.processes_count (0 + j) pid 0,
      get_or-set_ne t.types t.processes_count (0 + j) kind' consumer_process,
    )

    longer : children t' ≡ children t ++ (pid, kind') ∷ []
    longer =
        tabulate-add_one (child t') 0 t.processes_count
        ∙ ap₂ (λ xs x. xs ++ x ∷ [])
            (tabulate-cong (child t') (child t) 0 0 t.processes_count others) last

-- The process ids of the entries that are not 0.
abbrev pub live_pids : List (ℕ × ProcessType) → List ℕ
live_pids [] = []
live_pids ((pid, kind) ∷ cs) = if pid == 0 then live_pids cs else pid ∷ live_pids cs

terminate_from-live_pids :
    (n i : ℕ) (t : Table)
    → terminate_from n i t.processes ≡ map send_sigterm (live_pids (tabulate (child t) i n))
unfolding terminate_from
terminate_from-live_pids zero i t = refl
terminate_from-live_pids (suc n) i t = elim (Bool-cases (get_or t.processes i 0 == 0)) [
  | inl e ↦ rw (e, add-one i) (terminate_from-live_pids n (suc i) t)
  | inr e ↦
      rw (e, add-one i)
        (ap (◌∷◌ (send_sigterm (get_or t.processes i 0))) (terminate_from-live_pids n (suc i) t))
]

-- Once the queue exists, `cleanup_and_exit` sends SIGTERM to every live child in the table's order,
-- waits for all of them and removes the semaphores. It never detaches or removes the shared memory
-- segment: its test of the pointer is the wrong way round.
pub cleanup_keeps_segment :
    (q : MessageQueue) (t : Table)
    → cleanup_and_exit (some q) t
      ≡ map send_sigterm (live_pids (children t)) ++ wait_all ∷ remove_semaphores ∷ []
unfolding cleanup_and_exit
cleanup_keeps_segment q t =
    ap (λ es. es ++ wait_all ∷ remove_semaphores ∷ [])
      (terminate_from-live_pids t.processes_count 0 t)
