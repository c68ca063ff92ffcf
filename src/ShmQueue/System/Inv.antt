-- ===== src/ShmQueue/System/Inv.antt =====
-- What the semaphores count, kept by every step as long as SIGUSR1 interrupts no wait.
use osisp.Prelude.{ℕ, ◌+◌, ◌<◌, ◌≡◌, ◌≢◌, refl, arith, Bool, false}
use osisp.Prelude.Family.{update, total, total-update, total-zero}
use osisp.ShmQueue.Message.{Message, generate_message}
use osisp.ShmQueue.Ring.{MessageQueue, queue_size}
use osisp.ShmQueue.Ring.Inv.{
  IsValid, enqueue-IsValid, dequeue-IsValid, count-enqueue, count-dequeue,
}
use osisp.ShmQueue.System.{
  Shared, init_semaphores, Pc, produce_access, produce_body, produce_release, produce_post,
  consume_access, consume_body, consume_release, consume_post, ProcessType, consumer_process,
  producer_process, start_of, Move, produce_wait, produce_lock, produce_put, consume_wait,
  consume_lock, consume_get, System, Step, move, terminate, interrupt, Reach, here, later, started,
}

-- The process has QUEUE_ACCESS_SEM.
abbrev pub in_section : Pc → ℕ
in_section (produce_body _) = 1
in_section (produce_release _) = 1
in_section consume_body = 1
in_section (consume_release _) = 1
in_section _ = 0

-- It has taken from FREE_SPACE_SEM and not yet stored, or has removed and not yet signalled.
abbrev pub free_in_transit : Pc → ℕ
free_in_transit (produce_access _) = 1
free_in_transit (produce_body _) = 1
free_in_transit (consume_release _) = 1
free_in_transit (consume_post _) = 1
free_in_transit _ = 0

-- It has taken from EL_COUNT_SEM and not yet removed, or has stored and not yet signalled.
abbrev pub item_in_transit : Pc → ℕ
item_in_transit (produce_release _) = 1
item_in_transit (produce_post _) = 1
item_in_transit consume_access = 1
item_in_transit consume_body = 1
item_in_transit _ = 0

pub record Inv (n : ℕ) (m : Shared) (pc : ℕ → Pc) : Type 0 where
  pub queue : IsValid m.queue
  pub access : m.queue_access + total in_section n pc ≡ 1
  pub free : m.free_space + total free_in_transit n pc + m.queue.count ≡ queue_size
  pub items : m.el_count + total item_in_transit n pc ≡ m.queue.count

-- Where the moving process stands, and how its move changes the three sums.
pub record Mover (n : ℕ) (pc : ℕ → Pc) (i : ℕ) (p p' : Pc) : Type 0 where
  pub sections :
      total in_section n (update pc i p') + in_section p ≡ total in_section n pc + in_section p'
  pub frees :
      total free_in_transit n (update pc i p') + free_in_transit p
      ≡ total free_in_transit n pc + free_in_transit p'
  pub waiting :
      total item_in_transit n (update pc i p') + item_in_transit p
      ≡ total item_in_transit n pc + item_in_transit p'

pub mover : (n : ℕ) (pc : ℕ → Pc) (i : ℕ) (p' : Pc) → i < n → Mover n pc i (pc i) p'
mover n pc i p' lt = record {
  sections = total-update in_section n pc i p' lt;
  frees = total-update free_in_transit n pc i p' lt;
  waiting = total-update item_in_transit n pc i p' lt;
}

-- The semaphore value that a move needs, for the catch-all clause below.
abbrev pub Enabled :
    {rand : ℕ → ℕ} {flag : Bool} {m m' : Shared} {p p' : Pc} → Move rand flag m p m' p' → Type 0
Enabled {m} (produce_wait _) = 0 < m.free_space
Enabled {m} (produce_lock _) = 0 < m.queue_access
Enabled {m} (consume_wait _) = 0 < m.el_count
Enabled {m} (consume_lock _) = 0 < m.queue_access
Enabled _ = Unit

pub enabled :
    {rand : ℕ → ℕ} {flag : Bool} {m m' : Shared} {p p' : Pc} (mv : Move rand flag m p m' p')
    → Enabled mv
enabled (produce_wait h) = h
enabled (produce_lock h) = h
enabled (consume_wait h) = h
enabled (consume_lock h) = h
enabled _ = tt

Move-Inv :
    {rand : ℕ → ℕ} {flag : Bool} {n : ℕ} {pc : ℕ → Pc} {i : ℕ} {m m' : Shared} {p p' : Pc}
    → Move rand flag m p m' p'
    → Mover n pc i p p'
    → Inv n m pc
    → Inv n m' (update pc i p')
Move-Inv {rand = rand} {m = m} (produce_put {l}) f v =
    let msg : Message = generate_message rand l.pos l.msg in
    let room : m.queue.free_space ≢ 0 = omega arith in
    record {
      queue = enqueue-IsValid m.queue msg v.queue;
      access = omega arith;
      free = omega (arith, count-enqueue m.queue msg room);
      items = omega (arith, count-enqueue m.queue msg room);
    }
Move-Inv {m = m} consume_get f v =
    let held : m.queue.count ≢ 0 = omega arith in
    record {
      queue = dequeue-IsValid m.queue v.queue;
      access = omega arith;
      free = omega (arith, count-dequeue m.queue held);
      items = omega (arith, count-dequeue m.queue held);
    }
Move-Inv mv f v = record {
  queue = v.queue;
  access = ground (arith, enabled mv);
  free = ground (arith, enabled mv);
  items = ground (arith, enabled mv);
}

-- Every step of the system that is not the interruption of a wait keeps the account of the semaphores.
pub Step-Inv :
    {rand : ℕ → ℕ} {n : ℕ} {s t : System}
    → Step rand n false s t
    → Inv n s.mem s.pc
    → Inv n t.mem t.pc
Step-Inv {n} {s} (move i {p = p} lt mv) v = Move-Inv mv (mover n s.pc i p lt) v
Step-Inv (terminate i) v = v
Step-Inv (interrupt i on lt w) v = cc on

pub start-weightless :
    (kinds : ℕ → ProcessType) (i : ℕ)
    → (in_section (start_of (kinds i)) ≡ 0)
      × (free_in_transit (start_of (kinds i)) ≡ 0)
      × (item_in_transit (start_of (kinds i)) ≡ 0)
start-weightless kinds i = go (kinds i)
  where
    go :
        (k : ProcessType)
        → (in_section (start_of k) ≡ 0)
          × (free_in_transit (start_of k) ≡ 0)
          × (item_in_transit (start_of k) ≡ 0)
    go consumer_process = (refl, refl, refl)
    go producer_process = (refl, refl, refl)

pub started-Inv :
    (n : ℕ) (q : MessageQueue) (kinds : ℕ → ProcessType)
    → IsValid q
    → q.count ≡ 0
    → Inv n (started q kinds).mem (started q kinds).pc
unfolding init_semaphores
started-Inv n q kinds v empty = record {
  queue = v;
  access = omega (
    arith,
    total-zero in_section n (λ i. start_of (kinds i)) (λ i. (start-weightless kinds i).0),
  );
  free = omega (
    arith,
    total-zero free_in_transit n (λ i. start_of (kinds i)) (λ i. (start-weightless kinds i).1),
  );
  items = omega (
    arith,
    total-zero item_in_transit n (λ i. start_of (kinds i)) (λ i. (start-weightless kinds i).2),
  );
}

-- In every state that is reached from a fresh queue without such an interruption, the account of the semaphores holds.
pub Reach-Inv :
    {rand : ℕ → ℕ} {n : ℕ} (q : MessageQueue) (kinds : ℕ → ProcessType) {s : System}
    → IsValid q
    → q.count ≡ 0
    → Reach rand n false (started q kinds) s
    → Inv n s.mem s.pc
Reach-Inv {n = n} q kinds v empty here = started-Inv n q kinds v empty
Reach-Inv q kinds v empty (later r st) = Step-Inv st (Reach-Inv q kinds v empty r)
