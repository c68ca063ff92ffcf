-- ===== src/SignalStats/Table/Laws.antt =====
-- The commands of lab3/src/parent.c against a stack of children.
use native.Mathlib.Numerals.{add-one}
use osisp.Prelude.{
  ap₂, tabulate, tabulate-snoc, ℕ, zero, suc, ◌+◌, ◌-◌, ◌<◌, ◌≤◌, ◌≡◌, refl, ap, sym, ◌∙◌, arith,
  List, [], ◌∷◌, ◌++◌, Option, none, some, ◌==◌, ltb, if◌then◌else◌, map, length, get_or, set,
  length-set, get_or-set_self, get_or-set_ne, write_at-set, read_at-get_or, dec_lt, true, false,
}
use osisp.Prelude.OptionMonad.{◌>>=◌}
use osisp.SignalStats.Table.{
  max_processes, Table, Signal, sigkill, sigusr1, sigusr2, Effect, kill, printed, create_child,
  kill_last_process, kill_loop, kill_all_processes, for_all, show_all_processes,
  allow_stdout_for_all, Command, plus, minus, list, kill_all, silence, allow, quit, other,
  run_command, main,
}

-- The first `n` children of the array, the newest first.
unfoldable pub stack_of : ℕ → List ℕ → List ℕ
stack_of zero all_processes = []
stack_of (suc n) all_processes = get_or all_processes n 0 ∷ stack_of n all_processes

abbrev pub children : Table → List ℕ
children t = stack_of t.process_count t.all_processes

pub record IsTable (t : Table) : Type 0 where
  pub slots : length t.all_processes ≡ max_processes
  pub fits : t.process_count ≤ max_processes

-- An effect on each child of the stack, on the oldest first.
unfoldable pub oldest_first : (ℕ → Effect) → List ℕ → List Effect
oldest_first effect [] = []
oldest_first effect (pid ∷ pids) = oldest_first effect pids ++ effect pid ∷ []

-- What `main` promises, on a stack of children: an array of 100 faults at the 101st child.
unfoldable pub promised : List Command → List ℕ → Option (List Effect)
unfolding oldest_first
promised [] pids = some []
promised (plus none ∷ cs) pids = some []
promised (plus (some pid) ∷ cs) pids =
    let rest : Option (List Effect) = promised cs (pid ∷ pids) in
    if ltb (length pids) max_processes then rest else none
promised (minus ∷ cs) [] = promised cs []
promised (minus ∷ cs) (pid ∷ pids) = do rest ← promised cs pids; some (kill pid sigkill ∷ rest)
promised (list ∷ cs) pids = do
  rest ← promised cs pids
  some (oldest_first (λ pid. printed pid) pids ++ rest)
promised (kill_all ∷ cs) pids = do
  rest ← promised cs []
  some (map (λ pid. kill pid sigkill) pids ++ rest)
promised (silence ∷ cs) pids = do
  rest ← promised cs pids
  some (oldest_first (λ pid. kill pid sigusr2) pids ++ rest)
promised (allow ∷ cs) pids = do
  rest ← promised cs pids
  some (oldest_first (λ pid. kill pid sigusr1) pids ++ rest)
promised (quit ∷ cs) pids = some (map (λ pid. kill pid sigkill) pids)
promised (other ∷ cs) pids = promised cs pids

length-stack_of : (n : ℕ) (xs : List ℕ) → length (stack_of n xs) ≡ n
unfolding stack_of
length-stack_of zero xs = refl
length-stack_of (suc n) xs = omega (arith, length-stack_of n xs)

stack_of-set : (n i v : ℕ) (xs : List ℕ) → n ≤ i → stack_of n (set xs i v) ≡ stack_of n xs
unfolding stack_of
stack_of-set zero i v xs h = refl
stack_of-set (suc n) i v xs h =
    rw (get_or-set_ne xs i n v 0 (omega arith), stack_of-set n i v xs (omega arith)) refl

stack_of-add_one : (n : ℕ) (xs : List ℕ) → stack_of (n + 1) xs ≡ get_or xs n 0 ∷ stack_of n xs
unfolding stack_of
stack_of-add_one n xs = rw (add-one n) refl

-- A child that was created is on top.
create_child-children :
    (pid : ℕ) (t : Table)
    → IsTable t
    → t.process_count < max_processes
    → (t' : Table) × (create_child pid t ≡ some t') × IsTable t' × (children t' ≡ pid ∷ children t)
unfolding create_child
create_child-children pid t v room =
    let xs : List ℕ = set t.all_processes t.process_count pid in
    let top : get_or xs t.process_count 0 ≡ pid =
      get_or-set_self t.all_processes t.process_count pid 0 (omega (arith, v.slots)) in
    let below : stack_of t.process_count xs ≡ children t =
      stack_of-set t.process_count t.process_count pid t.all_processes (omega arith) in
    (
      record t { all_processes = xs; process_count = t.process_count + 1 },
      rw (write_at-set t.all_processes t.process_count pid (omega (arith, v.slots)), ◌>>=◌) refl,
      record {
        slots = length-set t.all_processes t.process_count pid ∙ v.slots;
        fits = omega arith;
      },
      stack_of-add_one t.process_count xs ∙ ap₂ ◌∷◌ top below,
    )

-- The table with the first `n` of the slots `xs` in use.
abbrev table : ℕ → List ℕ → ℕ → Table
table n xs open_ = record { all_processes = xs; process_count = n; is_stdout_open = open_ }

-- The newest child is killed.
kill_last_process-top :
    (n : ℕ) (xs : List ℕ) (open_ : ℕ)
    → n < length xs
    → kill_last_process (table (suc n) xs open_)
      ≡ some (kill (get_or xs n 0) sigkill ∷ [], table n xs open_)
unfolding kill_last_process
kill_last_process-top n xs open_ h =
    let busy : (suc n == 0) ≡ false = ground arith in
    let less : suc n - 1 ≡ n = omega arith in rw (busy, less, read_at-get_or xs n 0 h, ◌>>=◌) refl

kill_last_process-none :
    (xs : List ℕ) (open_ : ℕ) → kill_last_process (table 0 xs open_) ≡ some ([], table 0 xs open_)
unfolding kill_last_process
kill_last_process-none xs open_ = refl

kill_loop-all :
    (fuel n : ℕ) (xs : List ℕ) (open_ : ℕ)
    → n ≤ length xs
    → n < fuel
    → kill_loop fuel (table n xs open_)
      ≡ some (map (λ pid. kill pid sigkill) (stack_of n xs), table 0 xs open_)
unfolding kill_loop stack_of
kill_loop-all zero n xs open_ h enough = absurd (omega arith)
kill_loop-all (suc fuel) zero xs open_ h enough = refl
kill_loop-all (suc fuel) (suc n) xs open_ h enough =
    let busy : (suc n == 0) ≡ false = ground arith in
    rw
      (
        busy,
        kill_last_process-top n xs open_ (omega arith),
        ◌>>=◌,
        kill_loop-all fuel n xs open_ (omega arith) (omega arith),
        ◌>>=◌,
      )
      refl

kill_all_processes-all :
    (n : ℕ) (xs : List ℕ) (open_ : ℕ)
    → n ≤ length xs
    → kill_all_processes (table n xs open_)
      ≡ some (map (λ pid. kill pid sigkill) (stack_of n xs), table 0 xs open_)
unfolding kill_all_processes
kill_all_processes-all n xs open_ h =
    rw (kill_loop-all (n + 1) n xs open_ h (omega arith), ◌>>=◌) refl

for_all-tabulate :
    (effect : ℕ → Effect) (n i : ℕ) (xs : List ℕ)
    → i + n ≤ length xs
    → for_all effect n i xs ≡ some (tabulate (λ k. effect (get_or xs k 0)) i n)
unfolding for_all
for_all-tabulate effect zero i xs h = refl
for_all-tabulate effect (suc n) i xs h =
    let rest = rw (add-one i) at (for_all-tabulate effect n (i + 1) xs (omega arith)) in
    rw (read_at-get_or xs i 0 (omega arith), ◌>>=◌, add-one i, rest, ◌>>=◌) refl

oldest_first-tabulate :
    (effect : ℕ → Effect) (n : ℕ) (xs : List ℕ)
    → oldest_first effect (stack_of n xs) ≡ tabulate (λ k. effect (get_or xs k 0)) 0 n
unfolding oldest_first stack_of
oldest_first-tabulate effect zero xs = refl
oldest_first-tabulate effect (suc n) xs =
    let e : 0 + n ≡ n = omega arith in
    let last = rw e at (tabulate-snoc (λ k. effect (get_or xs k 0)) 0 n) in
    rw (oldest_first-tabulate effect n xs) (sym last)

for_all-children :
    (effect : ℕ → Effect) (n : ℕ) (xs : List ℕ)
    → n ≤ length xs
    → for_all effect n 0 xs ≡ some (oldest_first effect (stack_of n xs))
for_all-children effect n xs h =
    for_all-tabulate effect n 0 xs (omega arith)
    ∙ ap (λ e. some e) (sym (oldest_first-tabulate effect n xs))

create_child-full :
    (pid : ℕ) (t : Table) → IsTable t → t.process_count ≡ max_processes → create_child pid t ≡ none
unfolding create_child
create_child-full pid t v full =
    let outside : ltb t.process_count (length t.all_processes) ≡ false =
      ground (arith, v.slots, full) in
    rw (outside, ◌>>=◌) refl

prefix-nil : (o : Option (List Effect)) → (o >>= λ rest. some ([] ++ rest)) ≡ o
prefix-nil none = refl
prefix-nil (some es) = refl

show_all_processes-lists :
    (t : Table)
    → IsTable t
    → show_all_processes t ≡ some (oldest_first (λ pid. printed pid) (children t), t)
unfolding show_all_processes
show_all_processes-lists t v =
    let all =
      for_all-children (λ pid. printed pid) t.process_count t.all_processes
        (omega (arith, v.slots, v.fits)) in
    rw (all, ◌>>=◌) refl

allow_stdout_for_all-signals :
    (is_allow : ℕ) (signal : Signal) (t : Table)
    → IsTable t
    → (if is_allow == 0 then sigusr2 else sigusr1) ≡ signal
    → allow_stdout_for_all is_allow t
      ≡ some (
        oldest_first (λ pid. kill pid signal) (children t),
        record t { is_stdout_open = is_allow },
      )
unfolding allow_stdout_for_all
allow_stdout_for_all-signals is_allow signal t v e =
    let all =
      for_all-children (λ pid. kill pid signal) t.process_count t.all_processes
        (omega (arith, v.slots, v.fits)) in
    rw (e, all, ◌>>=◌) refl

minus-promised :
    (cs : List Command)
    → ((t : Table) → IsTable t → main cs t ≡ promised cs (children t))
    → (n : ℕ) (xs : List ℕ) (open_ : ℕ) → length xs ≡ max_processes
    → n ≤ max_processes
    → main (minus ∷ cs) (table n xs open_) ≡ promised (minus ∷ cs) (stack_of n xs)
unfolding main run_command promised stack_of
minus-promised cs next zero xs open_ slots h =
    rw (kill_last_process-none xs open_, prefix-nil (main cs (table 0 xs open_)))
      (next (table 0 xs open_) (record { slots = slots; fits = h }))
minus-promised cs next (suc n) xs open_ slots h =
    rw
      (
        kill_last_process-top n xs open_ (omega (arith, slots)),
        next (table n xs open_) (record { slots = slots; fits = omega arith }),
      )
      refl

-- On a table of 100 slots with the first ones in use, and for any commands and results of `fork`:
-- `main` kills, signals and lists its children as a stack does, and it leaves the array exactly when
-- a 101st child is created.
pub main-promised :
    (cs : List Command) (t : Table) → IsTable t → main cs t ≡ promised cs (children t)
unfolding main run_command promised stack_of
main-promised [] t v = refl
main-promised (plus none ∷ cs) t v = refl
main-promised (plus (some pid) ∷ cs) t v = elim (dec_lt t.process_count max_processes) [
  | yes room ↦
      let (t', e, v', c) = create_child-children pid t v room in
      let fits : ltb (length (children t)) max_processes ≡ true =
        ground (arith, length-stack_of t.process_count t.all_processes) in
      rw (e, ◌>>=◌, fits, prefix-nil (main cs t'), main-promised cs t' v', c) refl
  | no full ↦
      let too_many : ltb (length (children t)) max_processes ≡ false =
        ground (arith, length-stack_of t.process_count t.all_processes) in
      rw (create_child-full pid t v (omega (arith, v.fits)), ◌>>=◌, too_many) refl
]
main-promised (minus ∷ cs) t v =
    minus-promised cs (λ t' v'. main-promised cs t' v') t.process_count t.all_processes
      t.is_stdout_open v.slots v.fits
main-promised (list ∷ cs) t v = rw (show_all_processes-lists t v, main-promised cs t v) refl
main-promised (kill_all ∷ cs) t v =
    let gone : Table = table 0 t.all_processes t.is_stdout_open in
    let all =
      kill_all_processes-all t.process_count t.all_processes t.is_stdout_open
        (omega (arith, v.slots, v.fits)) in
    rw (all, main-promised cs gone (record { slots = v.slots; fits = omega arith })) refl
main-promised (silence ∷ cs) t v =
    rw
      (
        allow_stdout_for_all-signals 0 sigusr2 t v refl,
        main-promised cs (record t { is_stdout_open = 0 })
            (record { slots = v.slots; fits = v.fits }),
      )
      refl
main-promised (allow ∷ cs) t v =
    rw
      (
        allow_stdout_for_all-signals 1 sigusr1 t v refl,
        main-promised cs (record t { is_stdout_open = 1 })
            (record { slots = v.slots; fits = v.fits }),
      )
      refl
main-promised (quit ∷ cs) t v =
    let all =
      kill_all_processes-all t.process_count t.all_processes t.is_stdout_open
        (omega (arith, v.slots, v.fits)) in
    rw all refl
main-promised (other ∷ cs) t v = prefix-nil (main cs t) ∙ main-promised cs t v
