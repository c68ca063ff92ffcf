-- ===== src/SignalStats/Table.antt =====
-- The parent of lab3/src/parent.c: its table of children and its commands.
-- `fork` answers as an argument says; an access outside `allProcesses` is undefined in C and a fault
-- here. `kill` of a child that has ended does no harm, and its result is only printed.
pub mod Laws
use osisp.Prelude.{
  ℕ, zero, suc, ◌+◌, ◌-◌, List, [], ◌∷◌, ◌++◌, Option, none, some, ◌==◌, ltb, if◌then◌else◌, map,
  replicate, take, get_or, read_at, write_at,
}
use osisp.Prelude.OptionMonad.{◌>>=◌}

-- MAX_PROCESSES
abbrev pub max_processes : ℕ
max_processes = 100

-- `allProcesses`, `process_count` and `is_stdout_open`.
pub record Table : Type 0 where
  pub all_processes : List ℕ
  pub process_count : ℕ
  pub is_stdout_open : ℕ

unfoldable pub initial : Table
initial = record {
  all_processes = replicate max_processes 0;
  process_count = 0;
  is_stdout_open = 1;
}

pub data Signal : Type 0 where
  sigkill sigusr1 sigusr2 : Signal

pub data Effect : Type 0 where
  kill : ℕ → Signal → Effect
  printed : ℕ → Effect  -- a line of `show_all_processes`

-- `create_child` in the parent, with the pid that `fork` returned.
unfoldable pub create_child : ℕ → Table → Option Table
create_child pid t = do
  all_processes ← write_at t.all_processes t.process_count pid
  some (record t { all_processes = all_processes; process_count = t.process_count + 1 })

unfoldable pub kill_last_process : Table → Option (List Effect × Table)
kill_last_process t = if t.process_count == 0 then some ([], t) else do
  pid ← read_at t.all_processes (t.process_count - 1)
  some (kill pid sigkill ∷ [], record t { process_count = t.process_count - 1 })

-- The loop of `kill_all_processes`, on fuel.
unfoldable pub kill_loop : ℕ → Table → Option (List Effect × Table)
kill_loop zero t = none
kill_loop (suc fuel) t =
    let round : Option (List Effect × Table) = (do
      (effects, t') ← kill_last_process t
      (rest, t'') ← kill_loop fuel t'
      some (effects ++ rest, t'')) in
    if t.process_count == 0 then some ([], t) else round

unfoldable pub kill_all_processes : Table → Option (List Effect × Table)
kill_all_processes t = do
  (effects, t') ← kill_loop (t.process_count + 1) t
  some (effects, record t' { process_count = 0 })

-- The loop of `show_all_processes` and of `allow_stdout_for_all`, from `i` with `n` rounds left.
unfoldable pub for_all : (ℕ → Effect) → ℕ → ℕ → List ℕ → Option (List Effect)
for_all effect zero i all_processes = some []
for_all effect (suc n) i all_processes = do
  pid ← read_at all_processes i
  rest ← for_all effect n (i + 1) all_processes
  some (effect pid ∷ rest)

unfoldable pub show_all_processes : Table → Option (List Effect × Table)
show_all_processes t = do
  effects ← for_all (λ pid. printed pid) t.process_count 0 t.all_processes
  some (effects, t)

unfoldable pub allow_stdout_for_all : ℕ → Table → Option (List Effect × Table)
allow_stdout_for_all is_allow t = do
  effects ←
      for_all (λ pid. kill pid (if is_allow == 0 then sigusr2 else sigusr1)) t.process_count 0
        t.all_processes
  some (effects, record t { is_stdout_open = is_allow })

-- The commands of `main`; `+` carries what `fork` returns to the parent, none if it fails.
pub data Command : Type 0 where
  plus : Option ℕ → Command
  minus list kill_all silence allow quit other : Command

-- What `main` does next: the loop goes on, or the program ends.
pub data Outcome : Type 0 where
  goes_on : List Effect → Table → Outcome
  ends : List Effect → Outcome

abbrev pub on_done : (List Effect → Table → Outcome) → Option (List Effect × Table) → Option Outcome
on_done next none = none
on_done next (some (effects, t)) = some (next effects t)

unfoldable pub run_command : Command → Table → Option Outcome
run_command (plus none) t = some (ends [])
run_command (plus (some pid)) t = do t' ← create_child pid t; some (goes_on [] t')
run_command minus t = on_done goes_on (kill_last_process t)
run_command list t = on_done goes_on (show_all_processes t)
run_command kill_all t = on_done goes_on (kill_all_processes t)
run_command silence t = on_done goes_on (allow_stdout_for_all 0 t)
run_command allow t = on_done goes_on (allow_stdout_for_all 1 t)
run_command quit t = on_done (λ effects _. ends effects) (kill_all_processes t)
run_command other t = some (goes_on [] t)

abbrev pub after : (Table → Option (List Effect)) → Option Outcome → Option (List Effect)
after next none = none
after next (some (ends effects)) = some effects
after next (some (goes_on effects t)) = do rest ← next t; some (effects ++ rest)

-- `main` on the commands that it reads, until it ends or waits for another one.
unfoldable pub main : List Command → Table → Option (List Effect)
main [] t = some []
main (c ∷ cs) t = after (λ t'. main cs t') (run_command c t)
