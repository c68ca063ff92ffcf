-- ===== src/ShmQueue/Processes.antt =====
-- The parent process of lab4/src/main.c: its table of child processes and its commands.
-- What it asks of the system is a list of effects; printed lines are left out.
pub mod Laws
use osisp.Prelude.{
  ℕ, zero, suc, ◌+◌, ◌-◌, ◌*◌, ◌%◌, ◌^◌, List, [], ◌∷◌, ◌++◌, Option, none, some, Bool, true, false,
  ◌==◌, ltb, leb, ◌&&◌, ◌||◌, if◌then◌else◌, get_or, set, replicate,
}
use osisp.Prelude.Int.{ℤ, pos, negsuc}
use osisp.ShmQueue.Ring.{MessageQueue}
use osisp.ShmQueue.System.{ProcessType, consumer_process, producer_process}

abbrev pub max_processes_count : ℕ
max_processes_count = 100

-- The arrays `processes` and `processes_types` and `processes_count`.
pub record Table : Type 0 where
  pub processes : List ℕ
  pub types : List ProcessType
  pub processes_count : ℕ

unfoldable pub no_processes : Table
no_processes = record {
  processes = replicate max_processes_count 0;
  types = replicate max_processes_count consumer_process;
  processes_count = 0;
}

-- What `fork` returns: 0 in the child, the child's id in the parent, or -1.
pub data Fork : Type 0 where
  in_child fork_error : Fork
  in_parent : ℕ → Fork

pub data Effect : Type 0 where
  send_sigusr1 send_sigterm wait_pid : ℕ → Effect
  wait_all remove_segment remove_semaphores : Effect

-- How a command leaves the process that ran it: it goes on with its table after some effects, it
-- has become a child, or it exits.
pub data Outcome : Type 0 where
  goes_on : List Effect → Table → Outcome
  becomes : ProcessType → Outcome
  exits : List Effect → Outcome
  exit_failure : Outcome

unfoldable pub create_process : Fork → ℕ → Table → Outcome
create_process fork process_type t =
    if t.processes_count == max_processes_count then goes_on [] t else elim fork [
      | in_child ↦
          if process_type == b'+'
          then becomes consumer_process
          else if process_type == b'*'
          then becomes producer_process
          else goes_on [] t
      | in_parent pid ↦ goes_on [] (record {
        processes = set t.processes t.processes_count pid;
        types =
            set t.types t.processes_count
              (if process_type == b'+' then consumer_process else producer_process);
        processes_count = t.processes_count + 1;
      })
      | fork_error ↦ exit_failure
    ]

-- The loop `for (i = index; i < processes_count - 1; i++)`, with `n` rounds left.
unfoldable pub shift_down : ℕ → ℕ → Table → Table
shift_down zero i t = t
shift_down (suc n) i t = shift_down n (i + 1) (record t {
  processes = set t.processes i (get_or t.processes (i + 1) 0);
  types = set t.types i (get_or t.types (i + 1) consumer_process);
})

-- `kill_process` at an index that is not negative.
unfoldable pub kill_at : ℕ → Table → List Effect × Table
unfolding shift_down
kill_at index t =
    if leb t.processes_count index || get_or t.processes index 0 == 0
    then ([], t)
    else let pid = get_or t.processes index 0 in
      let shifted = shift_down (t.processes_count - 1 - index) index t in
      (
        send_sigusr1 pid ∷ wait_pid pid ∷ [],
        record shifted { processes_count = t.processes_count - 1 },
      )

unfoldable pub kill_process : ℤ → Table → List Effect × Table
unfolding kill_at
kill_process (negsuc k) t = ([], t)
kill_process (pos index) t = kill_at index t

-- The loop of `cleanup_and_exit` over the table.
unfoldable pub terminate_from : ℕ → ℕ → List ℕ → List Effect
terminate_from zero i pids = []
terminate_from (suc n) i pids =
    let rest = terminate_from n (i + 1) pids in
    if get_or pids i 0 == 0 then rest else send_sigterm (get_or pids i 0) ∷ rest

-- `none` is the NULL that `queue` is before `queue_init` returns.
unfoldable pub cleanup_and_exit : Option MessageQueue → Table → List Effect
unfolding terminate_from
cleanup_and_exit queue t =
    terminate_from t.processes_count 0 t.processes
    ++ wait_all ∷ elim queue [
      | none ↦ remove_segment ∷ remove_semaphores ∷ []
      | some q ↦ remove_semaphores ∷ []
    ]

abbrev pub is_digit : ℕ → Bool
is_digit c = leb b'0' c && leb c b'9'

-- `strtol` on the digits at the front of a text.
unfoldable pub strtol : ℕ → List ℕ → ℕ
strtol acc [] = acc
strtol acc (c ∷ s) = let rest = strtol (acc * 10 + (c - b'0')) s in if is_digit c then rest else acc

-- The conversion of a `long` to the `int` that is passed on.
abbrev pub to_int : ℕ → ℤ
to_int n =
    let word = n % 2 ^ 32 in if ltb word (2 ^ 31) then pos word else negsuc (2 ^ 32 - 1 - word)

-- One round of the loop of `main` on the command that `read_command` left; `l` and `i` print.
unfoldable pub run_command : Fork → Option MessageQueue → List ℕ → Table → Outcome
unfolding create_process kill_process strtol cleanup_and_exit
run_command fork queue [] t = goes_on [] t
run_command fork queue (c ∷ []) t =
    if c == b'+'
    then create_process fork c t
    else if c == b'*'
    then create_process fork c t
    else if c == b'q'
    then exits (cleanup_and_exit queue t)
    else goes_on [] t
run_command fork queue (c ∷ d ∷ s) t =
    if c == b'k' && is_digit d
    then (let (effects, t') = kill_process (to_int (strtol 0 (d ∷ s))) t in goes_on effects t')
    else goes_on [] t
