-- ===== src/ShmQueue/System.antt =====
-- The producer and consumer processes of lab4/src/main.c, their three System V semaphores and the
-- shared queue, with the processes' steps in any order. A step is one call on shared memory or on a
-- semaphore. `rand` is each process's stream: `fork` copies its state, so all begin at position 0.
-- The steps are those before the command `q`, whose SIGTERM ends the processes.
pub mod Inv
pub mod Interrupt
pub mod Progress
pub mod Safety
mod Tests
use osisp.Prelude.{ℕ, ◌+◌, ◌-◌, ◌<◌, ◌≡◌, Bool, true, false, Option, none, replicate}
use osisp.Prelude.Family.{update}
use osisp.ShmQueue.Message.{Message, zero_message, generate_message, drawn_count}
use osisp.ShmQueue.Ring.{MessageQueue, queue_size, enqueue, dequeue}

-- The segment and the values of EL_COUNT_SEM, FREE_SPACE_SEM and QUEUE_ACCESS_SEM.
pub record Shared : Type 0 where
  pub queue : MessageQueue
  pub el_count : ℕ
  pub free_space : ℕ
  pub queue_access : ℕ

-- `init_semaphores`
unfoldable pub init_semaphores : MessageQueue → Shared
init_semaphores q = record { queue = q; el_count = 0; free_space = queue_size; queue_access = 1 }

-- What a producer keeps: its position in `rand` and its local `msg`.
pub record Local : Type 0 where
  pub pos : ℕ
  pub msg : Message

pub data ProcessType : Type 0 where
  consumer_process producer_process : ProcessType

-- Where a process stands: the call that it makes next.
pub data Pc : Type 0 where
  -- producer_process
  produce : Local → Pc  -- the test of `while`
  produce_free : Local → Pc  -- the wait for FREE_SPACE_SEM
  produce_access : Local → Pc  -- the wait for QUEUE_ACCESS_SEM
  produce_body : Local → Pc  -- generate_message and enqueue
  produce_release : Local → Pc  -- the signal of QUEUE_ACCESS_SEM
  produce_post : Local → Pc  -- the signal of EL_COUNT_SEM
  -- consumer_process, with the pointer that `dequeue` returned
  consume : Pc
  consume_items : Pc
  consume_access : Pc
  consume_body : Pc
  consume_release : Option ℕ → Pc
  consume_post : Option ℕ → Pc
  consume_check : Option ℕ → Pc  -- the hash is computed through the pointer
  terminated : Pc

abbrev pub start_of : ProcessType → Pc
start_of producer_process = produce (record { pos = 0; msg = zero_message })
start_of consumer_process = consume

-- `generate_message(&msg)`
abbrev pub generated : (ℕ → ℕ) → Local → Local
generated rand l = record {
  pos = l.pos + drawn_count rand l.pos;
  msg = generate_message rand l.pos l.msg;
}

-- One step of a process whose `terminate_flag` is `flag`. `semop` with -1 goes through only at a
-- positive value: at 0 the process is blocked and has no step of its own.
pub data Move (rand : ℕ → ℕ) (flag : Bool) (m : Shared) : Pc → Shared → Pc → Type 0 where
  produce_goes : {l : Local} → flag ≡ false → Move rand flag m (produce l) m (produce_free l)
  produce_wait :
      {l : Local}
      → 0 < m.free_space
      → Move rand flag m
          (produce_free l)
          (record m { free_space = m.free_space - 1 })
          (produce_access l)
  produce_lock :
      {l : Local}
      → 0 < m.queue_access
      → Move rand flag m
          (produce_access l)
          (record m { queue_access = m.queue_access - 1 })
          (produce_body l)
  produce_put :
      {l : Local}
      → Move rand flag m
          (produce_body l)
          (record m { queue = enqueue m.queue (generate_message rand l.pos l.msg) })
          (produce_release (generated rand l))
  produce_unlock :
      {l : Local}
      → Move rand flag m
          (produce_release l)
          (record m { queue_access = m.queue_access + 1 })
          (produce_post l)
  produce_signal :
      {l : Local}
      → Move rand flag m (produce_post l) (record m { el_count = m.el_count + 1 }) (produce l)
  produce_exit : {l : Local} → flag ≡ true → Move rand flag m (produce l) m terminated
  consume_goes : flag ≡ false → Move rand flag m consume m consume_items
  consume_wait :
      0 < m.el_count
      → Move rand flag m consume_items (record m { el_count = m.el_count - 1 }) consume_access
  consume_lock :
      0 < m.queue_access
      → Move rand flag m consume_access
          (record m { queue_access = m.queue_access - 1 })
          consume_body
  consume_get :
      Move rand flag m consume_body
        (record m { queue = (dequeue m.queue).1 })
        (consume_release (dequeue m.queue).0)
  consume_unlock :
      {out : Option ℕ}
      → Move rand flag m
          (consume_release out)
          (record m { queue_access = m.queue_access + 1 })
          (consume_post out)
  consume_signal :
      {out : Option ℕ}
      → Move rand flag m
          (consume_post out)
          (record m { free_space = m.free_space + 1 })
          (consume_check out)
  consume_hash : {out : Option ℕ} → Move rand flag m (consume_check out) m consume
  consume_exit : flag ≡ true → Move rand flag m consume m terminated

-- SIGUSR1 interrupts a process that is blocked in `semop`: the call returns -1 and leaves the semaphore,
-- `wait_semaphore` does not look at the result, and the process goes on.
pub data Interrupted (m : Shared) : Pc → Pc → Type 0 where
  produce_wait_fails :
      {l : Local} → m.free_space ≡ 0 → Interrupted m (produce_free l) (produce_access l)
  produce_lock_fails :
      {l : Local} → m.queue_access ≡ 0 → Interrupted m (produce_access l) (produce_body l)
  consume_wait_fails : m.el_count ≡ 0 → Interrupted m consume_items consume_access
  consume_lock_fails : m.queue_access ≡ 0 → Interrupted m consume_access consume_body

-- `n` processes: an index from `n` on names none.
pub record System : Type 0 where
  pub mem : Shared
  pub pc : ℕ → Pc
  pub flag : ℕ → Bool

-- A process moves, or `termination_handler` runs in it: while it is not blocked this only sets its flag,
-- and a process that is blocked in `semop` then goes on too. `interrupts` is whether SIGUSR1 may
-- reach a process that is blocked.
pub data Step (rand : ℕ → ℕ) (n : ℕ) (interrupts : Bool) (s : System) : System → Type 0 where
  move :
      (i : ℕ) {m : Shared} {p : Pc}
      → i < n
      → Move rand (s.flag i) s.mem (s.pc i) m p
      → Step rand n interrupts s (record s { mem = m; pc = update s.pc i p })
  terminate : (i : ℕ) → Step rand n interrupts s (record s { flag = update s.flag i true })
  interrupt :
      (i : ℕ) {p : Pc}
      → interrupts ≡ true
      → i < n
      → Interrupted s.mem (s.pc i) p
      → Step rand n interrupts s (record s { pc = update s.pc i p; flag = update s.flag i true })

-- `main` after `queue_init` returned `q` and each process was created. A process that is created
-- later is one that does not move before.
abbrev pub started : MessageQueue → (ℕ → ProcessType) → System
started q kinds = record {
  mem = init_semaphores q;
  pc = λ i. start_of (kinds i);
  flag = λ i. false;
}

pub data Reach (rand : ℕ → ℕ) (n : ℕ) (interrupts : Bool) (s : System) : System → Type 0 where
  here : Reach rand n interrupts s s
  later :
      {t u : System}
      → Reach rand n interrupts s t
      → Step rand n interrupts t u
      → Reach rand n interrupts s u
