-- ===== src/ShmQueue/System/Interrupt.antt =====
-- What SIGUSR1 does to a process of lab4/src/main.c that is blocked in `semop`.
use osisp.Prelude.{ℕ, ◌+◌, ◌-◌, ◌<◌, ◌≡◌, ◌≢◌, refl, arith, Bool, true, false, ◌⊎◌, inl, inr}
use osisp.Prelude.Family.{update, weight-le-total}
use osisp.ShmQueue.Message.{Message, generate_message}
use osisp.ShmQueue.Ring.{MessageQueue, queue_size, enqueue}
use osisp.ShmQueue.Ring.Inv.{IsValid}
use osisp.ShmQueue.System.{
  Shared, Local, Pc, produce, produce_free, produce_access, produce_body, produce_release,
  produce_post, consume_access, consume_body, generated, ProcessType, System, Move, Step, move,
  interrupt, produce_wait_fails, produce_lock_fails, consume_lock_fails, produce_lock, produce_put,
  produce_unlock, produce_signal, Reach, here, later, started,
}
use osisp.ShmQueue.System.Inv.{Inv, in_section, Reach-Inv}

pub update_same : (pc : ℕ → Pc) (i : ℕ) (p : Pc) → update pc i p i ≡ p
update_same pc i p = ground arith

update_other : (pc : ℕ → Pc) (i j : ℕ) (p : Pc) → i ≢ j → update pc i p j ≡ pc j
update_other pc i j p ne = ground arith

full_enqueue : (q : MessageQueue) (msg : Message) → q.free_space ≡ 0 → enqueue q msg ≡ q
unfolding enqueue
full_enqueue q msg e = ground arith

-- The state after a process's own step.
abbrev pub moved : System → ℕ → Shared → Pc → System
moved s i m p = record s { mem = m; pc = update s.pc i p }

pub Step-moved :
    {rand : ℕ → ℕ} {n : ℕ} {interrupts : Bool} {s : System} {m : Shared} {p p' : Pc} (i : ℕ)
    → i < n
    → s.pc i ≡ p
    → Move rand (s.flag i) s.mem p m p'
    → Step rand n interrupts s (moved s i m p')
Step-moved i hi e mv = move i hi (rw e mv)

module _ {rand : ℕ → ℕ} {n : ℕ} (q : MessageQueue) (kinds : ℕ → ProcessType) {s : System}
    (v : IsValid q) (empty : q.count ≡ 0) (r : Reach rand n false (started q kinds) s) where
  -- The defect of `wait_semaphore`, from any state that is reached from a fresh queue with no
  -- interrupted wait: while process `i` is between taking and returning the access semaphore and
  -- another process `j` waits for it, SIGUSR1 to `j` brings `j` in beside `i`.
  pub interrupt_breaks_exclusion :
      (i j : ℕ)
      → i < n
      → j < n
      → j ≢ i
      → in_section (s.pc i) ≡ 1
      → ((l : Local) × (s.pc j ≡ produce_access l)) ⊎ (s.pc j ≡ consume_access)
      → (t : System) × Step rand n true s t × (in_section (t.pc i) ≡ 1) × (in_section (t.pc j) ≡ 1)
  interrupt_breaks_exclusion i j hi hj ne inside waits = enter waits
    where
      inv : Inv n s.mem s.pc
      inv = Reach-Inv q kinds v empty r

      taken : s.mem.queue_access ≡ 0
      taken = omega (arith, weight-le-total in_section n s.pc i hi, inside, inv.access)

      enter :
          ((l : Local) × (s.pc j ≡ produce_access l)) ⊎ (s.pc j ≡ consume_access)
          → (t : System) × Step rand n true s t
            × (in_section (t.pc i) ≡ 1)
            × (in_section (t.pc j) ≡ 1)
      enter (inl (l, e)) = (
        _,
        interrupt j {p = produce_body l} refl hj (rw e (produce_lock_fails taken)),
        rw (update_other s.pc j i (produce_body l) ne) inside,
        rw (update_same s.pc j (produce_body l)) refl,
      )
      enter (inr e) = (
        _,
        interrupt j {p = consume_body} refl hj (rw e (consume_lock_fails taken)),
        rw (update_other s.pc j i consume_body ne) inside,
        rw (update_same s.pc j consume_body) refl,
      )

  -- From any state that is reached from a fresh queue with no interrupted wait, while the queue is
  -- full and no process has the access semaphore: SIGUSR1 to a
  -- producer that waits for free space can be followed by its steps back to the head of its loop,
  -- after which the queue is as it was, its new message is lost, and EL_COUNT_SEM counts one message
  -- more than before.
  pub interrupt_loses_message :
      (i : ℕ) (l : Local)
      → i < n
      → s.pc i ≡ produce_free l
      → s.mem.queue.count ≡ queue_size
      → s.mem.queue_access ≡ 1
      → (t : System) × Reach rand n true s t
        × (t.pc i ≡ produce (generated rand l))
        × (t.mem.queue ≡ s.mem.queue)
        × (t.mem.queue_access ≡ 1)
        × (t.mem.el_count ≡ s.mem.el_count + 1)
  interrupt_loses_message i l hi e full access = (
    posted,
    later
        (later
          (later
            (later (later here (interrupt i refl hi (rw e (produce_wait_fails none_free))))
              (Step-moved i hi (update_same s.pc i _) (produce_lock (omega arith))))
            (Step-moved i hi (update_same waited.pc i _) produce_put))
          (Step-moved i hi (update_same entered.pc i _) produce_unlock))
        (Step-moved i hi (update_same stored.pc i _) produce_signal),
    update_same released.pc i _,
    refused,
    omega (arith, access),
    refl,
  )
    where
      inv : Inv n s.mem s.pc
      inv = Reach-Inv q kinds v empty r

      none_free : s.mem.free_space ≡ 0
      none_free = omega (arith, inv.free, full)

      refused : enqueue s.mem.queue (generate_message rand l.pos l.msg) ≡ s.mem.queue
      refused = full_enqueue s.mem.queue _ (omega (arith, inv.queue.room, full))

      waited : System
      waited = record s { pc = update s.pc i (produce_access l); flag = update s.flag i true }

      entered : System
      entered =
          moved waited i (record s.mem { queue_access = s.mem.queue_access - 1 }) (produce_body l)

      stored : System
      stored =
          moved entered i
            (record entered.mem { queue = enqueue s.mem.queue (generate_message rand l.pos l.msg) })
            (produce_release (generated rand l))

      released : System
      released =
          moved stored i (record stored.mem { queue_access = s.mem.queue_access - 1 + 1 })
            (produce_post (generated rand l))

      posted : System
      posted =
          moved released i (record released.mem { el_count = s.mem.el_count + 1 })
            (produce (generated rand l))
