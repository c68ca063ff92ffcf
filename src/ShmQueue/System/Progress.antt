-- ===== src/ShmQueue/System/Progress.antt =====
-- What the semaphores count at least, whatever SIGUSR1 interrupts: an interrupted wait leaves them too
-- high and never too low, so the producers and consumers do not come to a stop.
use osisp.Prelude.{ℕ, ◌+◌, ◌<◌, ◌≤◌, ◌≡◌, arith, Bool, ◌⊎◌, inl, inr, dec_lt}
use osisp.Prelude.Family.{update, total, total-cases}
use osisp.ShmQueue.Message.{Message, generate_message}
use osisp.ShmQueue.Ring.{MessageQueue, queue_size, enqueue, dequeue}
use osisp.ShmQueue.Ring.Inv.{
  IsValid, enqueue-IsValid, dequeue-IsValid, count-enqueue, count-dequeue,
}
use osisp.ShmQueue.System.{
  Shared, Local, Pc, produce_free, produce_access, produce_body, produce_release, produce_post,
  consume_items, consume_access, consume_body, consume_release, consume_post, ProcessType, Move,
  produce_wait, produce_lock, produce_put, produce_unlock, produce_signal, consume_wait,
  consume_lock, consume_get, consume_unlock, consume_signal, Interrupted, produce_wait_fails,
  produce_lock_fails, consume_wait_fails, consume_lock_fails, System, move, terminate, interrupt,
  Reach, here, later, started, init_semaphores,
}
use osisp.ShmQueue.System.Inv.{
  Inv, in_section, free_in_transit, item_in_transit, Mover, mover, enabled, started-Inv,
}

record Enough (n : ℕ) (m : Shared) (pc : ℕ → Pc) : Type 0 where
  queue : IsValid m.queue
  access : 1 ≤ m.queue_access + total in_section n pc
  free : queue_size ≤ m.free_space + total free_in_transit n pc + m.queue.count
  items : m.queue.count ≤ m.el_count + total item_in_transit n pc

-- A queue that is full refuses the message, and one that is empty stays empty.
count-enqueue_le :
    (q : MessageQueue) (msg : Message)
    → IsValid q
    → ((enqueue q msg).count ≡ q.count + 1)
      ⊎ (((enqueue q msg).count ≡ q.count) × (q.count ≡ queue_size))
unfolding enqueue
count-enqueue_le q msg v = elim (dec_lt 0 q.free_space) [
  | yes room ↦ inl (count-enqueue q msg (omega arith))
  | no full ↦ inr (ground arith, omega (arith, v.room))
]

count-dequeue_le :
    (q : MessageQueue)
    → ((dequeue q).1.count + 1 ≡ q.count) ⊎ (((dequeue q).1.count ≡ 0) × (q.count ≡ 0))
unfolding dequeue
count-dequeue_le q = elim (dec_lt 0 q.count) [
  | yes some_ ↦ inl (omega (arith, count-dequeue q (omega arith)))
  | no none_ ↦ inr (ground arith, omega arith)
]

Move-Enough :
    {rand : ℕ → ℕ} {flag : Bool} {n : ℕ} {pc : ℕ → Pc} {i : ℕ} {m m' : Shared} {p p' : Pc}
    → Move rand flag m p m' p'
    → Mover n pc i p p'
    → Enough n m pc
    → Enough n m' (update pc i p')
Move-Enough {rand = rand} {m = m} (produce_put {l}) f v =
    let msg : Message = generate_message rand l.pos l.msg in
    let counted = count-enqueue_le m.queue msg v.queue in
    record {
      queue = enqueue-IsValid m.queue msg v.queue;
      access = omega (arith, f.sections, v.access);
      free = ground (arith, counted, f.frees, v.free);
      items = ground (arith, counted, f.waiting, v.items);
    }
Move-Enough {m = m} consume_get f v =
    let counted = count-dequeue_le m.queue in
    record {
      queue = dequeue-IsValid m.queue v.queue;
      access = omega (arith, f.sections, v.access);
      free = ground (arith, counted, f.frees, v.free);
      items = ground (arith, counted, f.waiting, v.items);
    }
Move-Enough mv f v = record {
  queue = v.queue;
  access = ground (arith, enabled mv);
  free = ground (arith, enabled mv);
  items = ground (arith, enabled mv);
}

-- The interrupted process is in the section, or in transit, without having taken anything.
Interrupted-Enough :
    {n : ℕ} {pc : ℕ → Pc} {i : ℕ} {m : Shared} {p p' : Pc}
    → Interrupted m p p'
    → Mover n pc i p p'
    → Enough n m pc
    → Enough n m (update pc i p')
Interrupted-Enough (produce_wait_fails h) f v = record {
  queue = v.queue;
  access = omega arith;
  free = omega arith;
  items = omega arith;
}
Interrupted-Enough (produce_lock_fails h) f v = record {
  queue = v.queue;
  access = omega arith;
  free = omega arith;
  items = omega arith;
}
Interrupted-Enough (consume_wait_fails h) f v = record {
  queue = v.queue;
  access = omega arith;
  free = omega arith;
  items = omega arith;
}
Interrupted-Enough (consume_lock_fails h) f v = record {
  queue = v.queue;
  access = omega arith;
  free = omega arith;
  items = omega arith;
}

Reach-Enough :
    {rand : ℕ → ℕ} {n : ℕ} {interrupts : Bool} (q : MessageQueue) (kinds : ℕ → ProcessType)
    {s : System}
    → IsValid q
    → q.count ≡ 0
    → Reach rand n interrupts (started q kinds) s
    → Enough n s.mem s.pc
unfolding init_semaphores
Reach-Enough {n = n} q kinds v empty here =
    let inv : Inv n (started q kinds).mem (started q kinds).pc = started-Inv n q kinds v empty in
    record {
      queue = v;
      access = omega (arith, inv.access);
      free = omega (arith, inv.free);
      items = omega (arith, inv.items);
    }
Reach-Enough {n = n} q kinds v empty (later {t} r (move i {p = p} lt mv)) =
    Move-Enough mv (mover n t.pc i p lt) (Reach-Enough q kinds v empty r)
Reach-Enough q kinds v empty (later r (terminate i)) = Reach-Enough q kinds v empty r
Reach-Enough {n = n} q kinds v empty (later {t} r (interrupt i {p} on lt w)) =
    Interrupted-Enough w (mover n t.pc i p lt) (Reach-Enough q kinds v empty r)

-- The process has a step.
abbrev pub CanMove : (ℕ → ℕ) → Bool → Shared → Pc → Type 0
CanMove rand flag m p = (m' : Shared) × (p' : Pc) × Move rand flag m p m' p'

-- Some process has one.
abbrev pub CanStep : (ℕ → ℕ) → ℕ → System → Type 0
CanStep rand n s = (k : ℕ) × (k < n) × CanMove rand (s.flag k) s.mem (s.pc k)

-- A process that has the access semaphore is never blocked.
section_moves :
    (rand : ℕ → ℕ) (flag : Bool) (m : Shared) (p : Pc) → 0 < in_section p → CanMove rand flag m p
section_moves rand flag m (produce_body l) h = (_, _, produce_put)
section_moves rand flag m (produce_release l) h = (_, _, produce_unlock)
section_moves rand flag m consume_body h = (_, _, consume_get)
section_moves rand flag m (consume_release out) h = (_, _, consume_unlock)
section_moves rand flag m _ h = absurd (omega arith)

-- With the access semaphore free, neither is one that has passed its first wait.
transit_moves :
    (rand : ℕ → ℕ) (flag : Bool) (m : Shared) (p : Pc)
    → 0 < m.queue_access
    → 0 < free_in_transit p + item_in_transit p
    → CanMove rand flag m p
transit_moves rand flag m (produce_access l) a h = (_, _, produce_lock a)
transit_moves rand flag m (produce_body l) a h = (_, _, produce_put)
transit_moves rand flag m (produce_release l) a h = (_, _, produce_unlock)
transit_moves rand flag m (produce_post l) a h = (_, _, produce_signal)
transit_moves rand flag m consume_access a h = (_, _, consume_lock a)
transit_moves rand flag m consume_body a h = (_, _, consume_get)
transit_moves rand flag m (consume_release out) a h = (_, _, consume_unlock)
transit_moves rand flag m (consume_post out) a h = (_, _, consume_signal)
transit_moves rand flag m _ a h = absurd (omega arith)

module _ {rand : ℕ → ℕ} {n : ℕ} {interrupts : Bool} (q : MessageQueue) (kinds : ℕ → ProcessType)
    {s : System} (v : IsValid q) (empty : q.count ≡ 0)
    (r : Reach rand n interrupts (started q kinds) s) where
  -- From a fresh queue, in every order of steps, with SIGUSR1 at any moments and also in blocked
  -- waits: while a producer stands at its wait for free space and a consumer at its wait for a
  -- message, some process can make a step of its own.
  pub no_deadlock :
      (i j : ℕ) (l : Local)
      → i < n
      → j < n
      → s.pc i ≡ produce_free l
      → s.pc j ≡ consume_items
      → CanStep rand n s
  no_deadlock i j l hi hj ei ej = by_section (total-cases in_section n s.pc)
    where
      inv : Enough n s.mem s.pc
      inv = Reach-Enough q kinds v empty r

      -- No process has the weight, or one of them can be named.
      Idle : (Pc → ℕ) → Type 0
      Idle w = (total w n s.pc ≡ 0) ⊎ ((k : ℕ) × (k < n) × (0 < w (s.pc k)))

      by_semaphore :
          total free_in_transit n s.pc ≡ 0 → total item_in_transit n s.pc ≡ 0 → CanStep rand n s
      by_semaphore ef ew = elim (dec_lt 0 s.mem.el_count) [
        | yes h ↦ (j, hj, rw ej (_, _, consume_wait h))
        | no h ↦
            let room : 0 < s.mem.free_space = omega (arith, inv.free, inv.items, ef, ew) in
            (i, hi, rw ei (_, _, produce_wait room))
      ]

      by_items :
          0 < s.mem.queue_access
          → total free_in_transit n s.pc ≡ 0
          → Idle item_in_transit
          → CanStep rand n s
      by_items a ef (inr (k, hk, w)) =
          (k, hk, transit_moves rand (s.flag k) s.mem (s.pc k) a (omega arith))
      by_items a ef (inl ew) = by_semaphore ef ew

      by_frees : 0 < s.mem.queue_access → Idle free_in_transit → CanStep rand n s
      by_frees a (inr (k, hk, w)) =
          (k, hk, transit_moves rand (s.flag k) s.mem (s.pc k) a (omega arith))
      by_frees a (inl ef) = by_items a ef (total-cases item_in_transit n s.pc)

      by_section : Idle in_section → CanStep rand n s
      by_section (inr (k, hk, w)) = (k, hk, section_moves rand (s.flag k) s.mem (s.pc k) w)
      by_section (inl e) =
          by_frees (omega (arith, inv.access, e)) (total-cases free_in_transit n s.pc)
