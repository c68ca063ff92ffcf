-- ===== src/ShmQueue/Ring/Refine.antt =====
-- A valid queue in shared memory behaves as the bounded first-in first-out queue of its contents.
use native.Mathlib.Nat.{add-zero, mod-eq_of_lt}
use osisp.Prelude.{
  ℕ, zero, suc, ◌+◌, ◌-◌, ◌%◌, ◌<◌, ◌≡◌, ◌≢◌, refl, ap, ap₂, ◌∙◌, arith, List, [], ◌∷◌, ◌++◌,
  Option, none, some, ◌==◌, set, get_or-set_self, get_or-set_ne, tabulate, tabulate-cong,
  tabulate-add_one, length-tabulate, inl, inr, Bool-cases, if◌then◌else◌,
}
use osisp.Fifo
use osisp.Fifo.{Op, put, get}
use osisp.ShmQueue.Message.{Message, zero_message}
use osisp.ShmQueue.Ring.{MessageQueue, queue_size, enqueue, dequeue, read_slot}
use osisp.ShmQueue.Ring.Inv.{IsValid, enqueue-IsValid, dequeue-IsValid}

-- The slot of the message with `j` older ones in the queue.
abbrev pub slot : MessageQueue → ℕ → Message
slot q j = read_slot q ((q.head + j) % queue_size)

-- The messages that the queue holds, oldest first.
abbrev pub contents : MessageQueue → List Message
contents q = tabulate (slot q) 0 q.count

-- What a consumer reads through the pointer that `dequeue` returned.
abbrev pub read : MessageQueue → Option ℕ → Option Message
read q none = none
read q (some i) = some (read_slot q i)

-- A sequence of calls, each dequeued message read at once.
unfoldable pub run : MessageQueue → List (Op Message) → List (Option Message)
run q [] = []
run q (put msg ∷ ops) = run (enqueue q msg) ops
run q (get ∷ ops) = let (slot?, q') = dequeue q in read q' slot? ∷ run q' ops

-- `tabulate` matches on `suc`, the code tests `count == 0`.
tabulate_ne_zero {ℓ} :
    {A : Type ℓ} (f : ℕ → A) (n : ℕ) → n ≢ 0 → tabulate f 0 n ≡ f 0 ∷ tabulate f 1 (n - 1)
tabulate_ne_zero f zero h = absurd (h refl)
tabulate_ne_zero f (suc n) h = ap (λ k. f 0 ∷ tabulate f 1 k) (omega arith)

-- The queue after a message was stored behind its last one.
abbrev stored : MessageQueue → Message → MessageQueue
stored q msg = record q {
  buffer = set q.buffer q.tail msg;
  tail = (q.tail + 1) % queue_size;
  count = q.count + 1;
  added_count = q.added_count + 1;
  free_space = q.free_space - 1;
}

contents-stored :
    (q : MessageQueue) (msg : Message)
    → IsValid q
    → q.count < queue_size
    → contents (stored q msg) ≡ contents q ++ msg ∷ []
contents-stored q msg v room =
    tabulate-add_one (slot (stored q msg)) 0 q.count
    ∙ ap₂ (λ xs x. xs ++ x ∷ []) (tabulate-cong (slot (stored q msg)) (slot q) 0 0 q.count others)
        last
  where
    last : slot (stored q msg) (0 + q.count) ≡ msg
    last =
        let e : (q.head + (0 + q.count)) % queue_size ≡ q.tail = omega arith in
        rw e (get_or-set_self q.buffer q.tail msg zero_message (omega arith))

    others : (j : ℕ) → j < q.count → slot (stored q msg) (0 + j) ≡ slot q (0 + j)
    others j h =
        get_or-set_ne q.buffer q.tail ((q.head + (0 + j)) % queue_size) msg zero_message
          (λ e. omega arith)

contents_ne_zero :
    (q : MessageQueue)
    → IsValid q
    → q.count ≢ 0
    → contents q
      ≡ slot q 0 ∷ contents (record q { head = (q.head + 1) % queue_size; count = q.count - 1 })
contents_ne_zero q v some_held =
    tabulate_ne_zero (slot q) q.count some_held
    ∙ ap (◌∷◌ (slot q 0)) (tabulate-cong (slot q) _ 1 0 (q.count - 1) shifted)
  where
    shifted :
        (j : ℕ)
        → j < q.count - 1
        → slot q (1 + j)
          ≡ slot (record q { head = (q.head + 1) % queue_size; count = q.count - 1 }) (0 + j)
    shifted j h =
        let e : (q.head + (1 + j)) % queue_size
            ≡ ((q.head + 1) % queue_size + (0 + j)) % queue_size =
          omega arith in
        rw e

-- With free space a message is stored behind the others.
pub enqueue-append :
    (q : MessageQueue) (msg : Message)
    → IsValid q
    → q.free_space ≢ 0
    → contents (enqueue q msg) ≡ contents q ++ msg ∷ []
unfolding enqueue
enqueue-append q msg v room = ground (arith, contents-stored q msg v (omega arith))

-- On a valid queue `enqueue` is the bounded queue's push: the message becomes the newest one, or
-- the queue is left as it is when ten messages are held.
pub enqueue_refines :
    (q : MessageQueue) (msg : Message)
    → IsValid q
    → contents (enqueue q msg) ≡ Fifo.push queue_size (contents q) msg
unfolding enqueue Fifo.push
enqueue_refines q msg v = elim (Bool-cases (q.free_space == 0)) [
  | inl e ↦ ground (arith, length-tabulate (slot q) 0 q.count)
  | inr e ↦
      ground (arith, length-tabulate (slot q) 0 q.count, contents-stored q msg v (ground arith))
]

-- On a valid queue `dequeue` is the queue's pop: the pointer that it returns reads the oldest
-- message, the rest stays in order, and on an empty queue it is NULL and nothing changes.
pub dequeue_refines :
    (q : MessageQueue)
    → IsValid q
    → let (out, q') = dequeue q in (read q' out, contents q') ≡ Fifo.pop (contents q)
unfolding dequeue Fifo.pop
dequeue_refines q v = ground (arith, contents_ne_zero q v, mod-eq_of_lt v.head_in, add-zero q.head)

-- No sequence of calls of `enqueue` and `dequeue` tells a valid queue from the bounded first-in
-- first-out queue of its contents.
pub run_refines :
    (ops : List (Op Message)) (q : MessageQueue)
    → IsValid q
    → run q ops ≡ Fifo.run queue_size (contents q) ops
unfolding run Fifo.run
run_refines [] q v = refl
run_refines (put msg ∷ ops) q v =
    rw (run_refines ops (enqueue q msg) (enqueue-IsValid q msg v), ← enqueue_refines q msg v)
run_refines (get ∷ ops) q v =
    rw (run_refines ops (dequeue q).1 (dequeue-IsValid q v), ← dequeue_refines q v)

-- On a valid queue that is not empty, the message that a consumer reads through its pointer after
-- the next `enqueue` is the message it dequeued exactly if the queue was not full before; if it was
-- full, the slot has been overwritten and the consumer reads the new message.
pub dequeue-enqueue_overwrites :
    (q : MessageQueue) (msg : Message)
    → IsValid q
    → q.count ≢ 0
    → let (out, q') = dequeue q in
      read (enqueue q' msg) out ≡ some (if q.free_space == 0 then msg else read_slot q q.head)
unfolding dequeue enqueue
dequeue-enqueue_overwrites q msg v some_held = ground (
  arith,
  get_or-set_self q.buffer q.tail msg zero_message,
  get_or-set_ne q.buffer q.tail q.head msg zero_message,
)
