-- ===== src/ShmQueue/Ring/Inv.antt =====
-- The representation invariant of the shared queue.
use osisp.Prelude.{ℕ, ◌+◌, ◌%◌, ◌<◌, ◌≡◌, ◌≢◌, arith, Option, length, length-set, length-replicate}
use osisp.ShmQueue.Message.{Message, zero_message}
use osisp.ShmQueue.Ring.{MessageQueue, queue_size, Init, queue_init, enqueue, dequeue}

-- The counters agree with each other and with the two positions.
pub record IsValid (q : MessageQueue) : Type 0 where
  pub slots : length q.buffer ≡ queue_size
  pub head_in : q.head < queue_size
  pub tail_follows : q.tail ≡ (q.head + q.count) % queue_size
  pub room : q.count + q.free_space ≡ queue_size
  pub balance : q.added_count ≡ q.removed_count + q.count

pub enqueue-IsValid : (q : MessageQueue) (msg : Message) → IsValid q → IsValid (enqueue q msg)
unfolding enqueue
enqueue-IsValid q msg v = ground (arith, length-set q.buffer q.tail msg)

pub dequeue-IsValid : (q : MessageQueue) → IsValid q → IsValid (dequeue q).1
unfolding dequeue
dequeue-IsValid q v = ground arith

-- What `queue_init` returns is a valid queue, empty, with all its space free.
pub queue_init-IsValid :
    (shm : Option ℕ) (segment : Option MessageQueue) (shm_id : ℕ) (q : MessageQueue)
    → queue_init shm segment ≡ Init.initialised shm_id q
    → IsValid q × (q.count ≡ 0) × (q.free_space ≡ queue_size)
unfolding queue_init
queue_init-IsValid shm segment shm_id q e = ground (arith, length-replicate queue_size zero_message)

pub count-enqueue :
    (q : MessageQueue) (msg : Message) → q.free_space ≢ 0 → (enqueue q msg).count ≡ q.count + 1
unfolding enqueue
count-enqueue q msg room = ground arith

pub count-dequeue : (q : MessageQueue) → q.count ≢ 0 → (dequeue q).1.count + 1 ≡ q.count
unfolding dequeue
count-dequeue q held = ground arith
