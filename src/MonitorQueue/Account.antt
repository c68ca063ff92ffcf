-- ===== src/MonitorQueue/Account.antt =====
-- What the threads of lab5/5.2/src/main.c account for while none is closed: who has the mutex, and what
-- the test of a loop on a condition variable has shown about the queue.
use osisp.Prelude.{ℕ, ◌+◌, ◌-◌, Bool, ◌<◌, ◌≤◌, ◌≡◌, refl, arith, true, none, ◌==◌, ltb, write_at}
use osisp.Prelude.Family.{total}
use osisp.ThreadQueue.Queue.{MessageQueue, shift_down}
use osisp.ThreadQueue.Queue.Sizes.{
  Yields, yields, Yields-if, Yields-bind, result, queue_push-Sizes, queue_pop-Sizes,
  queue_expand-Sizes,
}
use osisp.MonitorQueue.{
  Shared, queue_is_full, queue_is_empty, queue_reduce, Producer, Consumer, Main, Produce, Consume,
  Resize, System, max_threads, produce_test, produce_full, produce_wait, produce_put,
  produce_signal, produce_release, consume_test, consume_empty, consume_wait, consume_get,
  consume_print, consume_signal, consume_release, reduce_test, reduce_wait, reduce_body,
  reduce_release, expand_body, expand_release, produce_ends, produce_locked, produce_room,
  produce_leaves, produce_woken, produce_pushed, consume_ends, consume_locked, consume_some,
  consume_leaves, consume_woken, consume_popped, reduce_locked, reduce_room, reduce_woken,
  reduce_done, expand_locked, expand_done,
}

pub queue_reduce-sizes :
    (q : MessageQueue)
    → q.len < q.max_len
    → Yields (λ q'. (q'.len ≡ q.len) × (q.max_len ≡ q'.max_len + 1)) (queue_reduce q)
unfolding queue_reduce
queue_reduce-sizes q room =
    Yields-if (q.len == q.max_len) (λ full. absurd (ground arith))
      λ _.
        Yields-if (q.max_len == 0) (λ full. absurd (ground arith))
          λ _.
            Yields-if (ltb q.tail q.head)
              (λ _. Yields-bind (shift_down (q.max_len - q.head) q.head q.messages) λ shifted.
                Yields-bind (write_at shifted (q.max_len - 1) none)
                  λ messages. yields (refl, omega arith))
              (λ _. yields (refl, omega arith))

-- The thread has the mutex, and relies on nothing about the queue.
abbrev pub producer_holds : Producer → ℕ
producer_holds produce_test = 1
producer_holds produce_full = 1
producer_holds produce_wait = 1
producer_holds produce_signal = 1
producer_holds produce_release = 1
producer_holds _ = 0

abbrev pub consumer_holds : Consumer → ℕ
consumer_holds consume_test = 1
consumer_holds consume_empty = 1
consumer_holds consume_wait = 1
consumer_holds (consume_print _) = 1
consumer_holds consume_signal = 1
consumer_holds consume_release = 1
consumer_holds _ = 0

abbrev pub main_holds : Main → ℕ
main_holds reduce_test = 1
main_holds reduce_wait = 1
main_holds reduce_release = 1
main_holds expand_body = 1
main_holds expand_release = 1
main_holds _ = 0

-- It has the mutex, and relies on room in the queue.
abbrev pub producer_puts : Producer → ℕ
producer_puts produce_put = 1
producer_puts _ = 0

abbrev pub main_reduces : Main → ℕ
main_reduces reduce_body = 1
main_reduces _ = 0

-- It has the mutex, and relies on a message in the queue.
abbrev pub consumer_gets : Consumer → ℕ
consumer_gets consume_get = 1
consumer_gets _ = 0

pub record Sums : Type 0 where
  pub holding : ℕ
  pub with_room : ℕ
  pub with_message : ℕ

abbrev pub sums : System → Sums
sums s = record {
  holding =
      total producer_holds max_threads s.producers
      + total consumer_holds max_threads s.consumers
      + main_holds s.main;
  with_room = total producer_puts max_threads s.producers + main_reduces s.main;
  with_message = total consumer_gets max_threads s.consumers;
}

pub record Account (m : Shared) (w : Sums) : Type 0 where
  pub mutex : m.queue_mutex + w.holding + w.with_room + w.with_message ≤ 1
  pub room : m.queue.len + w.with_room ≤ m.queue.max_len
  pub message : w.with_message ≤ m.queue.len

-- What the moving thread weighs before and after, and the sums before and after.
pub record Weighs (w w' : Sums) (h h' r r' g g' : ℕ) : Type 0 where
  pub holding : w'.holding + h ≤ w.holding + h'
  pub holds : h ≤ w.holding
  pub with_room : w'.with_room + r ≤ w.with_room + r'
  pub reserves : r ≤ w.with_room
  pub with_message : w'.with_message + g ≤ w.with_message + g'
  pub claims : g ≤ w.with_message

pub Produce-Account :
    {m m' : Shared} {c : Bool} {p p' : Producer} {w w' : Sums}
    → Produce m true c p m' p'
    → Weighs w w' (producer_holds p) (producer_holds p') (producer_puts p) (producer_puts p') 0 0
    → Account m w
    → Account m' w'
unfolding queue_is_full
Produce-Account {m} (produce_pushed msg e) f a =
    let (l, c) = result e (queue_push-Sizes msg m.queue (omega arith)) in
    record { mutex = omega arith; room = omega arith; message = omega arith }
Produce-Account (produce_ends e) f a = absurd (ground arith)
Produce-Account (produce_leaves e) f a = absurd (ground arith)
Produce-Account {m} (produce_room e) f a = record {
  mutex = omega arith;
  room = ground arith;
  message = omega arith;
}
Produce-Account (produce_locked h) f a = record {
  mutex = omega arith;
  room = omega arith;
  message = omega arith;
}
Produce-Account (produce_woken h) f a = record {
  mutex = omega arith;
  room = omega arith;
  message = omega arith;
}
Produce-Account _ f a = record { mutex = ground arith; room = ground arith; message = ground arith }

pub Consume-Account :
    {m m' : Shared} {c : Bool} {p p' : Consumer} {w w' : Sums}
    → Consume m true c p m' p'
    → Weighs w w' (consumer_holds p) (consumer_holds p') 0 0 (consumer_gets p) (consumer_gets p')
    → Account m w
    → Account m' w'
unfolding queue_is_empty
Consume-Account {m} (consume_popped e) f a =
    let (l, c) = result e (queue_pop-Sizes m.queue (omega arith)) in
    record { mutex = omega arith; room = omega arith; message = omega arith }
Consume-Account (consume_ends e) f a = absurd (ground arith)
Consume-Account (consume_leaves e) f a = absurd (ground arith)
Consume-Account {m} (consume_some e) f a = record {
  mutex = omega arith;
  room = omega arith;
  message = ground arith;
}
Consume-Account (consume_locked h) f a = record {
  mutex = omega arith;
  room = omega arith;
  message = omega arith;
}
Consume-Account (consume_woken h) f a = record {
  mutex = omega arith;
  room = omega arith;
  message = omega arith;
}
Consume-Account _ f a = record { mutex = ground arith; room = ground arith; message = ground arith }

pub Resize-Account :
    {count : ℕ} {m m' : Shared} {p p' : Main} {w w' : Sums}
    → Resize count m p m' p'
    → Weighs w w' (main_holds p) (main_holds p') (main_reduces p) (main_reduces p') 0 0
    → Account m w
    → Account m' w'
unfolding queue_is_full
Resize-Account {m} (reduce_done e) f a =
    let (l, c) = result e (queue_reduce-sizes m.queue (omega arith)) in
    record { mutex = omega arith; room = omega arith; message = omega arith }
Resize-Account {m} (expand_done garbage e) f a =
    let (l, c) = result e (queue_expand-Sizes garbage m.queue) in
    record { mutex = omega arith; room = omega arith; message = omega arith }
Resize-Account {m} (reduce_room e) f a = record {
  mutex = omega arith;
  room = ground arith;
  message = omega arith;
}
Resize-Account (reduce_locked h) f a = record {
  mutex = omega arith;
  room = omega arith;
  message = omega arith;
}
Resize-Account (reduce_woken h) f a = record {
  mutex = omega arith;
  room = omega arith;
  message = omega arith;
}
Resize-Account (expand_locked h) f a = record {
  mutex = omega arith;
  room = omega arith;
  message = omega arith;
}
Resize-Account _ f a = record { mutex = ground arith; room = ground arith; message = ground arith }

-- Sums that do not grow keep the account.
pub Account-le :
    {m : Shared} {w w' : Sums}
    → w'.holding ≤ w.holding
    → w'.with_room ≤ w.with_room
    → w'.with_message ≤ w.with_message
    → Account m w
    → Account m w'
Account-le h r g a = record { mutex = omega arith; room = omega arith; message = omega arith }
