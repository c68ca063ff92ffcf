-- ===== src/MonitorQueue/Safety.antt =====
-- What a thread of lab5/5.2/src/main.c finds when it uses the queue, while no thread is closed.
use osisp.Prelude.{ℕ, ◌+◌, ◌<◌, ◌≡◌, ◌≢◌, refl, arith, ◌⊎◌, Option, none, some, false}
use osisp.Prelude.Family.{weight-le-total, two-le-total}
use osisp.ThreadQueue.Queue.{MessageQueue, queue_push, queue_pop}
use osisp.ThreadQueue.Queue.Sizes.{Sizes, result, faults_or, queue_push-Sizes, queue_pop-Sizes}
use osisp.MonitorQueue.{
  queue_reduce, Producer, Consumer, Main, System, started, Reach, max_threads, produce_put,
  consume_get, reduce_body,
}
use osisp.MonitorQueue.Account.{
  producer_holds, consumer_holds, main_holds, producer_puts, main_reduces, consumer_gets, sums,
  Account, queue_reduce-sizes,
}
use osisp.MonitorQueue.Inv.{Reach-Inv}

-- The thread is between taking and releasing the mutex.
abbrev pub producer_inside : Producer → ℕ
producer_inside p = producer_holds p + producer_puts p

abbrev pub consumer_inside : Consumer → ℕ
consumer_inside p = consumer_holds p + consumer_gets p

abbrev pub main_inside : Main → ℕ
main_inside p = main_holds p + main_reduces p

-- No producer `j`, no consumer `k` and not the main thread has the mutex.
abbrev pub Outside : System → ℕ → ℕ → Type 0
Outside s j k =
    (producer_inside (s.producers j) ≡ 0)
    × (consumer_inside (s.consumers k) ≡ 0)
    × (main_inside s.main ≡ 0)

module _ {s : System} (r : Reach false started s) where
  account : Account s.mem (sums s)
  account = (Reach-Inv r).account

  -- In every state that is reached from the start without the commands - and _: when producer `i` is
  -- about to push, no other producer `j`, no consumer `k` and not the main thread has the mutex, `len`
  -- is below `max_len`, and the push is an access outside the array or adds one to `len` and keeps
  -- `max_len`: it is never refused.
  pub push_in_monitor :
      (i j k msg : ℕ)
      → i < max_threads
      → j < max_threads
      → k < max_threads
      → i ≢ j
      → s.producers i ≡ produce_put
      → Outside s j k
        × (s.mem.queue.len < s.mem.queue.max_len)
        × ((queue_push msg s.mem.queue ≡ none)
            ⊎ ((q' : MessageQueue) × (queue_push msg s.mem.queue ≡ some q')
                × Sizes (s.mem.queue.len + 1) s.mem.queue.max_len q'))
  push_in_monitor i j k msg hi hj hk ne at_put =
      let puts = rw at_put at (two-le-total producer_puts max_threads s.producers i j hi hj ne) in
      let held = weight-le-total producer_holds max_threads s.producers j hj in
      let others = weight-le-total consumer_holds max_threads s.consumers k hk in
      let gets = weight-le-total consumer_gets max_threads s.consumers k hk in
      let room : s.mem.queue.len < s.mem.queue.max_len = omega (arith, account.room, puts) in
      (
        (
          omega (arith, account.mutex, puts, held),
          omega (arith, account.mutex, puts, others, gets),
          omega (arith, account.mutex, puts),
        ),
        room,
        faults_or (queue_push msg s.mem.queue) (queue_push-Sizes msg s.mem.queue room),
      )

  -- In every state that is reached from the start without the commands - and _: when consumer `i` is
  -- about to pop, no other consumer `k`, no producer `j` and not the main thread has the mutex, and
  -- the queue holds a message, so a pop that does not fault removes one message.
  pub pop_in_monitor :
      (i j k : ℕ) {popped : Option ℕ} {q' : MessageQueue}
      → i < max_threads
      → j < max_threads
      → k < max_threads
      → i ≢ k
      → s.consumers i ≡ consume_get
      → queue_pop s.mem.queue ≡ some (popped, q')
      → Outside s j k × (q'.len + 1 ≡ s.mem.queue.len) × (q'.max_len ≡ s.mem.queue.max_len)
  pop_in_monitor i j k hi hj hk ne at_get e =
      let gets = rw at_get at (two-le-total consumer_gets max_threads s.consumers i k hi hk ne) in
      let held = weight-le-total consumer_holds max_threads s.consumers k hk in
      let others = weight-le-total producer_holds max_threads s.producers j hj in
      let puts = weight-le-total producer_puts max_threads s.producers j hj in
      let some_message : 0 < s.mem.queue.len = omega (arith, account.message, gets) in
      let (l, c) = result e (queue_pop-Sizes s.mem.queue some_message) in
      (
        (
          omega (arith, account.mutex, gets, others, puts),
          omega (arith, account.mutex, gets, held),
          omega (arith, account.mutex, gets),
        ),
        omega (arith, l, some_message),
        c,
      )

  -- In every state that is reached from the start without the commands - and _: when the main thread
  -- is about to reduce the queue, no producer `j` and no consumer `k` has the mutex, and a
  -- `queue_reduce` that does not fault takes one slot away and keeps the number of messages.
  pub reduce_in_monitor :
      (j k : ℕ) {q' : MessageQueue}
      → j < max_threads
      → k < max_threads
      → s.main ≡ reduce_body
      → queue_reduce s.mem.queue ≡ some q'
      → (producer_inside (s.producers j) ≡ 0)
        × (consumer_inside (s.consumers k) ≡ 0)
        × (q'.len ≡ s.mem.queue.len)
        × (q'.max_len + 1 ≡ s.mem.queue.max_len)
  reduce_in_monitor j k hj hk at_reduce e =
      let reduces : main_reduces s.main ≡ 1 = rw at_reduce refl in
      let puts = weight-le-total producer_puts max_threads s.producers j hj in
      let held = weight-le-total producer_holds max_threads s.producers j hj in
      let others = weight-le-total consumer_holds max_threads s.consumers k hk in
      let gets = weight-le-total consumer_gets max_threads s.consumers k hk in
      let room : s.mem.queue.len < s.mem.queue.max_len = omega (arith, account.room, reduces) in
      let (l, c) = result e (queue_reduce-sizes s.mem.queue room) in
      (
        omega (arith, account.mutex, reduces, puts, held),
        omega (arith, account.mutex, reduces, others, gets),
        l,
        omega (arith, c),
      )
