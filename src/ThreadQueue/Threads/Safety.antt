-- ===== src/ThreadQueue/Threads/Safety.antt =====
-- What a thread of lab5/5.1/src/main.c finds when it is about to use the queue.
use osisp.Prelude.{ℕ, ◌+◌, ◌-◌, ◌<◌, ◌≡◌, ◌≢◌, arith, ◌⊎◌, Option, none, some}
use osisp.Prelude.Family.{weight-le-total, two-le-total}
use osisp.ThreadQueue.Queue.{MessageQueue, queue_push, queue_pop}
use osisp.ThreadQueue.Pool.{max_threads}
use osisp.ThreadQueue.Threads.{System, produce_put, consume_get, Reach, started}
use osisp.ThreadQueue.Queue.Sizes.{Sizes, faults_or, queue_push-Sizes, queue_pop-Sizes}
use osisp.ThreadQueue.Threads.Inv.{Reach-Account}
use osisp.ThreadQueue.Threads.Account.{
  producer_in_section, consumer_in_section, main_in_section, producer_frees, consumer_items, sums,
  Account,
}

module _ {s : System} (r : Reach started s) (i : ℕ) (hi : i < max_threads) where
  account : Account s.mem (sums s)
  account = Reach-Account r

  -- In every state that is reached from the start, in every order of the threads' steps and the
  -- commands: when producer `i` is about to push, no other producer `j`, no consumer `k` and not the
  -- main thread has the mutex, `len` is below `max_len`, and the push is an access outside the array or
  -- adds one to `len` and keeps `max_len`: it is never refused.
  pub producer_alone_with_room :
      (j k msg : ℕ)
      → j < max_threads
      → k < max_threads
      → i ≢ j
      → s.producers i ≡ produce_put
      → (producer_in_section (s.producers j) ≡ 0)
        × (consumer_in_section (s.consumers k) ≡ 0)
        × (main_in_section s.main ≡ 0)
        × (s.mem.queue.len < s.mem.queue.max_len)
        × ((queue_push msg s.mem.queue ≡ none)
            ⊎ ((q' : MessageQueue) × (queue_push msg s.mem.queue ≡ some q')
                × Sizes (s.mem.queue.len + 1) s.mem.queue.max_len q'))
  producer_alone_with_room j k msg hj hk ne at_put =
      let both =
        rw at_put at (two-le-total producer_in_section max_threads s.producers i j hi hj ne) in
      let other = weight-le-total consumer_in_section max_threads s.consumers k hk in
      let taken = rw at_put at (weight-le-total producer_frees max_threads s.producers i hi) in
      let room : s.mem.queue.len < s.mem.queue.max_len = omega (arith, account.free, taken) in
      (
        omega (arith, account.mutex, both),
        omega (arith, account.mutex, both, other),
        omega (arith, account.mutex, both),
        room,
        faults_or (queue_push msg s.mem.queue) (queue_push-Sizes msg s.mem.queue room),
      )

  -- In every state that is reached from the start, in every order of the threads' steps and the
  -- commands: when consumer `i` is about to pop, no other consumer `j`, no producer `k` and not the
  -- main thread has the mutex, `len` is above 0, and the pop is an access outside the array or takes
  -- one from `len` and keeps `max_len`. The slot that it reads may still be NULL.
  pub consumer_alone_with_message :
      (j k : ℕ)
      → j < max_threads
      → k < max_threads
      → i ≢ j
      → s.consumers i ≡ consume_get
      → (consumer_in_section (s.consumers j) ≡ 0)
        × (producer_in_section (s.producers k) ≡ 0)
        × (main_in_section s.main ≡ 0)
        × (0 < s.mem.queue.len)
        × ((queue_pop s.mem.queue ≡ none)
            ⊎ ((popped : Option ℕ × MessageQueue) × (queue_pop s.mem.queue ≡ some popped)
                × Sizes (s.mem.queue.len - 1) s.mem.queue.max_len popped.1))
  consumer_alone_with_message j k hj hk ne at_get =
      let both =
        rw at_get at (two-le-total consumer_in_section max_threads s.consumers i j hi hj ne) in
      let other = weight-le-total producer_in_section max_threads s.producers k hk in
      let taken = rw at_get at (weight-le-total consumer_items max_threads s.consumers i hi) in
      let held : 0 < s.mem.queue.len = omega (arith, account.items, taken) in
      (
        omega (arith, account.mutex, both),
        omega (arith, account.mutex, both, other),
        omega (arith, account.mutex, both),
        held,
        faults_or (queue_pop s.mem.queue) (queue_pop-Sizes s.mem.queue held),
      )
