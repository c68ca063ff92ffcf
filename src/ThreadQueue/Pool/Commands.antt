-- ===== src/ThreadQueue/Pool/Commands.antt =====
-- The commands `e` and `r` of lab5/5.1/src/main.c: they resize the queue and keep `free_space_sem`, on
-- which the producers wait, in step with it.
use osisp.Prelude.{
  ℕ, ◌+◌, ◌-◌, ◌<◌, ◌≡◌, refl, ap, arith, Option, some, ◌==◌, if◌then◌else◌, ◌⊎◌, false, length,
  length-tabulate,
}
use osisp.Prelude.OptionMonad.{◌>>=◌}
use osisp.ThreadQueue.Queue.{MessageQueue, queue_expand, queue_reduce}
use osisp.ThreadQueue.Queue.Valid.{IsBusy, slot, contents}
use osisp.ThreadQueue.Queue.Expand.{queue_expand-contents}
use osisp.ThreadQueue.Queue.Reduce.{queue_reduce-contents}

-- `message_queue` and `free_space_sem`.
pub record Buffer : Type 0 where
  pub queue : MessageQueue
  pub free_space : ℕ

-- The result of a command: it waits for ever at the semaphore, or it is done.
pub data Command : Type 0 where
  blocked : Command
  done : Buffer → Command

-- `e`
unfoldable pub expand_command : Option ℕ → Buffer → Option Command
expand_command garbage b = do
  queue ← queue_expand garbage b.queue
  some (done (record { queue = queue; free_space = b.free_space + 1 }))

-- `r`: nothing without consumers; else one free slot is taken from the semaphore first.
unfoldable pub reduce_command : ℕ → Buffer → Option Command
reduce_command consumers_count b =
    if consumers_count == 0 then some (done b) else if b.free_space == 0 then some blocked else do
      queue ← queue_reduce b.queue
      some (done (record { queue = queue; free_space = b.free_space - 1 }))

-- Between the threads' operations the semaphore counts the free slots.
abbrev pub IsBalanced : Buffer → Type 0
IsBalanced b = b.free_space + b.queue.len ≡ b.queue.max_len

len_of_contents : (q q' : MessageQueue) → contents q ≡ contents q' → q.len ≡ q'.len
len_of_contents q q' e =
    omega (arith, ap length e, length-tabulate (slot q) 0 q.len, length-tabulate (slot q') 0 q'.len)

-- On a balanced buffer that holds a message, `e` never faults, adds one free slot to the array and to
-- the semaphore, and keeps the messages.
pub expand_command-IsBalanced :
    (garbage : Option ℕ) (b : Buffer)
    → IsBusy b.queue
    → IsBalanced b
    → (b' : Buffer) × (expand_command garbage b ≡ some (done b'))
      × IsBusy b'.queue
      × IsBalanced b'
      × (contents b'.queue ≡ contents b.queue)
      × (b'.free_space ≡ b.free_space + 1)
unfolding expand_command
expand_command-IsBalanced garbage b v balanced =
    let (q', e, v', c, m) = queue_expand-contents garbage b.queue v in
    (
      record { queue = q'; free_space = b.free_space + 1 },
      rw (e, ◌>>=◌),
      v',
      omega (arith, balanced, m, len_of_contents q' b.queue c),
      c,
      refl,
    )

-- On a balanced buffer that holds a message and has a free slot, with a consumer, and whose last
-- message is not in the last slot of an unwrapped ring, `r` neither faults nor waits: it takes one
-- free slot from the array and from the semaphore, and keeps the messages.
pub reduce_command-IsBalanced :
    (consumers_count : ℕ) (b : Buffer)
    → 0 < consumers_count
    → IsBusy b.queue
    → IsBalanced b
    → b.queue.len < b.queue.max_len
    → (b.queue.tail < b.queue.head) ⊎ (b.queue.tail + 1 < b.queue.max_len)
    → (b' : Buffer) × (reduce_command consumers_count b ≡ some (done b'))
      × IsBusy b'.queue
      × IsBalanced b'
      × (contents b'.queue ≡ contents b.queue)
      × (b'.free_space + 1 ≡ b.free_space)
unfolding reduce_command
reduce_command-IsBalanced consumers_count b some_consumer v balanced room place =
    let (q', e, v', c, m) = queue_reduce-contents b.queue v room place in
    let some_free : (b.free_space == 0) ≡ false = ground (arith, balanced) in
    let consumed : (consumers_count == 0) ≡ false = ground arith in
    (
      record { queue = q'; free_space = b.free_space - 1 },
      rw (consumed, some_free, e, ◌>>=◌),
      v',
      omega (arith, balanced, m, len_of_contents q' b.queue c),
      c,
      omega (arith, balanced),
    )

-- On an empty queue of one slot, with a consumer, `r` takes the last free slot from the semaphore
-- while `queue_reduce` refuses to shrink: the queue is unchanged, its one slot is free, and the
-- semaphore is 0, so every producer waits for ever.
pub reduce_command_starves :
    (consumers_count : ℕ) (b : Buffer)
    → 0 < consumers_count
    → b.queue.max_len ≡ 1
    → b.queue.len ≡ 0
    → IsBalanced b
    → reduce_command consumers_count b ≡ some (done (record b { free_space = 0 }))
unfolding reduce_command queue_reduce
reduce_command_starves consumers_count b some_consumer one empty balanced = ground arith
