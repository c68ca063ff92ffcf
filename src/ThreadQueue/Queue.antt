-- ===== src/ThreadQueue/Queue.antt =====
-- The queue of lab5/5.1/src/queue.c. A message is its address, and `none` in a slot is NULL.
-- An access outside `messages` is undefined in C: here it makes the operation fault (`none`).
-- malloc and realloc succeed, as the code takes for granted.
pub mod Valid
pub mod Runs
pub mod Slots
pub mod Expand
pub mod Reduce
pub mod Sizes
use osisp.Prelude.{
  ℕ, zero, suc, ◌+◌, ◌-◌, ◌%◌, List, [], ◌∷◌, ◌++◌, Option, none, some, ◌==◌, ltb, leb,
  if◌then◌else◌, length, take, replicate, read_at, write_at,
}
use osisp.Prelude.OptionMonad.{◌>>=◌}

abbrev pub queue_base_size : ℕ
queue_base_size = 10

pub record MessageQueue : Type 0 where
  pub head : ℕ
  pub tail : ℕ
  pub len : ℕ
  pub max_len : ℕ
  pub messages : List (Option ℕ)

unfoldable pub queue_init : MessageQueue
queue_init = record {
  head = 0;
  tail = 0;
  len = 0;
  max_len = queue_base_size;
  messages = replicate queue_base_size none;
}

-- The slot that `queue_push` writes.
abbrev pub push_slot : MessageQueue → ℕ
push_slot q = if q.len == 0 then q.tail else (q.tail + 1) % q.max_len

-- `queue_push` of a message that is not NULL.
unfoldable pub queue_push : ℕ → MessageQueue → Option MessageQueue
queue_push new_message q = if leb q.max_len q.len then some q else do
  messages ← write_at q.messages (push_slot q) (some new_message)
  some (record q { tail = push_slot q; len = q.len + 1; messages = messages })

-- The result is the slot's pointer, or NULL on an empty queue.
unfoldable pub queue_pop : MessageQueue → Option (Option ℕ × MessageQueue)
queue_pop q = if q.len == 0 then some (none, q) else do
  popped ← read_at q.messages q.head
  messages ← write_at q.messages q.head none
  some (popped, record q { head = (q.head + 1) % q.max_len; len = q.len - 1; messages = messages })

-- The loop of `queue_expand`, from `i` down to `head + 1`, with `n` rounds left.
unfoldable pub shift_up : ℕ → ℕ → List (Option ℕ) → Option (List (Option ℕ))
shift_up zero i messages = some messages
shift_up (suc n) i messages = do
  moved ← read_at messages (i - 1)
  messages' ← write_at messages i moved
  shift_up n (i - 1) messages'

-- `realloc` to one slot more leaves some pointer, `garbage`, in the new slot.
unfoldable pub queue_expand : Option ℕ → MessageQueue → Option MessageQueue
unfolding shift_up
queue_expand garbage q =
    let grown = q.messages ++ garbage ∷ [] in
    let max_len = q.max_len + 1 in
    if ltb q.tail q.head
    then (do
      shifted ← shift_up (max_len - 1 - q.head) (max_len - 1) grown
      messages ← write_at shifted q.head none
      some (record q { head = q.head + 1; max_len = max_len; messages = messages }))
    else do
      messages ← write_at grown (max_len - 1) none
      some (record q { max_len = max_len; messages = messages })

-- The loop of `queue_reduce`, from `i` up, with `n` rounds left.
unfoldable pub shift_down : ℕ → ℕ → List (Option ℕ) → Option (List (Option ℕ))
shift_down zero i messages = some messages
shift_down (suc n) i messages = do
  moved ← read_at messages i
  messages' ← write_at messages (i - 1) moved
  shift_down n (i + 1) messages'

unfoldable pub queue_reduce : MessageQueue → Option MessageQueue
unfolding shift_down
queue_reduce q =
    if q.len == q.max_len
    then some q
    else if q.max_len == 1
    then some q
    else if ltb q.tail q.head
    then (do
      shifted ← shift_down (q.max_len - q.head) q.head q.messages
      messages ← write_at shifted (q.max_len - 1) none
      some (record q {
        head = q.head - 1;
        max_len = q.max_len - 1;
        messages = take (q.max_len - 1) messages;
      }))
    else some (record q { max_len = q.max_len - 1; messages = take (q.max_len - 1) q.messages })

-- `queue_free`: the messages that it frees, in the order of the slots.
unfoldable pub queue_free : List (Option ℕ) → List ℕ
queue_free [] = []
queue_free (none ∷ messages) = queue_free messages
queue_free (some message ∷ messages) = message ∷ queue_free messages
