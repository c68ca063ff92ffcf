-- ===== src/ThreadQueue/Message.antt =====
-- The messages of lab5/5.1/src/headers/queue.h: `queue_generate_message` and `queue_print` of queue.c.
-- `rand` is the C library's, a stream of values read from a position. An access outside `data`, or of a
-- message that is not allocated, makes the operation fault (`none`).
pub mod Laws
mod Tests
use osisp.Prelude.{
  ℕ, zero, suc, ◌+◌, ◌%◌, List, [], ◌∷◌, ◌++◌, Option, none, some, read_at, write_at,
}
use osisp.Prelude.OptionMonad.{◌>>=◌}
use osisp.Prelude.Bytes.{Bytes}
use osisp.Prelude.Decimal.{decimal}
use osisp.ThreadQueue.Queue.{MessageQueue}

abbrev pub message_size : ℕ
message_size = 20

-- `content` is the array `data`.
pub record Message : Type 0 where
  pub type : ℕ
  pub hash : ℕ
  pub size : ℕ
  pub content : List ℕ

-- The loop of `queue_generate_message`, with `n` rounds left.
unfoldable pub fill : (ℕ → ℕ) → ℕ → ℕ → ℕ → List ℕ → Option (List ℕ)
fill rand zero i pos content = some content
fill rand (suc n) i pos content = do
  content' ← write_at content i (rand pos % 9 + 1)
  fill rand n (i + 1) (pos + 1) content'

-- `content` is what `malloc` leaves in the array.
unfoldable pub queue_generate_message : (ℕ → ℕ) → ℕ → List ℕ → Option Message
unfolding fill
queue_generate_message rand pos content = do
  filled ← fill rand (rand pos % 20 + 1) 0 (pos + 1) content
  some (record { type = 1; hash = 0; size = rand pos % 20 + 1; content = filled })

-- The inner loop of `queue_print`: the numbers without anything between them.
unfoldable pub cells : ℕ → ℕ → List ℕ → Option Bytes
unfolding decimal
cells zero j content = some []
cells (suc n) j content = do
  cell ← read_at content j
  rest ← cells n (j + 1) content
  some (decimal cell ++ rest)

unfoldable pub message_line : Message → Option Bytes
unfolding cells
message_line m = cells m.size 0 m.content

-- The outer loop, with `n` slots left: the lines of the messages. `heap` has the allocated messages.
abbrev pub slot_lines : (ℕ → Option Message) → Option ℕ → Option (List Bytes) → Option (List Bytes)
slot_lines heap none rest = rest
slot_lines heap (some address) rest = do
  m ← heap address
  line ← message_line m
  lines ← rest
  some (line ∷ lines)

unfoldable pub print_slots : (ℕ → Option Message) → ℕ → ℕ → List (Option ℕ) → Option (List Bytes)
unfolding message_line
print_slots heap zero i messages = some []
print_slots heap (suc n) i messages = do
  slot ← read_at messages i
  slot_lines heap slot (print_slots heap n (i + 1) messages)

-- The lines of `queue_print` behind its first two.
unfoldable pub queue_print : (ℕ → Option Message) → MessageQueue → Option (List Bytes)
unfolding print_slots
queue_print heap q = print_slots heap q.max_len 0 q.messages
