-- ===== src/ThreadQueue/Message/Tests.antt =====
-- A message of lab5/5.1/src/queue.c from a counting `rand`, and a queue with one message.
use osisp.Prelude.{
  ℕ, ◌≡◌, ◌≤◌, refl, List, [], ◌∷◌, Option, some, none, length, take, drop, replicate,
}
use osisp.Prelude.Decimal.{decimal, digits}
use osisp.ThreadQueue.Queue.{MessageQueue, queue_free}
use osisp.ThreadQueue.Message.{
  message_size, Message, fill, queue_generate_message, cells, message_line, queue_print,
}
use osisp.ThreadQueue.Message.Laws.{
  AreCells, digit_line, AreShown, queue_generate_message-message_line, queue_print-queue_free,
}

abbrev counting : ℕ → ℕ
counting pos = pos

abbrev fresh : List ℕ
fresh = replicate message_size 77

queue_generate_message-message_line_example :
    (m : Message) × (queue_generate_message counting 1 fresh ≡ some m)
    × (1 ≤ m.size)
    × (m.size ≤ message_size)
    × (length m.content ≡ message_size)
    × AreCells (take m.size m.content)
    × (drop m.size m.content ≡ drop m.size fresh)
    × (message_line m ≡ some (digit_line (take m.size m.content)))
    × (length (digit_line (take m.size m.content)) ≡ m.size)
queue_generate_message-message_line_example =
    queue_generate_message-message_line counting 1 fresh refl

two_cells :
    queue_generate_message counting 1 (0 ∷ 0 ∷ 0 ∷ [])
    ≡ some (record { type = 1; hash = 0; size = 2; content = 3 ∷ 4 ∷ 0 ∷ [] })
unfolding queue_generate_message fill
two_cells = refl

abbrev message : Message
message = record { type = 1; hash = 0; size = 2; content = 3 ∷ 4 ∷ [] }

heap : ℕ → Option Message
heap a = some message

abbrev two_slots : MessageQueue
two_slots = record { head = 1; tail = 1; len = 1; max_len = 2; messages = none ∷ some 5 ∷ [] }

two_slots_shown : queue_print heap two_slots ≡ some ((51 ∷ 52 ∷ []) ∷ [])
unfolding queue_free
two_slots_shown =
    queue_print-queue_free heap (λ a. 51 ∷ 52 ∷ []) two_slots refl
      (unfold AreShown heap message_line cells decimal digits in ((message, refl, refl), tt))
