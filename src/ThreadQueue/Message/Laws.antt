-- ===== src/ThreadQueue/Message/Laws.antt =====
-- What the messages of lab5/5.1/src/queue.c hold and what `queue_print` shows of them.
use osisp.Prelude.{
  ℕ, zero, suc, ◌+◌, ◌%◌, ◌≤◌, ◌≡◌, refl, ap, sym, ◌∙◌, arith, List, [], ◌∷◌, ◌++◌, append_assoc,
  Option, some, length, length-append, length-take, length-drop, take, drop, take-append-drop,
  take-append, drop-append, true, none, ltb, read_at, write_at, set, write_at-set, map,
}
use osisp.Prelude.Bytes.{Bytes}
use osisp.Prelude.Decimal.{decimal, digits}
use osisp.ThreadQueue.Queue.{MessageQueue, queue_free}
use osisp.ThreadQueue.Message.{
  message_size, Message, fill, queue_generate_message, cells, message_line, slot_lines, print_slots,
  queue_print,
}

set-append :
    (pre : List ℕ) (old new : ℕ) (post : List ℕ)
    → set (pre ++ old ∷ post) (length pre) new ≡ pre ++ new ∷ post
set-append [] old new post = refl
set-append (x ∷ pre) old new post = ap (λ xs. x ∷ xs) (set-append pre old new post)

write_at-append :
    (pre : List ℕ) (old new : ℕ) (post : List ℕ)
    → write_at (pre ++ old ∷ post) (length pre) new ≡ some (pre ++ new ∷ post)
write_at-append pre old new post =
    write_at-set (pre ++ old ∷ post) (length pre) new
      (omega (arith, length-append pre (old ∷ post)))
    ∙ ap (λ xs. some xs) (set-append pre old new post)

read_at-append :
    {A : Type 0} (pre : List A) (x : A) (post : List A)
    → read_at (pre ++ x ∷ post) (length pre) ≡ some x
read_at-append [] x post = refl
read_at-append (y ∷ pre) x post = read_at-append pre x post

-- The values that the loop draws.
unfoldable pub drawn : (ℕ → ℕ) → ℕ → ℕ → List ℕ
drawn rand zero pos = []
drawn rand (suc n) pos = (rand pos % 9 + 1) ∷ drawn rand n (pos + 1)

fill-drawn :
    (rand : ℕ → ℕ) (pos : ℕ) (pre mid post : List ℕ)
    → fill rand (length mid) (length pre) pos (pre ++ (mid ++ post))
      ≡ some (pre ++ (drawn rand (length mid) pos ++ post))
unfolding fill drawn
fill-drawn rand pos pre [] post = refl
fill-drawn rand pos pre (x ∷ mid) post =
    let v : ℕ = rand pos % 9 + 1 in
    let grown : length (pre ++ v ∷ []) ≡ length pre + 1 = length-append pre (v ∷ []) in
    let moved : pre ++ v ∷ (mid ++ post) ≡ (pre ++ v ∷ []) ++ (mid ++ post) =
      sym (append_assoc pre (v ∷ []) (mid ++ post)) in
    let joined : (pre ++ v ∷ []) ++ (drawn rand (length mid) (pos + 1) ++ post)
        ≡ pre ++ v ∷ (drawn rand (length mid) (pos + 1) ++ post) =
      append_assoc pre (v ∷ []) (drawn rand (length mid) (pos + 1) ++ post) in
    rw
      (
        write_at-append pre x v (mid ++ post),
        moved,
        ← grown,
        fill-drawn rand (pos + 1) (pre ++ v ∷ []) mid post,
        joined,
      )
      refl

-- The digits of numbers below 10.
unfoldable pub digit_line : List ℕ → Bytes
digit_line [] = []
digit_line (x ∷ xs) = (48 + x) ∷ digit_line xs

unfoldable pub AreCells : List ℕ → Type 0
AreCells [] = Unit
AreCells (x ∷ xs) = (1 ≤ x) × (x ≤ 9) × AreCells xs

drawn-AreCells : (rand : ℕ → ℕ) (n pos : ℕ) → AreCells (drawn rand n pos)
unfolding drawn AreCells
drawn-AreCells rand zero pos = tt
drawn-AreCells rand (suc n) pos = (omega arith, omega arith, drawn-AreCells rand n (pos + 1))

length-drawn : (rand : ℕ → ℕ) (n pos : ℕ) → length (drawn rand n pos) ≡ n
unfolding drawn
length-drawn rand zero pos = refl
length-drawn rand (suc n) pos = ap suc (length-drawn rand n (pos + 1))

length-digit_line : (xs : List ℕ) → length (digit_line xs) ≡ length xs
unfolding digit_line
length-digit_line [] = refl
length-digit_line (x ∷ xs) = ap suc (length-digit_line xs)

decimal-digit : (x : ℕ) → x ≤ 9 → decimal x ≡ (48 + x) ∷ []
unfolding decimal digits
decimal-digit x h = let small : ltb x 10 ≡ true = ground arith in rw small refl

cells-digit_line :
    (pre xs post : List ℕ)
    → AreCells xs
    → cells (length xs) (length pre) (pre ++ (xs ++ post)) ≡ some (digit_line xs)
unfolding cells digit_line AreCells
cells-digit_line pre [] post h = refl
cells-digit_line pre (x ∷ xs) post h =
    let grown : length (pre ++ x ∷ []) ≡ length pre + 1 = length-append pre (x ∷ []) in
    let moved : pre ++ x ∷ (xs ++ post) ≡ (pre ++ x ∷ []) ++ (xs ++ post) =
      sym (append_assoc pre (x ∷ []) (xs ++ post)) in
    rw
      (
        read_at-append pre x (xs ++ post),
        decimal-digit x h.1,
        moved,
        ← grown,
        cells-digit_line (pre ++ x ∷ []) xs post h.2,
      )
      refl

-- For any values of `rand` and any content of the new memory: queue_generate_message stays inside its
-- array and draws between 1 and 20 cells from 1 to 9, and leaves the rest of the array; and queue_print
-- shows the message by one digit for each cell.
pub queue_generate_message-message_line :
    (rand : ℕ → ℕ) (pos : ℕ) (content : List ℕ)
    → length content ≡ message_size
    → (m : Message) × (queue_generate_message rand pos content ≡ some m)
      × (1 ≤ m.size)
      × (m.size ≤ message_size)
      × (length m.content ≡ message_size)
      × AreCells (take m.size m.content)
      × (drop m.size m.content ≡ drop m.size content)
      × (message_line m ≡ some (digit_line (take m.size m.content)))
      × (length (digit_line (take m.size m.content)) ≡ m.size)
unfolding queue_generate_message message_line
queue_generate_message-message_line rand pos content h =
    let n : ℕ = rand pos % 20 + 1 in
    let old : List ℕ = take n content in
    let post : List ℕ = drop n content in
    let count : length old ≡ n = omega (arith, length-take n content) in
    let new : List ℕ = drawn rand n (pos + 1) in
    let new_count : length new ≡ n = length-drawn rand n (pos + 1) in
    let generated : fill rand n 0 (pos + 1) content ≡ some (new ++ post) =
      rw (count, take-append-drop n content) at (fill-drawn rand (pos + 1) [] old post) in
    let kept : take n (new ++ post) ≡ new = take-append n new post new_count in
    let shown : cells n 0 (new ++ post) ≡ some (digit_line new) =
      rw new_count at (cells-digit_line [] new post (drawn-AreCells rand n (pos + 1))) in
    (
      record { type = 1; hash = 0; size = n; content = new ++ post },
      rw generated refl,
      omega arith,
      omega arith,
      omega (arith, length-append new post, length-drop n content),
      rw kept (drawn-AreCells rand n (pos + 1)),
      drop-append n new post new_count,
      rw (kept, shown) refl,
      rw kept (length-digit_line new ∙ new_count),
    )

-- Every message in the slots is allocated, and `line` is what it is shown by.
unfoldable pub AreShown : (ℕ → Option Message) → (ℕ → Bytes) → List (Option ℕ) → Type 0
AreShown heap line [] = Unit
AreShown heap line (none ∷ slots) = AreShown heap line slots
AreShown heap line (some a ∷ slots) =
    ((m : Message) × (heap a ≡ some m) × (message_line m ≡ some (line a)))
    × AreShown heap line slots

print_slots-map :
    (heap : ℕ → Option Message) (line : ℕ → Bytes) (pre slots : List (Option ℕ))
    → AreShown heap line slots
    → print_slots heap (length slots) (length pre) (pre ++ slots)
      ≡ some (map (λ a. line a) (queue_free slots))
unfolding print_slots AreShown queue_free
print_slots-map heap line pre [] h = refl
print_slots-map heap line pre (slot ∷ slots) h =
    let grown : length (pre ++ slot ∷ []) ≡ length pre + 1 = length-append pre (slot ∷ []) in
    let moved : pre ++ slot ∷ slots ≡ (pre ++ slot ∷ []) ++ slots =
      sym (append_assoc pre (slot ∷ []) slots) in
    let tail_shown : AreShown heap line slots
        → print_slots heap (length slots) (length pre + 1) (pre ++ slot ∷ slots)
          ≡ some (map (λ a. line a) (queue_free slots)) =
      λ h'. rw (moved, ← grown) (print_slots-map heap line (pre ++ slot ∷ []) slots h') in
    rw (read_at-append pre slot slots) (at_slot slot h tail_shown)
  where
    at_slot :
        (s : Option ℕ)
        → AreShown heap line (s ∷ slots)
        → (AreShown heap line slots
            → print_slots heap (length slots) (length pre + 1) (pre ++ slot ∷ slots)
              ≡ some (map (λ a. line a) (queue_free slots)))
        → slot_lines heap s (print_slots heap (length slots) (length pre + 1) (pre ++ slot ∷ slots))
          ≡ some (map (λ a. line a) (queue_free (s ∷ slots)))
    at_slot none h' rest = rest h'
    at_slot (some a) ((m, allocated, shown), more) rest = rw (allocated, shown, rest more) refl

-- On a queue whose array has its length, with every message in it allocated: queue_print shows each
-- message that queue_free would free, in that order, and nothing else.
pub queue_print-queue_free :
    (heap : ℕ → Option Message) (line : ℕ → Bytes) (q : MessageQueue)
    → length q.messages ≡ q.max_len
    → AreShown heap line q.messages
    → queue_print heap q ≡ some (map (λ a. line a) (queue_free q.messages))
unfolding queue_print
queue_print-queue_free heap line q whole h =
    rw (sym whole) (print_slots-map heap line [] q.messages h)
