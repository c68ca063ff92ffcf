-- ===== src/ThreadQueue/Queue/Reduce.antt =====
-- `queue_reduce` on a queue that holds a message and has a free slot.
use osisp.Prelude.{
  ℕ, ◌+◌, ◌-◌, ◌%◌, ◌<◌, ◌≤◌, ◌≡◌, refl, ap, sym, ◌∙◌, arith, List, Option, none, some, false, ltb,
  lt→ltb, leb, ◌==◌, ◌&&◌, if◌then◌else◌, get_or, set, take, length, length-set, length-take,
  write_at-set, get_or-set_ne, get_or-take, tabulate-cong, dec_lt, ◌⊎◌,
}
use osisp.Prelude.OptionMonad.{◌>>=◌}
use osisp.ThreadQueue.Queue.{MessageQueue, shift_down, queue_reduce}
use osisp.ThreadQueue.Queue.Valid.{IsBusy, slot, contents}
use osisp.ThreadQueue.Queue.Slots.{shift_down-get, wrap, mod-wrap, slot-wrap, tail-wrap}

-- The queue that `queue_reduce` makes of its slots.
abbrev reduced : ℕ → List (Option ℕ) → MessageQueue → MessageQueue
reduced head messages q = record q {
  head = head;
  max_len = q.max_len - 1;
  messages = take (q.max_len - 1) messages;
}

module _ (q : MessageQueue) (v : IsBusy q) (room : q.len < q.max_len) (messages : List (Option ℕ))
    (full : length messages ≡ q.max_len) where
  reduced-contents :
      (head : ℕ)
      → head < q.max_len - 1
      → ((j : ℕ)
          → j < q.len
          → get_or messages (wrap (head + j) (q.max_len - 1)) none
            ≡ get_or q.messages (wrap (q.head + j) q.max_len) none)
      → contents (reduced head messages q) ≡ contents q
  reduced-contents head h same =
      tabulate-cong (slot (reduced head messages q)) (slot q) 0 0 q.len λ j lt.
        slot-wrap (reduced head messages q) (0 + j) h (omega arith)
        ∙ get_or-take (q.max_len - 1) messages (wrap (head + (0 + j)) (q.max_len - 1)) none
            (ground arith)
        ∙ same (0 + j) (omega arith)
        ∙ sym (slot-wrap q (0 + j) v.head_in (omega arith))

  reduced-IsBusy :
      (head : ℕ)
      → head < q.max_len - 1
      → q.tail ≡ wrap (head + (q.len - 1)) (q.max_len - 1)
      → IsBusy (reduced head messages q)
  reduced-IsBusy head h t = record {
    slots = omega (arith, length-take (q.max_len - 1) messages, full);
    head_in = h;
    held = v.held;
    fits = omega arith;
    tail_last = t ∙ sym (mod-wrap (head + (q.len - 1)) (q.max_len - 1) (omega arith));
  }

module _ (q : MessageQueue) (v : IsBusy q) (room : q.len < q.max_len) (wrapped : q.tail < q.head)
    (moved : List (Option ℕ)) (length-moved : length moved ≡ q.max_len)
    (place : (p : ℕ)
      → get_or moved p none ≡ (
          if leb q.head (p + 1) && ltb (p + 1) q.max_len
          then get_or q.messages (p + 1) none
          else get_or q.messages p none)) where
  -- After the loop and the write of NULL in the last slot, each message is where the new positions
  -- say.
  reduce_place :
      (j : ℕ)
      → j < q.len
      → get_or (set moved (q.max_len - 1) none) (wrap (q.head - 1 + j) (q.max_len - 1)) none
        ≡ get_or q.messages (wrap (q.head + j) q.max_len) none
  reduce_place j lt = elim (dec_lt (q.head + j) q.max_len) [
    | yes below ↦ ground (
      arith,
      get_or-set_ne moved (q.max_len - 1) (q.head - 1 + j) none none,
      place (q.head - 1 + j),
    )
    | no above ↦ ground (
      arith,
      get_or-set_ne moved (q.max_len - 1) (q.head + j - q.max_len) none none,
      place (q.head + j - q.max_len),
      tail-wrap q v,
    )
  ]

  reduce_tail : q.tail ≡ wrap (q.head - 1 + (q.len - 1)) (q.max_len - 1)
  reduce_tail = ground (arith, tail-wrap q v, v.held)

  reduce_wrapped_from :
      shift_down (q.max_len - q.head) q.head q.messages ≡ some moved
      → (q' : MessageQueue) × (queue_reduce q ≡ some q')
        × IsBusy q'
        × (contents q' ≡ contents q)
        × (q'.max_len + 1 ≡ q.max_len)
  unfolding queue_reduce
  reduce_wrapped_from e =
      let out : List (Option ℕ) = set moved (q.max_len - 1) none in
      let long : length out ≡ q.max_len = length-set moved (q.max_len - 1) none ∙ length-moved in
      let h : q.head - 1 < q.max_len - 1 = omega (arith, v.head_in) in
      let not_full : (q.len == q.max_len) ≡ false = ground arith in
      let not_one : (q.max_len == 1) ≡ false = ground (arith, v.held) in
      (
        reduced (q.head - 1) out q,
        rw
            (
              not_full,
              not_one,
              lt→ltb q.tail q.head wrapped,
              e,
              ◌>>=◌,
              write_at-set moved (q.max_len - 1) none (omega (arith, length-moved)),
              ◌>>=◌,
            )
            refl,
        reduced-IsBusy q v room out long (q.head - 1) h reduce_tail,
        reduced-contents q v room out long (q.head - 1) h reduce_place,
        omega arith,
      )

reduce_wrapped :
    (q : MessageQueue)
    → IsBusy q
    → q.len < q.max_len
    → q.tail < q.head
    → (q' : MessageQueue) × (queue_reduce q ≡ some q')
      × IsBusy q'
      × (contents q' ≡ contents q)
      × (q'.max_len + 1 ≡ q.max_len)
reduce_wrapped q v room wrapped =
    let top : q.head + (q.max_len - q.head) ≡ q.max_len = omega (arith, v.head_in) in
    let (moved, e, l, place) =
      shift_down-get (q.max_len - q.head) q.head q.max_len q.messages (omega arith) top
        (omega (arith, v.slots)) in
    reduce_wrapped_from q v room wrapped moved (l ∙ v.slots) place e

reduce_straight :
    (q : MessageQueue)
    → IsBusy q
    → q.len < q.max_len
    → q.head ≤ q.tail
    → q.tail + 1 < q.max_len
    → (q' : MessageQueue) × (queue_reduce q ≡ some q')
      × IsBusy q'
      × (contents q' ≡ contents q)
      × (q'.max_len + 1 ≡ q.max_len)
unfolding queue_reduce
reduce_straight q v room straight short = (
  reduced q.head q.messages q,
  ground (arith, v.held),
  reduced-IsBusy q v room q.messages v.slots q.head (omega arith)
      (ground (arith, tail-wrap q v, v.held)),
  reduced-contents q v room q.messages v.slots q.head (omega arith)
      (λ j lt. ground (arith, tail-wrap q v)),
  omega arith,
)

-- On a queue whose array has `max_len` slots, with `head` inside it and 1 to `max_len` messages, the last
-- of them at `tail`, with a free slot, and whose last message is not in the last slot of an unwrapped
-- ring: `queue_reduce` removes one slot, accesses the array inside only, keeps the messages and their
-- order, and leaves such a queue.
pub queue_reduce-contents :
    (q : MessageQueue)
    → IsBusy q
    → q.len < q.max_len
    → (q.tail < q.head) ⊎ (q.tail + 1 < q.max_len)
    → (q' : MessageQueue) × (queue_reduce q ≡ some q')
      × IsBusy q'
      × (contents q' ≡ contents q)
      × (q'.max_len + 1 ≡ q.max_len)
queue_reduce-contents q v room fits = elim (dec_lt q.tail q.head) [
  | yes wrapped ↦ reduce_wrapped q v room wrapped
  | no straight ↦ reduce_straight q v room (omega arith) (omega arith)
]

-- In the remaining case, an unwrapped ring whose last message is in the last slot, `queue_reduce`
-- cuts that slot off: it still reports the same number of messages, `tail` is outside the new
-- array, and in place of the newest message the contents show what is in slot 0.
pub queue_reduce_loses_newest :
    (q : MessageQueue)
    → IsBusy q
    → q.len < q.max_len
    → q.head ≤ q.tail
    → q.tail + 1 ≡ q.max_len
    → (q' : MessageQueue) × (queue_reduce q ≡ some q')
      × (q'.len ≡ q.len)
      × (q'.tail ≡ length q'.messages)
      × (slot q' (q.len - 1) ≡ get_or q.messages 0 none)
unfolding queue_reduce
queue_reduce_loses_newest q v room straight last = (
  reduced q.head q.messages q,
  ground (arith, v.held),
  refl,
  omega (arith, length-take (q.max_len - 1) q.messages, v.slots),
  ap (λ k. get_or (take (q.max_len - 1) q.messages) k none) at_zero
      ∙ get_or-take (q.max_len - 1) q.messages 0 none (omega (arith, v.held)),
)
  where
    at_zero : (q.head + (q.len - 1)) % (q.max_len - 1) ≡ 0
    at_zero =
        mod-wrap (q.head + (q.len - 1)) (q.max_len - 1) (ground (arith, tail-wrap q v, v.held))
        ∙ ground (arith, tail-wrap q v, v.held)
