-- ===== src/ThreadQueue/Queue/Expand.antt =====
-- `queue_expand` on a queue that holds a message.
use osisp.Prelude.{
  ℕ, ◌+◌, ◌-◌, ◌<◌, ◌≤◌, ◌≡◌, refl, sym, ◌∙◌, arith, List, [], ◌∷◌, ◌++◌, Option, none, some, ltb,
  lt→ltb, leb, ◌&&◌, if◌then◌else◌, get_or, set, length, length-set, length-append, write_at-set,
  get_or-set_ne, get_or-append_left, tabulate-cong, dec_lt,
}
use osisp.Prelude.OptionMonad.{◌>>=◌}
use osisp.ThreadQueue.Queue.{MessageQueue, shift_up, queue_expand}
use osisp.ThreadQueue.Queue.Valid.{IsBusy, slot, contents}
use osisp.ThreadQueue.Queue.Slots.{shift_up-get, wrap, mod-wrap, slot-wrap, tail-wrap}

-- The queue that `queue_expand` makes of new slots.
abbrev expanded : ℕ → List (Option ℕ) → MessageQueue → MessageQueue
expanded head messages q = record q { head = head; max_len = q.max_len + 1; messages = messages }

module _ (q : MessageQueue) (v : IsBusy q) (messages : List (Option ℕ)) where
  -- Two queues with the same messages in the same places of the ring hold the same contents.
  expanded-contents :
      (head : ℕ)
      → head ≤ q.max_len
      → ((j : ℕ)
          → j < q.len
          → get_or messages (wrap (head + j) (q.max_len + 1)) none
            ≡ get_or q.messages (wrap (q.head + j) q.max_len) none)
      → contents (expanded head messages q) ≡ contents q
  expanded-contents head h same =
      tabulate-cong (slot (expanded head messages q)) (slot q) 0 0 q.len λ j lt.
        let fits : j ≤ q.max_len = omega (arith, v.fits) in
        slot-wrap (expanded head messages q) (0 + j) (omega arith) (omega arith)
        ∙ same (0 + j) (omega arith)
        ∙ sym (slot-wrap q (0 + j) v.head_in (omega arith))

  expanded-IsBusy :
      (head : ℕ)
      → head ≤ q.max_len
      → length messages ≡ q.max_len + 1
      → q.tail ≡ wrap (head + (q.len - 1)) (q.max_len + 1)
      → IsBusy (expanded head messages q)
  expanded-IsBusy head h l t = record {
    slots = l;
    head_in = omega arith;
    held = v.held;
    fits = omega (arith, v.fits);
    tail_last = t ∙ sym (mod-wrap (head + (q.len - 1)) (q.max_len + 1) (omega (arith, v.fits)));
  }

module _ (garbage : Option ℕ) (q : MessageQueue) (v : IsBusy q) (wrapped : q.tail < q.head)
    (moved : List (Option ℕ)) (length-moved : length moved ≡ q.max_len + 1)
    (place : (p : ℕ)
      → get_or moved p none ≡ (
          if ltb q.head p && leb p q.max_len
          then get_or (q.messages ++ garbage ∷ []) (p - 1) none
          else get_or (q.messages ++ garbage ∷ []) p none)) where
  -- After the loop and the write of NULL at `head`, each message is where the new positions say.
  expand_place :
      (j : ℕ)
      → j < q.len
      → get_or (set moved q.head none) (wrap (q.head + 1 + j) (q.max_len + 1)) none
        ≡ get_or q.messages (wrap (q.head + j) q.max_len) none
  expand_place j lt = elim (dec_lt (q.head + j) q.max_len) [
    | yes below ↦ ground (
      arith,
      get_or-set_ne moved q.head (q.head + 1 + j) none none,
      place (q.head + 1 + j),
      get_or-append_left q.messages (garbage ∷ []) (q.head + j) none,
      v.slots,
    )
    | no above ↦ ground (
      arith,
      get_or-set_ne moved q.head (q.head + j - q.max_len) none none,
      place (q.head + j - q.max_len),
      get_or-append_left q.messages (garbage ∷ []) (q.head + j - q.max_len) none,
      v.slots,
      tail-wrap q v,
    )
  ]

  expand_tail : q.tail ≡ wrap (q.head + 1 + (q.len - 1)) (q.max_len + 1)
  expand_tail = ground (arith, tail-wrap q v, v.held)

  expand_wrapped_from :
      shift_up (q.max_len - q.head) q.max_len (q.messages ++ garbage ∷ []) ≡ some moved
      → (q' : MessageQueue) × (queue_expand garbage q ≡ some q')
        × IsBusy q'
        × (contents q' ≡ contents q)
        × (q'.max_len ≡ q.max_len + 1)
  unfolding queue_expand
  expand_wrapped_from e =
      let out : List (Option ℕ) = set moved q.head none in
      let top : q.max_len + 1 - 1 ≡ q.max_len = omega arith in
      let long : length out ≡ q.max_len + 1 = length-set moved q.head none ∙ length-moved in
      let h : q.head + 1 ≤ q.max_len = omega (arith, v.head_in) in
      (
        expanded (q.head + 1) out q,
        rw
            (
              lt→ltb q.tail q.head wrapped,
              top,
              e,
              ◌>>=◌,
              write_at-set moved q.head none (omega (arith, length-moved, v.head_in)),
              ◌>>=◌,
            )
            refl,
        expanded-IsBusy q v out (q.head + 1) h long expand_tail,
        expanded-contents q v out (q.head + 1) h expand_place,
        refl,
      )

expand_wrapped :
    (garbage : Option ℕ) (q : MessageQueue)
    → IsBusy q
    → q.tail < q.head
    → (q' : MessageQueue) × (queue_expand garbage q ≡ some q')
      × IsBusy q'
      × (contents q' ≡ contents q)
      × (q'.max_len ≡ q.max_len + 1)
expand_wrapped garbage q v wrapped =
    let grown : List (Option ℕ) = q.messages ++ garbage ∷ [] in
    let lg : length grown ≡ q.max_len + 1 =
      omega (arith, length-append q.messages (garbage ∷ []), v.slots) in
    let (moved, e, l, place) =
      shift_up-get (q.max_len - q.head) q.max_len q.head grown (omega (arith, v.head_in))
        (omega (arith, lg)) in
    expand_wrapped_from garbage q v wrapped moved (l ∙ lg) place e

-- Not wrapped: the new slot comes last, and no message moves.
expand_straight :
    (garbage : Option ℕ) (q : MessageQueue)
    → IsBusy q
    → q.head ≤ q.tail
    → (q' : MessageQueue) × (queue_expand garbage q ≡ some q')
      × IsBusy q'
      × (contents q' ≡ contents q)
      × (q'.max_len ≡ q.max_len + 1)
unfolding queue_expand
expand_straight garbage q v straight = (
  expanded q.head out q,
  ground (arith, write_at-set grown (q.max_len + 1 - 1) none, lg, top),
  expanded-IsBusy q v out q.head (omega (arith, v.head_in)) long
      (ground (arith, tail-wrap q v, v.held)),
  expanded-contents q v out q.head (omega (arith, v.head_in)) same,
  refl,
)
  where
    grown : List (Option ℕ)
    grown = q.messages ++ garbage ∷ []

    lg : length grown ≡ q.max_len + 1
    lg = omega (arith, length-append q.messages (garbage ∷ []), v.slots)

    top : q.max_len + 1 - 1 ≡ q.max_len
    top = omega arith

    out : List (Option ℕ)
    out = set grown (q.max_len + 1 - 1) none

    long : length out ≡ q.max_len + 1
    long = length-set grown (q.max_len + 1 - 1) none ∙ lg

    same :
        (j : ℕ)
        → j < q.len
        → get_or out (wrap (q.head + j) (q.max_len + 1)) none
          ≡ get_or q.messages (wrap (q.head + j) q.max_len) none
    same j lt = ground (
      arith,
      get_or-set_ne grown (q.max_len + 1 - 1) (q.head + j) none none,
      get_or-append_left q.messages (garbage ∷ []) (q.head + j) none,
      v.slots,
      tail-wrap q v,
    )

-- On a queue whose array has `max_len` slots, with `head` inside it and 1 to `max_len` messages, the last
-- of them at `tail`: `queue_expand` adds one slot, writes inside the new array only, keeps the messages and
-- their order, wherever the ring begins, and leaves such a queue.
pub queue_expand-contents :
    (garbage : Option ℕ) (q : MessageQueue)
    → IsBusy q
    → (q' : MessageQueue) × (queue_expand garbage q ≡ some q')
      × IsBusy q'
      × (contents q' ≡ contents q)
      × (q'.max_len ≡ q.max_len + 1)
queue_expand-contents garbage q v = elim (dec_lt q.tail q.head) [
  | yes wrapped ↦ expand_wrapped garbage q v wrapped
  | no straight ↦ expand_straight garbage q v (omega arith)
]
