-- ===== src/ThreadQueue/Queue/Valid.antt =====
-- `queue_push` and `queue_pop` on a queue that holds a message: a ring whose tail is at the last
-- message. (On an empty queue the two positions need not fit together.)
use native.Mathlib.Nat.{add-zero, mod-eq_of_lt, mod-add-mod}
use osisp.Prelude.{
  ℕ, zero, suc, ◌+◌, ◌-◌, ◌%◌, ◌<◌, ◌≤◌, ◌≡◌, ◌≢◌, refl, ap, ap₂, sym, ◌∙◌, arith, List, [], ◌∷◌,
  ◌++◌, Option, none, some, get_or, set, length, length-set, read_at-get_or, write_at-set,
  get_or-set_self, get_or-set_ne, tabulate, tabulate-cong, tabulate-add_one,
}
use osisp.Prelude.Modulo.{add-mod_injective, step-mod}
use osisp.ThreadQueue.Queue.{MessageQueue, queue_push, queue_pop}

-- The pointer with `j` older ones in the queue.
abbrev pub slot : MessageQueue → ℕ → Option ℕ
slot q j = get_or q.messages ((q.head + j) % q.max_len) none

-- The pointers that the queue holds, oldest first.
abbrev pub contents : MessageQueue → List (Option ℕ)
contents q = tabulate (slot q) 0 q.len

-- The last message stands at `tail`. A queue that was drained and refilled is not such a queue.
pub record IsBusy (q : MessageQueue) : Type 0 where
  pub slots : length q.messages ≡ q.max_len
  pub head_in : q.head < q.max_len
  pub held : 0 < q.len
  pub fits : q.len ≤ q.max_len
  pub tail_last : q.tail ≡ (q.head + (q.len - 1)) % q.max_len

next_slot : (q : MessageQueue) → IsBusy q → (q.tail + 1) % q.max_len ≡ (q.head + q.len) % q.max_len
next_slot q v =
    let moved : (q.tail + 1) % q.max_len ≡ ((q.head + (q.len - 1)) % q.max_len + 1) % q.max_len =
      ap (λ t. (t + 1) % q.max_len) v.tail_last in
    let e : q.head + (q.len - 1) + 1 ≡ q.head + q.len = omega arith in
    moved ∙ mod-add-mod (q.head + (q.len - 1)) q.max_len 1 ∙ ap (λ k. k % q.max_len) e

-- The queue after a message was stored behind its last one.
abbrev pushed : ℕ → MessageQueue → MessageQueue
pushed msg q = record q {
  tail = (q.tail + 1) % q.max_len;
  len = q.len + 1;
  messages = set q.messages ((q.tail + 1) % q.max_len) (some msg);
}

pushed-IsBusy : (msg : ℕ) (q : MessageQueue) → IsBusy q → q.len < q.max_len → IsBusy (pushed msg q)
pushed-IsBusy msg q v room = record {
  slots = length-set q.messages ((q.tail + 1) % q.max_len) (some msg) ∙ v.slots;
  head_in = v.head_in;
  held = omega arith;
  fits = omega arith;
  tail_last =
      let e : q.head + q.len ≡ q.head + (q.len + 1 - 1) = omega arith in
      next_slot q v ∙ ap (λ k. k % q.max_len) e;
}

contents-pushed :
    (msg : ℕ) (q : MessageQueue)
    → IsBusy q
    → q.len < q.max_len
    → contents (pushed msg q) ≡ contents q ++ some msg ∷ []
contents-pushed msg q v room =
    tabulate-add_one (slot (pushed msg q)) 0 q.len
    ∙ ap₂ (λ xs x. xs ++ x ∷ []) (tabulate-cong (slot (pushed msg q)) (slot q) 0 0 q.len others)
        last
  where
    at : ℕ
    at = (q.tail + 1) % q.max_len

    inside : at < length q.messages
    inside = omega (arith, v.slots, v.head_in)

    last : slot (pushed msg q) (0 + q.len) ≡ some msg
    last =
        let e : (q.head + (0 + q.len)) % q.max_len ≡ at =
          ap (λ k. (q.head + k) % q.max_len) (omega arith) ∙ sym (next_slot q v) in
        rw e (get_or-set_self q.messages at (some msg) none inside)

    others : (j : ℕ) → j < q.len → slot (pushed msg q) (0 + j) ≡ slot q (0 + j)
    others j lt = get_or-set_ne q.messages at ((q.head + (0 + j)) % q.max_len) (some msg) none λ e.
        let same : (q.head + q.len) % q.max_len ≡ (q.head + (0 + j)) % q.max_len =
          sym (next_slot q v) ∙ e in
        omega (
          arith,
          add-mod_injective q.head q.len (0 + j) q.max_len v.head_in room (omega arith) same,
        )

-- On a queue that holds a message and has room, `queue_push` stores the new one behind the others.
pub queue_push-contents :
    (msg : ℕ) (q : MessageQueue)
    → IsBusy q
    → q.len < q.max_len
    → (q' : MessageQueue) × (queue_push msg q ≡ some q')
      × IsBusy q'
      × (contents q' ≡ contents q ++ some msg ∷ [])
      × (q'.max_len ≡ q.max_len)
unfolding queue_push
queue_push-contents msg q v room = (
  pushed msg q,
  ground (arith, v.slots),
  pushed-IsBusy msg q v room,
  contents-pushed msg q v room,
  refl,
)

-- The queue after its oldest message was taken.
abbrev popped : MessageQueue → MessageQueue
popped q = record q {
  head = (q.head + 1) % q.max_len;
  len = q.len - 1;
  messages = set q.messages q.head none;
}

tabulate_pos {ℓ} :
    {A : Type ℓ} (f : ℕ → A) (n : ℕ) → 0 < n → tabulate f 0 n ≡ f 0 ∷ tabulate f 1 (n - 1)
tabulate_pos f zero h = absurd (omega arith)
tabulate_pos f (suc n) h = ap (λ k. f 0 ∷ tabulate f 1 k) (omega arith)

pub slot-zero : (q : MessageQueue) → IsBusy q → slot q 0 ≡ get_or q.messages q.head none
slot-zero q v =
    ap (λ k. get_or q.messages k none)
      (ap (λ k. k % q.max_len) (add-zero q.head) ∙ mod-eq_of_lt v.head_in)

contents-popped : (q : MessageQueue) → IsBusy q → contents q ≡ slot q 0 ∷ contents (popped q)
contents-popped q v =
    tabulate_pos (slot q) q.len v.held
    ∙ ap (◌∷◌ (slot q 0)) (tabulate-cong (slot q) (slot (popped q)) 1 0 (q.len - 1) shifted)
  where
    next :
        (j : ℕ) → ((q.head + 1) % q.max_len + (0 + j)) % q.max_len ≡ (q.head + (1 + j)) % q.max_len
    next j =
        step-mod q.head (0 + j) q.max_len
        ∙ ap (λ k. k % q.max_len)
            (let e : q.head + 1 + (0 + j) ≡ q.head + (1 + j) = omega arith in e)

    apart : (j : ℕ) → j < q.len - 1 → q.head ≢ (q.head + (1 + j)) % q.max_len
    apart j lt e =
        let at_zero : (q.head + 0) % q.max_len ≡ (q.head + (1 + j)) % q.max_len =
          ap (λ k. k % q.max_len) (add-zero q.head) ∙ mod-eq_of_lt v.head_in ∙ e in
        omega (
          arith,
          v.fits,
          add-mod_injective q.head 0 (1 + j) q.max_len v.head_in (omega arith) (omega arith)
              at_zero,
        )

    shifted : (j : ℕ) → j < q.len - 1 → slot q (1 + j) ≡ slot (popped q) (0 + j)
    shifted j lt = rw (next j) (sym (get_or-set_ne q.messages q.head _ none none (apart j lt)))

popped-IsBusy : (q : MessageQueue) → IsBusy q → 1 < q.len → IsBusy (popped q)
popped-IsBusy q v more = record {
  slots = length-set q.messages q.head none ∙ v.slots;
  head_in = omega (arith, v.head_in);
  held = omega arith;
  fits = omega (arith, v.fits);
  tail_last =
      v.tail_last
      ∙ ap (λ k. k % q.max_len)
          (let e : q.head + (q.len - 1) ≡ q.head + 1 + (q.len - 1 - 1) = omega arith in e)
      ∙ sym (step-mod q.head (q.len - 1 - 1) q.max_len);
}

-- On a queue that holds messages, `queue_pop` returns the oldest and keeps the others in order; if
-- there are others, the queue stays well-formed.
pub queue_pop-contents :
    (q : MessageQueue)
    → IsBusy q
    → (p : Option ℕ) × (q' : MessageQueue) × (queue_pop q ≡ some (p, q'))
      × (contents q ≡ p ∷ contents q')
      × (q'.max_len ≡ q.max_len)
      × (1 < q.len → IsBusy q')
unfolding queue_pop
queue_pop-contents q v = (
  slot q 0,
  popped q,
  ground (
    arith,
    v.slots,
    v.held,
    v.head_in,
    slot-zero q v,
    read_at-get_or q.messages q.head none,
    write_at-set q.messages q.head none,
  ),
  contents-popped q v,
  refl,
  popped-IsBusy q v,
)
