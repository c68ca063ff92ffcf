-- ===== src/ThreadQueue/Queue/Sizes.antt =====
-- What the operations of lab5/5.1/src/queue.c do to `len` and `max_len` whenever they run without a
-- fault, on any queue.
use osisp.Prelude.{
  ℕ, ◌+◌, ◌-◌, ◌<◌, ◌≤◌, ◌≡◌, refl, subst, arith, Option, none, some, Bool, true, false, ◌==◌, ltb,
  leb, ◌⊎◌, inl, inr, [], ◌∷◌, ◌++◌, read_at, write_at, if◌then◌else◌,
}
use osisp.Prelude.OptionMonad.{◌>>=◌}
use osisp.ThreadQueue.Queue.{
  MessageQueue, queue_push, queue_pop, queue_expand, queue_reduce, shift_up, shift_down,
}

-- The result, unless it is a fault, has the property.
pub data Yields {ℓ} {A : Type ℓ} (P : A → Type 0) : Option A → Type ℓ where
  faults : Yields P none
  yields : {a : A} → P a → Yields P (some a)

module _ {ℓ} {B : Type ℓ} {P : B → Type 0} where
  pub Yields-bind {κ} :
      {A : Type κ} (x : Option A) {f : A → Option B}
      → ((a : A) → Yields P (f a))
      → Yields P (x >>= f)
  Yields-bind none h = faults
  Yields-bind (some a) h = h a

  pub Yields-if :
      (b : Bool) {x y : Option B}
      → (b ≡ true → Yields P x)
      → (b ≡ false → Yields P y)
      → Yields P (if b then x else y)
  Yields-if true yes_case no_case = yes_case refl
  Yields-if false yes_case no_case = no_case refl

  yielded : {b : B} → Yields P (some b) → P b
  yielded (yields p) = p

  pub result : {x : Option B} {b : B} → x ≡ some b → Yields P x → P b
  result e h = yielded (subst (Yields P) e h)

  pub faults_or : (x : Option B) → Yields P x → (x ≡ none) ⊎ ((b : B) × (x ≡ some b) × P b)
  faults_or none h = inl refl
  faults_or (some b) h = inr (b, refl, yielded h)

-- The queue has the sizes `len` and `max_len`.
abbrev pub Sizes : ℕ → ℕ → MessageQueue → Type 0
Sizes len max_len q = (q.len ≡ len) × (q.max_len ≡ max_len)

pub queue_push-Sizes :
    (msg : ℕ) (q : MessageQueue)
    → q.len < q.max_len
    → Yields (Sizes (q.len + 1) q.max_len) (queue_push msg q)
unfolding queue_push
queue_push-Sizes msg q room =
    Yields-if (leb q.max_len q.len) (λ full. absurd (ground arith))
      λ _. Yields-bind _ λ messages. yields (refl, refl)

pub queue_pop-Sizes :
    (q : MessageQueue) → 0 < q.len → Yields (λ r. Sizes (q.len - 1) q.max_len r.1) (queue_pop q)
unfolding queue_pop
queue_pop-Sizes q held =
    Yields-if (q.len == 0) (λ empty. absurd (ground arith))
      λ _.
        Yields-bind (read_at q.messages q.head)
          λ popped. Yields-bind (write_at q.messages q.head none) λ messages. yields (refl, refl)

pub queue_expand-Sizes :
    (garbage : Option ℕ) (q : MessageQueue)
    → Yields (Sizes q.len (q.max_len + 1)) (queue_expand garbage q)
unfolding queue_expand
queue_expand-Sizes garbage q =
    Yields-if (ltb q.tail q.head)
      (λ _.
        Yields-bind
          (shift_up (q.max_len + 1 - 1 - q.head) (q.max_len + 1 - 1) (q.messages ++ garbage ∷ []))
          λ shifted. Yields-bind (write_at shifted q.head none) λ messages. yields (refl, refl))
      (λ _. Yields-bind _ λ messages. yields (refl, refl))

-- It refuses, or takes one slot away.
pub queue_reduce-sizes :
    (q : MessageQueue)
    → Yields (λ q'. (q'.len ≡ q.len) × (q.max_len ≤ q'.max_len + 1)) (queue_reduce q)
unfolding queue_reduce
queue_reduce-sizes q =
    Yields-if (q.len == q.max_len) (λ _. yields (refl, omega arith))
      λ _.
        Yields-if (q.max_len == 1) (λ _. yields (refl, omega arith))
          λ _.
            Yields-if (ltb q.tail q.head)
              (λ _. Yields-bind (shift_down (q.max_len - q.head) q.head q.messages) λ shifted.
                Yields-bind (write_at shifted (q.max_len - 1) none)
                  λ messages. yields (refl, omega arith))
              (λ _. yields (refl, omega arith))
