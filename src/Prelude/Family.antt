-- ===== src/Prelude/Family.antt =====
-- Families indexed by process or thread: a change at one index, and sums of weights over the first
-- `n` members.
use Prim.Native.Nat.{ℕ, zero, suc, ◌+◌, ◌≤◌, ◌<◌}
use mathlib.Core.Path.{◌≡◌, refl}
use mathlib.Core.Logic.{◌≢◌, ◌⊎◌, inl, inr}
use native.Mathlib.Decide.{dec_lt}
use native.Mathlib.Omega.{arith}
use osisp.Prelude.Tests.{◌==◌, if◌then◌else◌}

abbrev pub update {ℓ} : {A : Type ℓ} → (ℕ → A) → ℕ → A → ℕ → A
update f i a j = if i == j then a else f j

module _ {ℓ} {A : Type ℓ} (weight : A → ℕ) where
  unfoldable pub total : ℕ → (ℕ → A) → ℕ
  total zero f = 0
  total (suc n) f = weight (f n) + total n f

  total-update_outside :
      (n : ℕ) (f : ℕ → A) (i : ℕ) (a : A) → n ≤ i → total n (update f i a) ≡ total n f
  unfolding total
  total-update_outside zero f i a out = refl
  total-update_outside (suc n) f i a out = ground (arith, total-update_outside n f i a)

  -- A member's new weight replaces its old one.
  pub total-update :
      (n : ℕ) (f : ℕ → A) (i : ℕ) (a : A)
      → i < n
      → total n (update f i a) + weight (f i) ≡ total n f + weight a
  unfolding total
  total-update zero f i a h = absurd (omega arith)
  total-update (suc n) f i a h = elim (dec_lt i n) [
    | yes inner ↦ ground (arith, total-update n f i a inner)
    | no outer ↦ ground (arith, total-update_outside n f i a)
  ]

  pub weight-le-total : (n : ℕ) (f : ℕ → A) (i : ℕ) → i < n → weight (f i) ≤ total n f
  unfolding total
  weight-le-total zero f i h = absurd (omega arith)
  weight-le-total (suc n) f i h = elim (dec_lt i n) [
    | yes inner ↦ omega (arith, weight-le-total n f i inner)
    | no outer ↦ ground arith
  ]

  -- Two different members weigh at most the sum.
  pub two-le-total :
      (n : ℕ) (f : ℕ → A) (i j : ℕ)
      → i < n
      → j < n
      → i ≢ j
      → weight (f i) + weight (f j) ≤ total n f
  unfolding total
  two-le-total zero f i j hi hj ne = absurd (omega arith)
  two-le-total (suc n) f i j hi hj ne = elim (dec_lt i n) [
    | yes p ↦ elim (dec_lt j n) [
      | yes q ↦ omega (arith, two-le-total n f i j p q ne)
      | no q ↦ ground (arith, weight-le-total n f i p)
    ]
    | no p ↦ ground (arith, weight-le-total n f j)
  ]

  -- A sum is zero, or some member weighs something.
  pub total-cases : (n : ℕ) (f : ℕ → A) → (total n f ≡ 0) ⊎ ((i : ℕ) × (i < n) × (0 < weight (f i)))
  unfolding total
  total-cases zero f = inl refl
  total-cases (suc n) f = elim (dec_lt 0 (weight (f n))) [
    | yes p ↦ inr (n, omega arith, p)
    | no p ↦ elim (total-cases n f) [
      | inl e ↦ inl (omega arith)
      | inr (i, lt, h) ↦ inr (i, omega arith, h)
    ]
  ]

  pub total-zero : (n : ℕ) (f : ℕ → A) → ((i : ℕ) → weight (f i) ≡ 0) → total n f ≡ 0
  unfolding total
  total-zero zero f h = refl
  total-zero (suc n) f h = omega (arith, h n, total-zero n f h)

  -- A member that weighs nothing after a change, whether it counts in the sum or not.
  pub total-clear :
      (n : ℕ) (f : ℕ → A) (i : ℕ) (a : A) → weight a ≡ 0 → total n (update f i a) ≤ total n f
  total-clear n f i a light = elim (dec_lt i n) [
    | yes h ↦ omega (arith, total-update n f i a h)
    | no h ↦ omega (arith, total-update_outside n f i a (omega arith))
  ]
