-- ===== src/Prelude/Tabulate.antt =====
-- The values of a function on a range of indices, in order: how the contents of an array that is
-- used as a ring are read off.
use Prim.Native.Nat.{ℕ, zero, suc, ◌+◌, ◌<◌, ◌≤◌}
use mathlib.Core.Path.{◌≡◌, refl, ap, ap₂}
use mathlib.Core.List.{List, [], ◌∷◌, ◌++◌}
use native.Mathlib.Omega.{arith}
use native.Mathlib.Nat.{add-zero}
use native.Mathlib.Numerals.{add-one}
use osisp.Prelude.Lists.{length, remove_at}

module _ {ℓ} {A : Type ℓ} where
  -- f k, f (k + 1), …, f (k + n - 1)
  abbrev pub tabulate : (ℕ → A) → ℕ → ℕ → List A
  tabulate f k zero = []
  tabulate f k (suc n) = f k ∷ tabulate f (suc k) n

  pub length-tabulate : (f : ℕ → A) (k n : ℕ) → length (tabulate f k n) ≡ n
  length-tabulate f k zero = refl
  length-tabulate f k (suc n) = ap suc (length-tabulate f (suc k) n)

  pub tabulate-cong :
      (f g : ℕ → A) (k l n : ℕ)
      → ((j : ℕ) → j < n → f (k + j) ≡ g (l + j))
      → tabulate f k n ≡ tabulate g l n
  tabulate-cong f g k l zero h = refl
  tabulate-cong f g k l (suc n) h =
      ap₂ ◌∷◌ (subst₀ (h 0 (omega arith)))
        (tabulate-cong f g (suc k) (suc l) n (λ j lt. subst₁ j (h (suc j) (omega arith))))
    where
      subst₀ : f (k + 0) ≡ g (l + 0) → f k ≡ g l
      subst₀ e = rw (add-zero, add-zero) at e

      subst₁ : (j : ℕ) → f (k + suc j) ≡ g (l + suc j) → f (suc k + j) ≡ g (suc l + j)
      subst₁ j e =
          let p : k + suc j ≡ suc k + j = omega arith in
          let q : l + suc j ≡ suc l + j = omega arith in rw (p, q) at e

  pub tabulate-snoc :
      (f : ℕ → A) (k n : ℕ) → tabulate f k (suc n) ≡ tabulate f k n ++ f (k + n) ∷ []
  tabulate-snoc f k zero = rw add-zero
  tabulate-snoc f k (suc n) =
      let e : suc k + n ≡ k + suc n = omega arith in
      ap (◌∷◌ (f k)) (rw e at (tabulate-snoc f (suc k) n))

  pub tabulate-add_one :
      (f : ℕ → A) (k n : ℕ) → tabulate f k (n + 1) ≡ tabulate f k n ++ f (k + n) ∷ []
  tabulate-add_one f k n = rw (add-one n) (tabulate-snoc f k n)

  -- Reading past one index from there on leaves that index out.
  pub remove_at-tabulate :
      (f g : ℕ → A) (k i n : ℕ)
      → i ≤ n
      → ((j : ℕ) → j < i → g (k + j) ≡ f (k + j))
      → ((j : ℕ) → i ≤ j → j < n → g (k + j) ≡ f (suc k + j))
      → tabulate g k n ≡ remove_at i (tabulate f k (suc n))
  remove_at-tabulate f g k zero n h below above =
      tabulate-cong g f k (suc k) n (λ j lt. above j (omega arith) lt)
  remove_at-tabulate f g k (suc i) zero h below above = absurd (omega arith)
  remove_at-tabulate f g k (suc i) (suc n) h below above =
      ap₂ ◌∷◌ (rw add-zero at (below 0 (omega arith))) (
        remove_at-tabulate f g (suc k) i n (omega arith)
          (λ j lt. left j (below (suc j) (omega arith)))
          (λ j le lt. right j (above (suc j) (omega arith) (omega arith))))
    where
      left : (j : ℕ) → g (k + suc j) ≡ f (k + suc j) → g (suc k + j) ≡ f (suc k + j)
      left j e = let p : k + suc j ≡ suc k + j = omega arith in rw p at e

      right : (j : ℕ) → g (k + suc j) ≡ f (suc k + suc j) → g (suc k + j) ≡ f (suc (suc k) + j)
      right j e =
          let p : k + suc j ≡ suc k + j = omega arith in
          let q : suc k + suc j ≡ suc (suc k) + j = omega arith in rw (p, q) at e
