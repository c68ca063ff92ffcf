-- ===== src/Prelude/Decimal.antt =====
-- Decimal numbers as bytes: `%ld`, `%03ld` and their reading.
use Prim.Native.Nat.{ℕ, zero, suc, ◌+◌, ◌-◌, ◌*◌, ◌/◌, ◌%◌, ◌^◌, ◌<◌, ◌≤◌}
use mathlib.Core.Path.{◌≡◌, refl, ◌∙◌}
use mathlib.Core.Bool.{true}
use mathlib.Core.List.{[], ◌∷◌, ◌++◌}
use mathlib.Core.Logic.{inl, inr}
use native.Mathlib.Omega.{arith}
use native.Mathlib.Nat.{pow-suc}
use osisp.Prelude.Tests.{ltb, if◌then◌else◌, Bool-cases}
use osisp.Prelude.Lists.{length, length-append, length-replicate, replicate}
use osisp.Prelude.Bytes.{Bytes}

-- On fuel, which has to be above the number.
unfoldable pub digits : ℕ → ℕ → Bytes
digits zero n = []
digits (suc fuel) n =
    let rest : Bytes = digits fuel (n / 10) in
    if ltb n 10 then (48 + n) ∷ [] else rest ++ (48 + n % 10) ∷ []

-- `%ld` of a number that is not negative.
unfoldable pub decimal : ℕ → Bytes
unfolding digits
decimal n = digits (suc n) n

-- `%03ld`
unfoldable pub padded : ℕ → Bytes
unfolding decimal
padded n = replicate (3 - length (decimal n)) 48 ++ decimal n

unfoldable pub number_from : ℕ → Bytes → ℕ
number_from acc [] = acc
number_from acc (c ∷ cs) = number_from (acc * 10 + (c - 48)) cs

number_from-append :
    (acc : ℕ) (xs : Bytes) (c : ℕ)
    → number_from acc (xs ++ c ∷ []) ≡ number_from acc xs * 10 + (c - 48)
unfolding number_from
number_from-append acc [] c = refl
number_from-append acc (x ∷ xs) c = number_from-append (acc * 10 + (x - 48)) xs c

number_from-zeros : (k : ℕ) (xs : Bytes) → number_from 0 (replicate k 48 ++ xs) ≡ number_from 0 xs
unfolding number_from
number_from-zeros zero xs = refl
number_from-zeros (suc k) xs = number_from-zeros k xs

number_from-digits : (fuel n : ℕ) → n < fuel → number_from 0 (digits fuel n) ≡ n
unfolding digits number_from
number_from-digits zero n h = absurd (omega arith)
number_from-digits (suc fuel) n h = elim (Bool-cases (ltb n 10)) [
  | inl small ↦ rw small (omega arith)
  | inr large ↦
      let big : 10 ≤ n = ground (arith, large) in
      rw
        (
          large,
          number_from-append 0 (digits fuel (n / 10)) (48 + n % 10),
          number_from-digits fuel (n / 10) (omega arith),
        )
        (omega arith)
]

-- `%03ld` is read back as the number.
pub number_from-padded : (n : ℕ) → number_from 0 (padded n) ≡ n
unfolding padded decimal
number_from-padded n =
    number_from-zeros (3 - length (digits (suc n) n)) (digits (suc n) n)
    ∙ number_from-digits (suc n) n (omega arith)

tenth : (n x y : ℕ) → x ≡ y → n < x * 10 → n / 10 < y
tenth n x y e h = omega arith

length-digits : (k fuel n : ℕ) → n < 10 ^ k * 10 → length (digits fuel n) ≤ suc k
unfolding digits
length-digits k zero n h = omega arith
length-digits zero (suc fuel) n h =
    let small : ltb n 10 ≡ true = let one : n < 10 = omega arith in ground arith in
    rw small (omega arith)
length-digits (suc k) (suc fuel) n h = elim (Bool-cases (ltb n 10)) [
  | inl small ↦ rw small (omega arith)
  | inr large ↦
      let room : n / 10 < 10 ^ k * 10 = tenth n (10 ^ suc k) (10 ^ k * 10) (pow-suc 10 k) h in
      rw large (
        omega (
          arith,
          length-append (digits fuel (n / 10)) ((48 + n % 10) ∷ []),
          length-digits k fuel (n / 10) room,
        ))
]

-- A `long` has at most 19 digits.
pub length-padded : (n : ℕ) → n < 2 ^ 63 → length (padded n) ≤ 19
unfolding padded decimal
length-padded n h =
    let ds : Bytes = digits (suc n) n in
    omega (
      arith,
      length-digits 18 (suc n) n (omega arith),
      length-append (replicate (3 - length ds) 48) ds,
      length-replicate {A = ℕ} (3 - length ds) 48,
    )

-- Only digits.
unfoldable pub AreDigits : Bytes → Type 0
AreDigits [] = Unit
AreDigits (c ∷ cs) = (48 ≤ c) × (c ≤ 57) × AreDigits cs

AreDigits-append : (xs ys : Bytes) → AreDigits xs → AreDigits ys → AreDigits (xs ++ ys)
unfolding AreDigits
AreDigits-append [] ys h g = g
AreDigits-append (x ∷ xs) ys h g = (h.0, h.1, AreDigits-append xs ys h.2 g)

replicate-AreDigits : (k : ℕ) → AreDigits (replicate k 48)
unfolding AreDigits
replicate-AreDigits zero = tt
replicate-AreDigits (suc k) = (omega arith, omega arith, replicate-AreDigits k)

digits-AreDigits : (fuel n : ℕ) → AreDigits (digits fuel n)
unfolding digits AreDigits
digits-AreDigits zero n = tt
digits-AreDigits (suc fuel) n = elim (Bool-cases (ltb n 10)) [
  | inl small ↦ rw small (omega arith, ground (arith, small), tt)
  | inr large ↦ rw large (
      AreDigits-append (digits fuel (n / 10)) ((48 + n % 10) ∷ []) (digits-AreDigits fuel (n / 10))
        (omega arith, omega arith, tt))
]

pub padded-AreDigits : (n : ℕ) → AreDigits (padded n)
unfolding padded decimal
padded-AreDigits n =
    AreDigits-append (replicate (3 - length (digits (suc n) n)) 48) (digits (suc n) n)
      (replicate-AreDigits (3 - length (digits (suc n) n))) (digits-AreDigits (suc n) n)
