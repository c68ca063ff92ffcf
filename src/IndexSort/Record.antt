-- ===== src/IndexSort/Record.antt =====
-- The records of lab6/src/index.h and their order, `cmp_index`.
-- `double` and its `<` are a parameter: an order without NaN, on which `<` is asymmetric and its
-- failure transitive.
use osisp.Prelude.{ℕ, zero, suc, ◌≡◌, Bool, Bool-cases, true, false, if◌then◌else◌, inl, inr, arith}
use osisp.Prelude.Int.{ℤ, pos, negsuc}

pub record Double : Type 1 where
  pub Time : Type 0
  pub ltd : Time → Time → Bool
  pub ltd_asymm : (a b : Time) → ltd a b ≡ true → ltd b a ≡ false
  pub ltd_trans : (a b c : Time) → ltd b a ≡ false → ltd c b ≡ false → ltd c a ≡ false

module _ (d : Double) where
  open d use {Time, ltd}

  pub record IndexRecord : Type 0 where
    pub recno : ℕ
    pub time_mark : Time

  -- -1, 1 or 0
  unfoldable pub cmp_index : IndexRecord → IndexRecord → ℤ
  cmp_index a b =
      if ltd a.time_mark b.time_mark
      then negsuc 0
      else if ltd b.time_mark a.time_mark
      then pos 1
      else pos 0

  -- The test `cmp_index(a, b) <= 0`.
  abbrev pub at_most_zero : ℤ → Bool
  at_most_zero (pos zero) = true
  at_most_zero (pos (suc n)) = false
  at_most_zero (negsuc n) = true

  -- `b` is not before `a`.
  abbrev pub InOrder : IndexRecord → IndexRecord → Type 0
  InOrder a b = ltd b.time_mark a.time_mark ≡ false

  pub InOrder-trans : (a b c : IndexRecord) → InOrder a b → InOrder b c → InOrder a c
  InOrder-trans a b c = d.ltd_trans a.time_mark b.time_mark c.time_mark

  -- The comparison decides the order.
  pub cmp_index-true : (a b : IndexRecord) → at_most_zero (cmp_index a b) ≡ true → InOrder a b
  unfolding cmp_index
  cmp_index-true a b h = elim (Bool-cases (ltd a.time_mark b.time_mark)) [
    | inl before ↦ d.ltd_asymm a.time_mark b.time_mark before
    | inr not_before ↦ ground arith
  ]

  pub cmp_index-false : (a b : IndexRecord) → at_most_zero (cmp_index a b) ≡ false → InOrder b a
  unfolding cmp_index
  cmp_index-false a b h = ground arith
