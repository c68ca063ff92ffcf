-- ===== src/Prelude/Modulo.antt =====
-- Indices that go round a ring of variable capacity.
use Prim.Native.Nat.{ℕ, ◌+◌, ◌-◌, ◌%◌, ◌<◌, ◌≤◌}
use mathlib.Core.Path.{◌≡◌, ◌∙◌}
use native.Mathlib.Decide.{dec_lt}
use native.Mathlib.Nat.{mod-eq_of_lt, mod-eq-sub-mod, mod-add-mod}
use native.Mathlib.Omega.{arith}

-- Below twice the capacity an index wraps at most once.
pub mod-wrapped : (x size : ℕ) → size ≤ x → x < size + size → x % size ≡ x - size
mod-wrapped x size h l =
    mod-eq-sub-mod {n = x} {m = size} h ∙ mod-eq_of_lt {n = x - size} {m = size} (omega arith)

-- Two different offsets below the capacity lead to two different slots.
pub add-mod_injective :
    (h i j size : ℕ) → h < size → i < size → j < size → (h + i) % size ≡ (h + j) % size → i ≡ j
add-mod_injective h i j size hh hi hj e = elim (dec_lt (h + i) size) [
  | yes p ↦ elim (dec_lt (h + j) size) [
    | yes q ↦ omega (arith, mod-eq_of_lt p, mod-eq_of_lt q)
    | no q ↦ omega (arith, mod-eq_of_lt p, mod-wrapped (h + j) size (omega arith) (omega arith))
  ]
  | no p ↦ elim (dec_lt (h + j) size) [
    | yes q ↦ omega (arith, mod-wrapped (h + i) size (omega arith) (omega arith), mod-eq_of_lt q)
    | no q ↦ omega (
      arith,
      mod-wrapped (h + i) size (omega arith) (omega arith),
      mod-wrapped (h + j) size (omega arith) (omega arith),
    )
  ]
]

pub add-mod-lt : (x size : ℕ) → 0 < size → x % size < size
add-mod-lt x size h = omega arith

pub step-mod : (h j size : ℕ) → ((h + 1) % size + j) % size ≡ (h + 1 + j) % size
step-mod h j size = mod-add-mod (h + 1) size j
