-- ===== src/IndexSort/Program/Arguments.antt =====
-- `main` accepts a power of 2 as the number of blocks.
use osisp.Prelude.{ℕ, zero, suc, ◌-◌, ◌*◌, ◌/◌, ◌%◌, ◌^◌, ◌≤◌, ◌≡◌, refl, true, arith}
use osisp.IndexSort.Portion.Blocks.{two_pow_pos}
use osisp.IndexSort.Program.{bit_and, valid_arguments}

bit_and-zero : (bits a : ℕ) → bit_and bits a 0 ≡ 0
unfolding bit_and
bit_and-zero zero a = refl
bit_and-zero (suc bits) a = let e = bit_and-zero bits (a / 2) in ground (arith, e)

-- A power of 2 has no bit in common with the number before it.
bit_and-power : (bits k : ℕ) → bit_and bits (2 ^ k) (2 ^ k - 1) ≡ 0
unfolding bit_and
bit_and-power zero k = refl
bit_and-power (suc bits) zero = bit_and-zero (suc bits) 1
bit_and-power (suc bits) (suc k) =
    let even : 2 ^ suc k % 2 ≡ 0 = omega arith in
    let half : 2 ^ suc k / 2 ≡ 2 ^ k = omega arith in
    let before : (2 ^ suc k - 1) / 2 ≡ 2 ^ k - 1 = omega (arith, two_pow_pos k) in
    rw (even, half, before) (omega (arith, bit_and-power bits k))

pub valid_arguments-power :
    (pagesize memsize k threads : ℕ)
    → memsize % pagesize ≡ 0
    → threads * 4 ≤ 2 ^ k
    → valid_arguments pagesize memsize (2 ^ k) threads ≡ true
unfolding valid_arguments
valid_arguments-power pagesize memsize k threads h l =
    rw (h, bit_and-power 31 k) (ground (arith, two_pow_pos k))
