-- ===== src/Prelude/Bytes.antt =====
-- Comparison of C strings and byte arrays as lists of bytes.
use Prim.Native.Nat.{ℕ}
use mathlib.Core.Path.{◌≡◌, refl, sym, ap, ◌∙◌}
use mathlib.Core.Logic.{◌≢◌}
use mathlib.Core.Bool.{Bool, true, false, ◌&&◌}
use mathlib.Core.List.{List, [], ◌∷◌, ◌++◌, append_assoc}
use native.Mathlib.Omega.{arith}
use osisp.Prelude.Tests.{◌==◌}
use osisp.Prelude.Lists.{length, drop}

abbrev pub Bytes : Type 0
Bytes = List ℕ

-- `memcmp(…) == 0` and `strcmp(…) == 0`
abbrev pub same_bytes : Bytes → Bytes → Bool
same_bytes [] [] = true
same_bytes [] (y ∷ ys) = false
same_bytes (x ∷ xs) [] = false
same_bytes (x ∷ xs) (y ∷ ys) = (x == y) && same_bytes xs ys

pub same_bytes_refl : (xs : Bytes) → same_bytes xs xs ≡ true
same_bytes_refl [] = refl
same_bytes_refl (x ∷ xs) = let e = same_bytes_refl xs in ground (arith, e)

pub eq_of_same_bytes : (xs ys : Bytes) → same_bytes xs ys ≡ true → xs ≡ ys
eq_of_same_bytes [] [] h = refl
eq_of_same_bytes [] (y ∷ ys) h = cc h
eq_of_same_bytes (x ∷ xs) [] h = cc h
eq_of_same_bytes (x ∷ xs) (y ∷ ys) h =
    let head : x ≡ y = ground (arith, h) in
    let tail : same_bytes xs ys ≡ true = ground (arith, h) in
    ap (λ c. c ∷ xs) head ∙ ap (λ l. y ∷ l) (eq_of_same_bytes xs ys tail)

pub same_bytes-ne : (xs ys : Bytes) → xs ≢ ys → same_bytes xs ys ≡ false
same_bytes-ne xs ys ne = by_test (same_bytes xs ys) (eq_of_same_bytes xs ys)
  where
    by_test : (b : Bool) → (b ≡ true → xs ≡ ys) → b ≡ false
    by_test true eq = absurd (ne (eq refl))
    by_test false eq = refl

-- `strncmp(path, root, strlen(root)) == 0`
unfoldable pub starts_with : Bytes → Bytes → Bool
starts_with [] path = true
starts_with (r ∷ root) [] = false
starts_with (r ∷ root) (p ∷ path) = (r == p) && starts_with root path

pub starts_with-append :
    (root path : Bytes) → starts_with root path ≡ true → path ≡ root ++ drop (length root) path
unfolding starts_with
starts_with-append [] path h = refl
starts_with-append (r ∷ root) [] h = cc h
starts_with-append (r ∷ root) (p ∷ path) h =
    let same : r ≡ p = ground (arith, h) in
    let rest : starts_with root path ≡ true = ground (arith, h) in
    let tail = starts_with-append root path rest in
    ap (λ c. c ∷ path) (sym same) ∙ ap (λ l. r ∷ l) tail

pub append-starts_with : (root rest : Bytes) → starts_with root (root ++ rest) ≡ true
unfolding starts_with
append-starts_with [] rest = refl
append-starts_with (r ∷ root) rest = let h = append-starts_with root rest in ground (arith, h)

abbrev pub newline : ℕ
newline = 10

-- The text of some lines.
unfoldable pub unlines : List Bytes → Bytes
unlines [] = []
unlines (l ∷ ls) = l ++ newline ∷ unlines ls

pub unlines-append : (ls ms : List Bytes) → unlines (ls ++ ms) ≡ unlines ls ++ unlines ms
unfolding unlines
unlines-append [] ms = refl
unlines-append (l ∷ ls) ms =
    ap (λ x. l ++ newline ∷ x) (unlines-append ls ms)
    ∙ sym (append_assoc l (newline ∷ unlines ls) (unlines ms))
