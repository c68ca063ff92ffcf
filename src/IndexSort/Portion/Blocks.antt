-- ===== src/IndexSort/Portion/Blocks.antt =====
-- The passes of IndexSort.Portion turn a portion into ordered blocks and merge them in pairs.
use mathlib.Core.List.{Perm}
use mathlib.Core.List.Perm
use mathlib.Core.List as L
use osisp.Prelude.{
  ℕ, zero, suc, ◌+◌, ◌*◌, ◌/◌, ◌^◌, ◌<◌, ◌≡◌, refl, ap, sym, ◌∙◌, subst, List, [], ◌∷◌, ◌++◌,
  append-nil, append_assoc, true, ltb, lt→ltb, some, take, drop, length, length-take, length-drop,
  length-append, take-append, drop-append, take-append-drop, arith,
}
use osisp.IndexSort.Record.{Double, IndexRecord}
use osisp.IndexSort.Merge.Laws.{IsSorted, merged, merge_into-merged, merged-IsSorted, merged-perm}
use osisp.IndexSort.Portion.{Qsort, Calls, sort_blocks, merge_pairs, merge_rounds, with_threads}

module _ {A : Type 0} where
  same_length : (xs ys : List A) → L.length xs ≡ L.length ys → length xs ≡ length ys
  same_length [] [] e = refl
  same_length [] (y ∷ ys) e = cc e
  same_length (x ∷ xs) [] e = cc e
  same_length (x ∷ xs) (y ∷ ys) e = ap suc (same_length xs ys (cc e))

  pub perm-length : {xs ys : List A} → Perm xs ys → length xs ≡ length ys
  perm-length {xs} {ys} p = same_length xs ys (Perm.length-eq p)

  pub length-zero : (xs : List A) → length xs ≡ 0 → xs ≡ []
  length-zero [] e = refl
  length-zero (x ∷ xs) e = absurd (omega arith)

pub two_pow_pos : (k : ℕ) → 0 < 2 ^ k
two_pow_pos zero = omega arith
two_pow_pos (suc k) = omega (arith, two_pow_pos k)

module _ (d : Double) where
  -- The records are that many ordered blocks of that size.
  abbrev pub IsBlocks : ℕ → ℕ → List (IndexRecord d) → Type 0
  IsBlocks size zero rs = rs ≡ []
  IsBlocks size (suc n) rs =
      (block : List (IndexRecord d)) × (rest : List (IndexRecord d)) × (rs ≡ block ++ rest)
      × (length block ≡ size)
      × IsSorted d block
      × IsBlocks size n rest

  pub IsBlocks-one : (size : ℕ) (rs : List (IndexRecord d)) → IsBlocks size 1 rs → IsSorted d rs
  IsBlocks-one size rs (block, rest, e, len, sorted, none_left) =
      subst (IsSorted d) (sym (e ∙ ap (λ r. block ++ r) none_left ∙ append-nil block)) sorted

  -- The first pair of blocks is merged and the pass goes on behind it.
  merge_pairs-pair :
      (size n : ℕ) (left right rest : List (IndexRecord d))
      → length left ≡ size
      → length right ≡ size
      → merge_pairs d size (suc (suc n)) (left ++ (right ++ rest))
        ≡ merged d left right ++ merge_pairs d size n rest
  unfolding merge_pairs
  merge_pairs-pair size n left right rest el er =
      rw
        (
          take-append size left (right ++ rest) el,
          drop-append size left (right ++ rest) el,
          take-append size right rest er,
          drop-append size right rest er,
          merge_into-merged d left right [],
        )
        refl

  -- A round of merges halves the blocks and doubles their size.
  pub merge_pairs-IsBlocks :
      (size m n : ℕ) (rs : List (IndexRecord d))
      → n ≡ m + m
      → IsBlocks size n rs
      → IsBlocks (size * 2) m (merge_pairs d size n rs) × Perm (merge_pairs d size n rs) rs
  unfolding merge_pairs
  merge_pairs-IsBlocks size zero zero rs e h = (h, Perm.refl rs)
  merge_pairs-IsBlocks size zero (suc n) rs e h = absurd (omega arith)
  merge_pairs-IsBlocks size (suc m) zero rs e h = absurd (omega arith)
  merge_pairs-IsBlocks size (suc m) (suc zero) rs e h = absurd (omega arith)
  merge_pairs-IsBlocks size (suc m) (suc (suc n)) rs e
        (left, _, e₁, len₁, sorted₁, (right, rest, e₂, len₂, sorted₂, h)) =
      (
        (
          merged d left right,
          merge_pairs d size n rest,
          step,
          omega (arith, perm-length (merged-perm d left right), length-append left right),
          merged-IsSorted d left right sorted₁ sorted₂,
          (merge_pairs-IsBlocks size m n rest (omega arith) h).0,
        ),
        subst (λ l. Perm l rs) (sym step)
            (subst (λ l. Perm (merged d left right ++ merge_pairs d size n rest) l)
              (append_assoc left right rest ∙ sym whole)
              (Perm.append (merged-perm d left right)
                (merge_pairs-IsBlocks size m n rest (omega arith) h).1)),
      )
    where
      whole : rs ≡ left ++ (right ++ rest)
      whole = e₁ ∙ ap (λ l. left ++ l) e₂

      step : merge_pairs d size (suc (suc n)) rs ≡ merged d left right ++ merge_pairs d size n rest
      step =
          ap (merge_pairs d size (suc (suc n))) whole
          ∙ merge_pairs-pair size n left right rest len₁ len₂

  pub with_threads-run :
      (threads : ℕ) (pass : List (IndexRecord d) → List (IndexRecord d)) (rs : List (IndexRecord d))
      → 0 < threads
      → with_threads d threads pass rs ≡ pass rs
  with_threads-run zero pass rs h = absurd (omega arith)
  with_threads-run (suc n) pass rs h = refl

  -- One round of the loop.
  merge_rounds-round :
      (calls : Calls) (threads fuel size blocks half : ℕ) (rs : List (IndexRecord d))
      → 0 < threads
      → ((n : ℕ) → calls.merges n ≡ true)
      → blocks ≡ half + half
      → 0 < half
      → merge_rounds d calls (suc fuel) threads size blocks rs
        ≡ merge_rounds d calls fuel threads (size * 2) half (merge_pairs d size blocks rs)
  unfolding merge_rounds
  merge_rounds-round calls threads fuel size blocks half rs ht hc e pos =
      let halved : blocks / 2 ≡ half = omega arith in
      let more : ltb 1 blocks ≡ true = lt→ltb 1 blocks (omega arith) in
      rw (more, hc blocks, halved, with_threads-run threads (merge_pairs d size blocks) rs ht) refl

  -- From a power of 2 of ordered blocks the rounds end with one, if the fuel is above the exponent.
  pub merge_rounds-ends :
      (calls : Calls) (threads k fuel size : ℕ) (rs : List (IndexRecord d))
      → 0 < threads
      → ((n : ℕ) → calls.merges n ≡ true)
      → k < fuel
      → IsBlocks size (2 ^ k) rs
      → (rs' : List (IndexRecord d)) × (merge_rounds d calls fuel threads size (2 ^ k) rs
          ≡ some (rs', 1))
        × IsSorted d rs'
        × Perm rs' rs
  unfolding merge_rounds
  merge_rounds-ends calls threads k zero size rs ht hc hf h = absurd (omega arith)
  merge_rounds-ends calls threads zero (suc fuel) size rs ht hc hf h =
      (rs, refl, IsBlocks-one size rs h, Perm.refl rs)
  merge_rounds-ends calls threads (suc k) (suc fuel) size rs ht hc hf h =
      let half : 2 ^ suc k ≡ 2 ^ k + 2 ^ k = omega arith in
      let round = merge_pairs-IsBlocks size (2 ^ k) (2 ^ suc k) rs half h in
      let (rs', e, sorted, same) =
        merge_rounds-ends calls threads k fuel (size * 2) (merge_pairs d size (2 ^ suc k) rs) ht hc
          (omega arith) round.0 in
      (
        rs',
        merge_rounds-round calls threads fuel size (2 ^ suc k) (2 ^ k) rs ht hc half (two_pow_pos k)
            ∙ e,
        sorted,
        Perm.trans same round.1,
      )

module _ (d : Double) (q : Qsort d) where
  open q use {qsort, qsort-IsSorted, qsort-perm}

  -- The sorting pass makes the records ordered blocks of the same records.
  pub sort_blocks-IsBlocks :
      (size n : ℕ) (rs : List (IndexRecord d))
      → length rs ≡ n * size
      → IsBlocks d size n (sort_blocks d q size n rs) × Perm (sort_blocks d q size n rs) rs
  unfolding sort_blocks
  sort_blocks-IsBlocks size zero rs e = (length-zero rs (omega arith), Perm.refl rs)
  sort_blocks-IsBlocks size (suc n) rs e =
      let (blocks, same) =
        sort_blocks-IsBlocks size n (drop size rs) (ground (arith, length-drop size rs)) in
      (
        (
          qsort (take size rs),
          sort_blocks d q size n (drop size rs),
          refl,
          perm-length (qsort-perm (take size rs)) ∙ ground (arith, length-take size rs),
          qsort-IsSorted (take size rs),
          blocks,
        ),
        subst (Perm (qsort (take size rs) ++ sort_blocks d q size n (drop size rs)))
            (take-append-drop size rs) (Perm.append (qsort-perm (take size rs)) same),
      )
