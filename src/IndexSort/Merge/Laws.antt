-- ===== src/IndexSort/Merge/Laws.antt =====
-- `merge_blocks` of lab6/src/sort_index.c against sorted permutations.
use mathlib.Core.List.{Perm, perm_middle}
use mathlib.Core.List.Perm
use osisp.Prelude.{
  ℕ, ◌+◌, ◌≡◌, refl, ap, ◌∙◌, List, [], ◌∷◌, ◌++◌, append-nil, append_assoc, Bool-cases, true,
  false, inl, inr, take, drop,
}
use osisp.IndexSort.Record.{
  Double, IndexRecord, cmp_index, at_most_zero, InOrder, InOrder-trans, cmp_index-true,
  cmp_index-false,
}
use osisp.IndexSort.Merge.{merge_into, merge_blocks}

-- Every element has the property.
abbrev pub All {ℓ κ} : {A : Type ℓ} → (A → Type κ) → List A → Type κ
All P [] = Unit
All P (x ∷ xs) = P x × All P xs

pub All-append {ℓ κ} :
    {A : Type ℓ} (P : A → Type κ) (xs ys : List A) → All P xs → All P ys → All P (xs ++ ys)
All-append P [] ys hx hy = hy
All-append P (x ∷ xs) ys hx hy = (hx.0, All-append P xs ys hx.1 hy)

pub All-map {ℓ κ λ'} :
    {A : Type ℓ} (P : A → Type κ) (Q : A → Type λ')
    → ((x : A) → P x → Q x)
    → (xs : List A) → All P xs
    → All Q xs
All-map P Q f [] h = tt
All-map P Q f (x ∷ xs) h = (f x h.0, All-map P Q f xs h.1)

module _ (d : Double) where
  -- No record is before an earlier one.
  abbrev pub IsSorted : List (IndexRecord d) → Type 0
  IsSorted [] = Unit
  IsSorted (x ∷ xs) = All (InOrder d x) xs × IsSorted xs

  -- The merge without its accumulator.
  unfoldable pub merged : List (IndexRecord d) → List (IndexRecord d) → List (IndexRecord d)
  merged [] right = right
  merged (a ∷ left) [] = a ∷ left
  merged (a ∷ left) (b ∷ right) = elim (at_most_zero d (cmp_index d a b)) [
    | true ↦ a ∷ merged left (b ∷ right)
    | false ↦ b ∷ merged (a ∷ left) right
  ]

  merged-left :
      (a b : IndexRecord d) (left right : List (IndexRecord d))
      → at_most_zero d (cmp_index d a b) ≡ true
      → merged (a ∷ left) (b ∷ right) ≡ a ∷ merged left (b ∷ right)
  unfolding merged
  merged-left a b left right h = rw (h, merged)

  merged-right :
      (a b : IndexRecord d) (left right : List (IndexRecord d))
      → at_most_zero d (cmp_index d a b) ≡ false
      → merged (a ∷ left) (b ∷ right) ≡ b ∷ merged (a ∷ left) right
  unfolding merged
  merged-right a b left right h = rw (h, merged)

  pub merge_into-merged :
      (left right tmp : List (IndexRecord d))
      → merge_into d left right tmp ≡ tmp ++ merged left right
  unfolding merge_into merged
  merge_into-merged [] right tmp = refl
  merge_into-merged (a ∷ left) [] tmp = refl
  merge_into-merged (a ∷ left) (b ∷ right) tmp =
      elim (Bool-cases (at_most_zero d (cmp_index d a b))) [
        | inl h ↦
            rw (h, merge_into, merged)
              (merge_into-merged left (b ∷ right) (tmp ++ a ∷ []) ∙ append_assoc tmp (a ∷ []) _)
        | inr h ↦
            rw (h, merge_into, merged)
              (merge_into-merged (a ∷ left) right (tmp ++ b ∷ []) ∙ append_assoc tmp (b ∷ []) _)
      ]

  merged-All :
      (P : IndexRecord d → Type 0) (left right : List (IndexRecord d))
      → All P left
      → All P right
      → All P (merged left right)
  unfolding merged
  merged-All P [] right hl hr = hr
  merged-All P (a ∷ left) [] hl hr = hl
  merged-All P (a ∷ left) (b ∷ right) hl hr = elim (Bool-cases (at_most_zero d (cmp_index d a b))) [
    | inl h ↦ rw (merged-left a b left right h) (hl.0, merged-All P left (b ∷ right) hl.1 hr)
    | inr h ↦ rw (merged-right a b left right h) (hr.0, merged-All P (a ∷ left) right hl hr.1)
  ]

  -- A record in order with the first of an ordered block is in order with all of the block.
  All-head :
      (a b : IndexRecord d) (right : List (IndexRecord d))
      → InOrder d a b
      → All (InOrder d b) right
      → All (InOrder d a) right
  All-head a b right h =
      All-map (InOrder d b) (InOrder d a) (λ c hc. InOrder-trans d a b c h hc) right

  pub merged-IsSorted :
      (left right : List (IndexRecord d))
      → IsSorted left
      → IsSorted right
      → IsSorted (merged left right)
  unfolding merged
  merged-IsSorted [] right sl sr = sr
  merged-IsSorted (a ∷ left) [] sl sr = sl
  merged-IsSorted (a ∷ left) (b ∷ right) sl sr =
      elim (Bool-cases (at_most_zero d (cmp_index d a b))) [
        | inl h ↦
            let first : InOrder d a b = cmp_index-true d a b h in
            rw (merged-left a b left right h) (
              merged-All (InOrder d a) left (b ∷ right) sl.0 (first, All-head a b right first sr.0),
              merged-IsSorted left (b ∷ right) sl.1 sr,
            )
        | inr h ↦
            let first : InOrder d b a = cmp_index-false d a b h in
            rw (merged-right a b left right h) (
              merged-All (InOrder d b) (a ∷ left) right (first, All-head b a left first sl.0) sr.0,
              merged-IsSorted (a ∷ left) right sl sr.1,
            )
      ]

  pub merged-perm : (left right : List (IndexRecord d)) → Perm (merged left right) (left ++ right)
  unfolding merged
  merged-perm [] right = Perm.refl right
  merged-perm (a ∷ left) [] = rw (append-nil left) (Perm.refl (a ∷ left))
  merged-perm (a ∷ left) (b ∷ right) = elim (Bool-cases (at_most_zero d (cmp_index d a b))) [
    | inl h ↦ rw (merged-left a b left right h) (Perm.cons a (merged-perm left (b ∷ right)))
    | inr h ↦ rw (merged-right a b left right h) (
        Perm.trans (Perm.cons b (merged-perm (a ∷ left) right))
          (Perm.symm (perm_middle (a ∷ left) right)))
  ]

  -- The `n` records from index `at` on.
  abbrev pub region : ℕ → ℕ → List (IndexRecord d) → List (IndexRecord d)
  region at n records = take n (drop at records)

  -- On two neighbouring ordered blocks, `merge_blocks` leaves one ordered block of the same records
  -- in their place, and the records before and after it where they were.
  pub merge_blocks_lem :
      (records : List (IndexRecord d)) (at nleft nright : ℕ)
      → IsSorted (region at nleft records)
      → IsSorted (region (at + nleft) nright records)
      → (block : List (IndexRecord d)) × (merge_blocks d records at nleft nright
          ≡ take at records ++ (block ++ drop (at + (nleft + nright)) records))
        × IsSorted block
        × Perm block (region at nleft records ++ region (at + nleft) nright records)
  unfolding merge_blocks
  merge_blocks_lem records at nleft nright sl sr =
      let left : List (IndexRecord d) = region at nleft records in
      let right : List (IndexRecord d) = region (at + nleft) nright records in
      (
        merged left right,
        ap (λ b. take at records ++ (b ++ drop (at + (nleft + nright)) records))
            (merge_into-merged left right []),
        merged-IsSorted left right sl sr,
        merged-perm left right,
      )
