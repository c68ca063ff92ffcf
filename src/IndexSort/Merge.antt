-- ===== src/IndexSort/Merge.antt =====
-- `merge_blocks` of lab6/src/sort_index.c on a region of the record array.
pub mod Laws
use osisp.Prelude.{ℕ, zero, suc, ◌+◌, List, [], ◌∷◌, ◌++◌, true, false, take, drop}
use osisp.IndexSort.Record.{Double, IndexRecord, cmp_index, at_most_zero}

module _ (d : Double) where
  -- The three loops: the arguments are what is left of the two blocks and `tmp` so far.
  unfoldable pub merge_into :
      List (IndexRecord d) → List (IndexRecord d) → List (IndexRecord d) → List (IndexRecord d)
  merge_into [] right tmp = tmp ++ right
  merge_into (a ∷ left) [] tmp = tmp ++ a ∷ left
  merge_into (a ∷ left) (b ∷ right) tmp = elim (at_most_zero d (cmp_index d a b)) [
    | true ↦ merge_into left (b ∷ right) (tmp ++ a ∷ [])
    | false ↦ merge_into (a ∷ left) right (tmp ++ b ∷ [])
  ]

  -- `merge_blocks(&records[at], &records[at + nleft], nleft, nright)`: `tmp` is built from the two
  -- blocks and copied back over both.
  unfoldable pub merge_blocks : List (IndexRecord d) → ℕ → ℕ → ℕ → List (IndexRecord d)
  unfolding merge_into
  merge_blocks records at nleft nright =
      take at records
      ++ (merge_into (take nleft (drop at records)) (take nright (drop (at + nleft) records)) []
          ++ drop (at + (nleft + nright)) records)
