-- ===== src/IndexSort/Runs.antt =====
-- `external_merge` of lab6/src/sort_index.c: sorted runs of the file are merged in pairs until one
-- is left. The file is the list of its records; `none` is a failed call.
pub mod Laws
use osisp.Prelude.{
  ℕ, zero, suc, ◌+◌, ◌-◌, ◌/◌, List, [], ◌∷◌, Bool, ◌&&◌, Option, none, some, length, ltb,
  if◌then◌else◌,
}
use osisp.Prelude.OptionMonad.{◌>>=◌}
use osisp.IndexSort.Record.{Double, IndexRecord}
use osisp.IndexSort.Merge.{merge_blocks}
use osisp.IndexSort.Portion.{Calls, header_size, record_size}

pub record RunBoundary : Type 0 where
  pub offset : ℕ
  pub nrecords : ℕ

-- The index of the record that the address of an offset points to.
abbrev pub record_at : ℕ → ℕ
record_at offset = (offset - header_size) / record_size

module _ (d : Double) (calls : Calls) where
  -- The `for` loop: the runs that are left (written over the old ones) and the file.
  unfoldable pub merge_pass :
      List RunBoundary → List (IndexRecord d) → Option (List RunBoundary × List (IndexRecord d))
  unfolding merge_blocks
  merge_pass [] file = some ([], file)
  merge_pass (run ∷ []) file = some (run ∷ [], file)
  merge_pass (run ∷ next ∷ runs) file =
      let rest : Option (List RunBoundary × List (IndexRecord d)) = (do
        (runs', file') ←
            merge_pass runs (merge_blocks d file (record_at run.offset) run.nrecords next.nrecords)
        some (
          record { offset = run.offset; nrecords = run.nrecords + next.nrecords } ∷ runs',
          file',
        )) in
      if calls.opens && (calls.maps && calls.syncs) then rest else none

  -- The `while` loop, on fuel.
  unfoldable pub external_merge :
      ℕ → List RunBoundary → List (IndexRecord d) → Option (List (IndexRecord d))
  unfolding merge_pass
  external_merge zero runs file = none
  external_merge (suc fuel) runs file =
      if ltb 1 (length runs)
      then (do (runs', file') ← merge_pass runs file; external_merge fuel runs' file')
      else some file
