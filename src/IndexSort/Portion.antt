-- ===== src/IndexSort/Portion.antt =====
-- `process_portion` of lab6/src/sort_index.c on the records of one portion.
-- The passes of the threads are taken in block order (IndexSort.Workers has them in any order); `qsort` is a
-- parameter; the system calls and allocations succeed or fail as `Calls` says.
pub mod Blocks
pub mod Laws
use mathlib.Core.List.{Perm}
use osisp.Prelude.{
  ℕ, zero, suc, ◌+◌, ◌-◌, ◌*◌, ◌/◌, ◌%◌, ◌<◌, List, [], ◌∷◌, ◌++◌, Bool, true, false, not, ◌&&◌,
  ◌||◌, Option, none, some, take, drop, ltb, ◌==◌, if◌then◌else◌,
}
use osisp.Prelude.OptionMonad.{◌>>=◌}
use osisp.IndexSort.Record.{Double, IndexRecord}
use osisp.IndexSort.Merge.{merge_into}
use osisp.IndexSort.Merge.Laws.{IsSorted}

-- What the C standard says of `qsort` with `cmp_index`: the same records in order.
pub record Qsort (d : Double) : Type 0 where
  pub qsort : List (IndexRecord d) → List (IndexRecord d)
  pub qsort-IsSorted : (xs : List (IndexRecord d)) → IsSorted d (qsort xs)
  pub qsort-perm : (xs : List (IndexRecord d)) → Perm (qsort xs) xs

-- Which calls succeed: `merges k` is the allocation and thread creation of the round with `k` blocks.
pub record Calls : Type 0 where
  pub opens : Bool
  pub maps : Bool
  pub sorts : Bool
  pub merges : ℕ → Bool
  pub syncs : Bool
  pub unmaps : Bool

-- `sizeof(uint64_t)` and `sizeof(index_record)`
abbrev pub header_size : ℕ
header_size = 8

abbrev pub record_size : ℕ
record_size = 16

-- `recs_in_portion`, with the guards of both cases
abbrev pub recs_in_portion : ℕ → ℕ → Option ℕ
recs_in_portion zero portion_bytes =
    if ltb portion_bytes header_size
    then none
    else some ((portion_bytes - header_size) / record_size)
recs_in_portion (suc offset) portion_bytes =
    if not (portion_bytes % record_size == 0) then none else some (portion_bytes / record_size)

module _ (d : Double) where
  -- All calls of `thread_merge`: `records` starts at the next pair of blocks.
  unfoldable pub merge_pairs : ℕ → ℕ → List (IndexRecord d) → List (IndexRecord d)
  unfolding merge_into
  merge_pairs block_size (suc (suc blocks)) records =
      merge_into d (take block_size records) (take block_size (drop block_size records)) []
      ++ merge_pairs block_size blocks (drop block_size (drop block_size records))
  merge_pairs block_size _ records = records

  -- A pass with no threads does nothing.
  abbrev pub with_threads :
      ℕ
      → (List (IndexRecord d) → List (IndexRecord d))
      → List (IndexRecord d)
      → List (IndexRecord d)
  with_threads zero pass records = records
  with_threads (suc n) pass records = pass records

  -- `while (current_block_count > 1)` on fuel: the records and the last `g_block_count`.
  unfoldable pub merge_rounds :
      Calls → ℕ → ℕ → ℕ → ℕ → List (IndexRecord d) → Option (List (IndexRecord d) × ℕ)
  unfolding merge_pairs
  merge_rounds calls zero threads block_size blocks records = none
  merge_rounds calls (suc fuel) threads block_size blocks records =
      let rest : Option (List (IndexRecord d) × ℕ) =
        merge_rounds calls fuel threads (block_size * 2) (blocks / 2)
          (with_threads threads (merge_pairs block_size blocks) records) in
      if not (ltb 1 blocks)
      then some (records, blocks)
      else if calls.merges blocks
      then rest
      else none

  -- What `process_portion` leaves behind when it returns 0.
  pub record Processed : Type 0 where
    pub records : List (IndexRecord d)
    pub portion_records : ℕ
    pub block_count : ℕ

  -- `msync` to the end
  abbrev pub finish_portion : Calls → ℕ → Option (List (IndexRecord d) × ℕ) → Option Processed
  finish_portion calls recs none = none
  finish_portion calls recs (some (records, block_count)) =
      if calls.syncs && calls.unmaps
      then some (record { records = records; portion_records = recs; block_count = block_count })
      else none

module _ (d : Double) (q : Qsort d) where
  open q use {qsort}

  -- All calls of `thread_sort`: `records` starts at the next block.
  unfoldable pub sort_blocks : ℕ → ℕ → List (IndexRecord d) → List (IndexRecord d)
  sort_blocks block_size zero records = records
  sort_blocks block_size (suc blocks) records =
      qsort (take block_size records) ++ sort_blocks block_size blocks (drop block_size records)

  -- From the test on the block count to the end.
  unfoldable pub sort_portion : Calls → ℕ → ℕ → ℕ → List (IndexRecord d) → ℕ → Option (Processed d)
  unfolding merge_rounds sort_blocks
  sort_portion calls fuel block_count threads records recs =
      if not (recs % block_count == 0)
      then none
      else if not calls.sorts
      then none
      else finish_portion d calls recs (
          merge_rounds d calls fuel threads (recs / block_count) block_count
            (with_threads d threads (sort_blocks (recs / block_count) block_count) records))

  -- `records` are the records from the portion's first on, `g_block_count` is at least 1, and fuel
  -- is for the merge loop.
  unfoldable pub process_portion :
      Calls → ℕ → ℕ → ℕ → List (IndexRecord d) → ℕ → ℕ → Option (Processed d)
  unfolding sort_portion
  process_portion calls fuel block_count threads records current_offset portion_bytes =
      if calls.opens && calls.maps
      then (recs_in_portion current_offset portion_bytes
          >>= sort_portion calls fuel block_count threads records)
      else none
