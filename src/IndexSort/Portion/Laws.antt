-- ===== src/IndexSort/Portion/Laws.antt =====
-- `process_portion` sorts a portion, and what it does without threads.
use mathlib.Core.List.{Perm}
use mathlib.Core.List.Perm
use native.Mathlib.Nat.{mul-mod_right, mul-div_cancel_left}
use osisp.Prelude.{
  ℕ, suc, ◌*◌, ◌/◌, ◌%◌, ◌^◌, ◌<◌, ◌≡◌, refl, ap, ◌∙◌, List, true, some, length, arith,
}
use osisp.IndexSort.Record.{Double, IndexRecord}
use osisp.IndexSort.Merge.Laws.{IsSorted}
use osisp.IndexSort.Portion.{
  Qsort, Calls, Processed, record_size, recs_in_portion, sort_blocks, merge_rounds, sort_portion,
  process_portion,
}
use osisp.IndexSort.Portion.Blocks.{
  with_threads-run, sort_blocks-IsBlocks, merge_rounds-ends, two_pow_pos,
}

pub record AllSucceed (calls : Calls) : Type 0 where
  pub opens_ok : calls.opens ≡ true
  pub maps_ok : calls.maps ≡ true
  pub sorts_ok : calls.sorts ≡ true
  pub merges_ok : (n : ℕ) → calls.merges n ≡ true
  pub syncs_ok : calls.syncs ≡ true
  pub unmaps_ok : calls.unmaps ≡ true

recs_in_portion-exact : (offset n : ℕ) → recs_in_portion (suc offset) (n * record_size) ≡ some n
recs_in_portion-exact offset n =
    let a : n * 16 % 16 ≡ 0 = omega arith in let b : n * 16 / 16 ≡ n = omega arith in ground arith

module _ (d : Double) (q : Qsort d) where
  process_portion-eq :
      (calls : Calls) (fuel blocks threads size offset : ℕ) (rs rs' : List (IndexRecord d))
      → AllSucceed calls
      → 0 < threads
      → length rs % blocks ≡ 0
      → length rs / blocks ≡ size
      → merge_rounds d calls fuel threads size blocks (sort_blocks d q size blocks rs)
        ≡ some (rs', 1)
      → process_portion d q calls fuel blocks threads rs (suc offset) (length rs * record_size)
        ≡ some (record { records = rs'; portion_records = length rs; block_count = 1 })
  unfolding process_portion sort_portion
  process_portion-eq calls fuel blocks threads size offset rs rs' ok ht divides quotient ends =
      rw
        (
          recs_in_portion-exact offset (length rs),
          divides,
          quotient,
          with_threads-run d threads (sort_blocks d q size blocks) rs ht,
          ends,
          ok.opens_ok,
          ok.maps_ok,
          ok.sorts_ok,
          ok.syncs_ok,
          ok.unmaps_ok,
        )
        refl

  -- With a thread at least and every call successful, a portion behind the header whose records
  -- divide into `2 ^ k` blocks is sorted: `process_portion` ends with fuel above `k`, the records
  -- are the same ones in order, their number is reported, and the block count is 1 afterwards.
  pub process_portion_lem :
      (calls : Calls) (fuel k threads size offset : ℕ) (rs : List (IndexRecord d))
      → AllSucceed calls
      → 0 < threads
      → k < fuel
      → length rs ≡ 2 ^ k * size
      → (p : Processed d) × (process_portion d q calls fuel
            (2 ^ k)
            threads
            rs
            (suc offset)
            (length rs * record_size)
          ≡ some p)
        × IsSorted d p.records
        × Perm p.records rs
        × (p.portion_records ≡ length rs)
        × (p.block_count ≡ 1)
  process_portion_lem calls fuel k threads size offset rs ok ht hf e =
      let (blocks, same) = sort_blocks-IsBlocks d q size (2 ^ k) rs e in
      let (rs', ends, sorted, same') =
        merge_rounds-ends d calls threads k fuel size (sort_blocks d q size (2 ^ k) rs) ht
          ok.merges_ok hf blocks in
      let divides : length rs % 2 ^ k ≡ 0 = ap (λ n. n % 2 ^ k) e ∙ mul-mod_right (2 ^ k) size in
      let quotient : length rs / 2 ^ k ≡ size =
        ap (λ n. n / 2 ^ k) e ∙ mul-div_cancel_left size (two_pow_pos k) in
      (
        record { records = rs'; portion_records = length rs; block_count = 1 },
        process_portion-eq calls fuel (2 ^ k) threads size offset rs rs' ok ht divides quotient
            ends,
        sorted,
        Perm.trans same' same,
        refl,
        refl,
      )
