-- ===== src/IndexSort/Tests.antt =====
-- Tests of lab6/src, on times that are natural numbers.
use mathlib.Core.List.{Perm}
use mathlib.Core.List.Perm
use osisp.Prelude.{ℕ, suc, ◌+◌, ◌-◌, ◌≡◌, refl, List, [], ◌∷◌, true, false, some, ltb, arith}
use osisp.Prelude.Family.{update}
use osisp.IndexSort.Record.{Double, IndexRecord, cmp_index}
use osisp.IndexSort.Merge.{merge_blocks}
use osisp.IndexSort.Merge.Laws.{IsSorted, merged, merged-IsSorted, merged-perm}
use osisp.IndexSort.Workers.{
  asking, working, left, Shared, take_block, leave, work, start, Reach, here, later,
}
use osisp.IndexSort.Workers.Laws.{all_blocks_done}
use osisp.IndexSort.Portion.{Qsort, Calls}
use osisp.IndexSort.Portion.Laws.{AllSucceed}
use osisp.IndexSort.Runs.{RunBoundary, external_merge}
use osisp.IndexSort.Program.{main}
use osisp.IndexSort.Program.Sorted.{main_lem}
use osisp.IndexSort.Generate.{IndexFile, generate, fill_records, view}
use osisp.IndexSort.Generate.Laws.{generate-main-view}

ltb_asymm : (a b : ℕ) → ltb a b ≡ true → ltb b a ≡ false
ltb_asymm a b h = ground arith

ltb_trans : (a b c : ℕ) → ltb b a ≡ false → ltb c b ≡ false → ltb c a ≡ false
ltb_trans a b c h k = ground arith

abbrev times : Double
times = record { Time = ℕ; ltd = ltb; ltd_asymm = ltb_asymm; ltd_trans = ltb_trans }

abbrev at_time : ℕ → IndexRecord times
at_time t = record { recno = 0; time_mark = t }

abbrev records_of : List ℕ → List (IndexRecord times)
records_of [] = []
records_of (t ∷ ts) = at_time t ∷ records_of ts

-- Insertion sort in the place of `qsort`.
unfoldable insertion_sort : List (IndexRecord times) → List (IndexRecord times)
unfolding merged
insertion_sort [] = []
insertion_sort (x ∷ xs) = merged times (x ∷ []) (insertion_sort xs)

insertion_sort-IsSorted : (xs : List (IndexRecord times)) → IsSorted times (insertion_sort xs)
unfolding insertion_sort
insertion_sort-IsSorted [] = tt
insertion_sort-IsSorted (x ∷ xs) =
    merged-IsSorted times (x ∷ []) (insertion_sort xs) (tt, tt) (insertion_sort-IsSorted xs)

insertion_sort-perm : (xs : List (IndexRecord times)) → Perm (insertion_sort xs) xs
unfolding insertion_sort
insertion_sort-perm [] = Perm.nil
insertion_sort-perm (x ∷ xs) =
    Perm.trans (merged-perm times (x ∷ []) (insertion_sort xs))
      (Perm.cons x (insertion_sort-perm xs))

abbrev sorter : Qsort times
sorter = record {
  qsort = insertion_sort;
  qsort-IsSorted = insertion_sort-IsSorted;
  qsort-perm = insertion_sort-perm;
}

abbrev good_calls : Calls
good_calls = record {
  opens = true;
  maps = true;
  sorts = true;
  merges = λ n. true;
  syncs = true;
  unmaps = true;
}

good_calls-AllSucceed : AllSucceed good_calls
good_calls-AllSucceed = record {
  opens_ok = refl;
  maps_ok = refl;
  sorts_ok = refl;
  merges_ok = λ n. refl;
  syncs_ok = refl;
  unmaps_ok = refl;
}

abbrev two_blocks : List (IndexRecord times)
two_blocks = records_of (9 ∷ 2 ∷ 5 ∷ 1 ∷ 7 ∷ 0 ∷ [])

merge_two_blocks : merge_blocks times two_blocks 1 2 2 ≡ records_of (9 ∷ 1 ∷ 2 ∷ 5 ∷ 7 ∷ 0 ∷ [])
unfolding merge_blocks cmp_index
merge_two_blocks = refl

abbrev run_at : ℕ → ℕ → RunBoundary
run_at offset nrecords = record { offset = offset; nrecords = nrecords }

abbrev three_runs : List RunBoundary
three_runs = run_at 8 2 ∷ run_at 40 2 ∷ run_at 72 1 ∷ []

abbrev run_records : List (IndexRecord times)
run_records = records_of (3 ∷ 8 ∷ 1 ∷ 4 ∷ 2 ∷ [])

merge_three_runs :
    external_merge times good_calls 4 three_runs run_records
    ≡ some (records_of (1 ∷ 2 ∷ 3 ∷ 4 ∷ 8 ∷ []))
unfolding external_merge cmp_index
merge_three_runs = refl

abbrev portion : List (IndexRecord times)
portion = records_of (4 ∷ 3 ∷ 2 ∷ 1 ∷ [])

abbrev index_file : List (IndexRecord times)
index_file = records_of (4 ∷ 3 ∷ 2 ∷ 1 ∷ 6 ∷ 0 ∷ [])

main_lem_example :
    (file' : List (IndexRecord times)) × (main times sorter good_calls 16 64 4 1 104 index_file
      ≡ some file')
    × IsSorted times file'
    × Perm file' index_file
main_lem_example =
    main_lem times sorter good_calls good_calls-AllSucceed 16 64 4 2 1 1 index_file refl refl
      (omega arith) (omega arith) (omega arith) refl

abbrev regions : ℕ → ℕ
regions b = b + 10

abbrev one_taken : Shared ℕ
one_taken = record { next_block = 1; region = regions; worker = update (λ i. asking) 0 (working 0) }

abbrev one_worked : Shared ℕ
one_worked = record {
  next_block = 1;
  region = update regions 0 11;
  worker = update (update (λ i. asking) 0 (working 0)) 0 asking;
}

abbrev one_left : Shared ℕ
one_left = record {
  next_block = 1;
  region = update regions 0 11;
  worker = update (update (update (λ i. asking) 0 (working 0)) 0 asking) 0 left;
}

one_block : Reach suc 1 0 1 (start suc 1 0 1 regions) one_left
one_block =
    later
      (later
        (later {t = start suc 1 0 1 regions} {u = one_taken} here
          (take_block 0 (omega arith) refl (omega arith)))
        (work 0 0 (omega arith) refl))
      (leave 0 (omega arith) refl (omega arith))

all_blocks_done_example : one_left.region 0 ≡ 11
all_blocks_done_example =
    all_blocks_done suc 1 0 1 (omega arith) one_block (λ i h. ground arith) 0 (omega arith)

-- One page holds the 256 records of the smallest file.
generate-main-view_example :
    (file : IndexFile times) × (sorted : List (IndexRecord times)) × (generate times
        (λ i. 1000 - i)
        256
      ≡ some file)
    × (view times file ≡ fill_records times (λ i. 1000 - i) 256 0)
    × (main times sorter good_calls 4096 4096 4 1 4104 file.records ≡ some sorted)
    × IsSorted times (view times (record file { records = sorted }))
    × Perm (view times (record file { records = sorted })) (view times file)
generate-main-view_example =
    generate-main-view times sorter good_calls good_calls-AllSucceed (λ i. 1000 - i) 4096 4096 256 2
      1 64 256 (omega arith) refl refl refl (omega arith) (omega arith) (omega arith) refl
