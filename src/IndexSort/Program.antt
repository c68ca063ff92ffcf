-- ===== src/IndexSort/Program.antt =====
-- `main` of lab6/src/sort_index.c from the parsed arguments on; `none` is EXIT_FAILURE.
pub mod Arguments
pub mod Laws
pub mod Sorted
use osisp.Prelude.{
  ℕ, zero, suc, ◌+◌, ◌-◌, ◌*◌, ◌/◌, ◌%◌, List, [], ◌∷◌, ◌++◌, Bool, true, false, not, ◌&&◌, ◌||◌,
  Option, none, some, length, take, drop, ltb, leb, ◌==◌, if◌then◌else◌,
}
use osisp.Prelude.OptionMonad.{◌>>=◌}
use osisp.IndexSort.Record.{Double, IndexRecord}
use osisp.IndexSort.Portion.{Qsort, Calls, Processed, process_portion, header_size, record_size}
use osisp.IndexSort.Runs.{RunBoundary, record_at, external_merge}

-- `a & b` for numbers of at most `bits` bits
unfoldable pub bit_and : ℕ → ℕ → ℕ → ℕ
bit_and zero a b = 0
bit_and (suc bits) a b = a % 2 * (b % 2) + 2 * bit_and bits (a / 2) (b / 2)

-- The tests on the arguments; `atoi` gives no negative numbers here, and `blocks` is an int.
unfoldable pub valid_arguments : ℕ → ℕ → ℕ → ℕ → Bool
unfolding bit_and
valid_arguments pagesize memsize blocks threads =
    if not (memsize % pagesize == 0)
    then false
    else if blocks == 0 || (not (bit_and 31 blocks (blocks - 1) == 0) || ltb blocks (threads * 4))
    then false
    else true

-- `portion_bytes`
abbrev pub portion_size : ℕ → ℕ → ℕ → ℕ
portion_size memsize st_size current_offset =
    if leb memsize (st_size - current_offset) then memsize else st_size - current_offset

-- What `process_portion` changes of the file: `n` records from index `at` on.
abbrev pub with_portion : {A : Type 0} → List A → ℕ → ℕ → List A → List A
with_portion file at n records = take at file ++ (records ++ drop (at + n) file)

module _ (d : Double) (q : Qsort d) (calls : Calls) (threads memsize st_size max_runs : ℕ) where
  -- The loop over the portions, on fuel: an entry of `runs` beyond `max_runs` would be a fault.
  unfoldable pub sort_portions :
      ℕ
      → ℕ
      → ℕ
      → List RunBoundary
      → List (IndexRecord d)
      → Option (List RunBoundary × List (IndexRecord d))
  unfolding process_portion
  sort_portions zero block_count current_offset runs file = none
  sort_portions (suc fuel) block_count current_offset runs file =
      let portion_bytes : ℕ = portion_size memsize st_size current_offset in
      let at : ℕ = record_at current_offset in
      let n : ℕ = portion_bytes / record_size in
      if not (ltb current_offset st_size)
      then some (runs, file)
      else if not (current_offset == header_size) && not (portion_bytes % record_size == 0)
      then none
      else (do
        p ←
            process_portion d q calls block_count block_count threads (take n (drop at file))
              current_offset portion_bytes
        runs' ←
            if ltb (length runs) max_runs
            then some
                (runs ++ record { offset = current_offset; nrecords = p.portion_records } ∷ [])
            else none
        sort_portions fuel p.block_count (current_offset + portion_bytes) runs'
            (with_portion file at n p.records))

-- `st_size` is the size of the file, header included, and `file` are its records; a memory size of 0
-- passes the tests and is then divided by, here `none`.
unfoldable pub main :
    (d : Double)
    → Qsort d
    → Calls
    → ℕ
    → ℕ
    → ℕ
    → ℕ
    → ℕ
    → List (IndexRecord d)
    → Option (List (IndexRecord d))
unfolding sort_portions external_merge valid_arguments
main d q calls pagesize memsize blocks threads st_size file =
    let data_size : ℕ = st_size - header_size in
    if not (valid_arguments pagesize memsize blocks threads)
    then none
    else if ltb st_size header_size
    then none
    else if memsize == 0
    then none
    else (do
      (runs, file') ←
          sort_portions d q calls threads memsize st_size ((data_size + memsize - 1) / memsize)
            (suc data_size) blocks header_size [] file
      if ltb 1 (length runs)
          then external_merge d calls (suc (length runs)) runs file'
          else some file')
