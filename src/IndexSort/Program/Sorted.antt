-- ===== src/IndexSort/Program/Sorted.antt =====
-- With valid arguments `main` sorts the file.
use mathlib.Core.List.{Perm}
use mathlib.Core.List.Perm
use native.Mathlib.Nat.{le-div_iff_mul-le}
use osisp.Prelude.{
  ℕ, suc, ◌+◌, ◌-◌, ◌*◌, ◌/◌, ◌%◌, ◌^◌, ◌≤◌, ◌<◌, ◌≡◌, refl, ap, ◌∙◌, List, [], ◌∷◌, true, false,
  ltb, lt→ltb, ◌==◌, some, length, if◌then◌else◌, arith,
}
use Prim.Native.Nat.{min}
use osisp.IndexSort.Record.{Double, IndexRecord}
use osisp.IndexSort.Merge.Laws.{IsSorted}
use osisp.IndexSort.Portion.{Qsort, Calls, header_size, record_size}
use osisp.IndexSort.Portion.Laws.{AllSucceed}
use osisp.IndexSort.Runs.{RunBoundary, external_merge}
use osisp.IndexSort.Runs.Laws.{external_merge_lem}
use osisp.IndexSort.Program.{main}
use osisp.IndexSort.Program.Arguments.{valid_arguments-power}
use osisp.IndexSort.Program.Laws.{sort_portions-covers}

-- `max_runs` is enough for portions of `full` records.
max_runs-enough :
    (full memsize total : ℕ)
    → 0 < full
    → memsize ≡ full * record_size
    → (n : ℕ) → n * full < total
    → n < (header_size + total * record_size - header_size + memsize - 1) / memsize
max_runs-enough full memsize total hf hm n h =
    let e : (n + 1) * memsize ≡ n * full * 16 + full * 16 =
      ap (λ m. (n + 1) * m) hm ∙ grind arith in
    let bound =
      (le-div_iff_mul-le {k = memsize} {x = n + 1}
          {y = header_size + total * record_size - header_size + memsize - 1} (omega (arith, hm))).1
        (omega (arith, e, hm)) in
    omega (arith, bound)

has_header : (n : ℕ) → ltb (header_size + n * record_size) header_size ≡ false
has_header n = ground arith

has_memory : (memsize full : ℕ) → memsize ≡ full * record_size → 0 < full → (memsize == 0) ≡ false
has_memory memsize full e h = ground arith

-- `external_merge` would also leave one run as it is.
external_merge-if :
    (d : Double) (calls : Calls) (runs : List RunBoundary) (file : List (IndexRecord d))
    → (if ltb 1 (length runs)
        then external_merge d calls (suc (length runs)) runs file
        else some file)
      ≡ external_merge d calls (suc (length runs)) runs file
unfolding external_merge
external_merge-if d calls [] file = refl
external_merge-if d calls (run ∷ []) file = refl
external_merge-if d calls (run ∷ next ∷ runs) file =
    let more : ltb 1 (length (run ∷ next ∷ runs)) ≡ true = lt→ltb _ _ (omega arith) in rw more refl

module _ (d : Double) (q : Qsort d) (calls : Calls) (ok : AllSucceed calls) where
  -- With valid arguments, threads and a memory size above 0, whole records, and a first portion that
  -- divides into the blocks, and if every call succeeds: `main` succeeds and leaves the same records
  -- in order. Its loops end with the fuel given and no run is stored outside `runs`.
  pub main_lem :
      (pagesize memsize full k threads size : ℕ) (file : List (IndexRecord d))
      → memsize % pagesize ≡ 0
      → memsize ≡ full * record_size
      → 0 < full
      → 0 < threads
      → threads * 4 ≤ 2 ^ k
      → min full (length file) ≡ 2 ^ k * size
      → (file' : List (IndexRecord d)) × (main d q calls pagesize memsize
            (2 ^ k)
            threads
            (header_size + length file * record_size)
            file
          ≡ some file')
        × IsSorted d file'
        × Perm file' file
  unfolding main
  main_lem pagesize memsize full k threads size file hp hm hf ht hb hd =
      let valid = valid_arguments-power pagesize memsize k threads hp hb in
      let header : ltb (header_size + length file * record_size) header_size ≡ false =
        has_header (length file) in
      let memory : (memsize == 0) ≡ false = has_memory memsize full hm hf in
      let (runs, file', e, at, same) =
        sort_portions-covers d q calls ok threads memsize (header_size + length file * record_size)
          ((header_size + length file * record_size - header_size + memsize - 1) / memsize) ht full
          (length file) hf hm refl (max_runs-enough full memsize (length file) hf hm)
          (suc (header_size + length file * record_size - header_size)) k size 0 [] [] file refl
          (omega arith) (omega arith) hd (λ h. omega arith) refl in
      let (sorted_file, merged_runs, sorted, same') =
        external_merge_lem d calls ok (suc (length runs)) runs file' (omega arith) at in
      (
        sorted_file,
        rw (valid, header, memory, e) (external_merge-if d calls runs file' ∙ merged_runs),
        sorted,
        Perm.trans same' same,
      )
