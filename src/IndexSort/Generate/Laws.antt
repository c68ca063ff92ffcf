-- ===== src/IndexSort/Generate/Laws.antt =====
-- What is generated, sorted and shown.
use mathlib.Core.List.{Perm}
use osisp.Prelude.{
  ℕ, zero, suc, ◌+◌, ◌*◌, ◌%◌, ◌^◌, ◌<◌, ◌≤◌, ◌≡◌, refl, ap, sym, ◌∙◌, subst, List, [], ◌∷◌, false,
  some, length, ◌==◌, arith,
}
use Prim.Native.Nat.{min}
use osisp.IndexSort.Record.{Double, IndexRecord}
use osisp.IndexSort.Merge.Laws.{IsSorted}
use osisp.IndexSort.Portion.{Qsort, Calls, header_size, record_size}
use osisp.IndexSort.Portion.Blocks.{perm-length}
use osisp.IndexSort.Portion.Laws.{AllSucceed}
use osisp.IndexSort.Program.{main}
use osisp.IndexSort.Program.Sorted.{main_lem}
use osisp.IndexSort.Generate.{IndexFile, fill_records, generate, shown, view}

module _ (d : Double) where
  open d use {Time}

  shown_all : (rs : List (IndexRecord d)) → shown d (length rs) rs ≡ rs
  unfolding shown
  shown_all [] = refl
  shown_all (r ∷ rs) = ap (◌∷◌ r) (shown_all rs)

  -- A file whose header counts its records is shown whole.
  view_whole :
      (n : ℕ) (rs : List (IndexRecord d))
      → length rs ≡ n
      → view d (record { header = n; records = rs }) ≡ rs
  unfolding view
  view_whole n rs e = ap (λ k. shown d k rs) (sym e) ∙ shown_all rs

  length-fill_records : (draw : ℕ → Time) (n i : ℕ) → length (fill_records d draw n i) ≡ n
  unfolding fill_records
  length-fill_records draw zero i = refl
  length-fill_records draw (suc n) i = ap suc (length-fill_records draw n (i + 1))

  -- For a count that is a positive multiple of 256, generation succeeds and its file is shown whole:
  -- sorting it in between, with valid arguments, threads, a memory size above 0, a first portion that
  -- divides into the blocks and successful calls, shows the same records in order.
  pub generate-main-view :
      (q : Qsort d) (calls : Calls) (ok : AllSucceed calls) (draw : ℕ → Time)
      (pagesize memsize full k threads size n : ℕ)
      → 0 < n
      → n % 256 ≡ 0
      → memsize % pagesize ≡ 0
      → memsize ≡ full * record_size
      → 0 < full
      → 0 < threads
      → threads * 4 ≤ 2 ^ k
      → min full n ≡ 2 ^ k * size
      → (file : IndexFile d) × (sorted : List (IndexRecord d)) × (generate d draw n ≡ some file)
        × (view d file ≡ fill_records d draw n 0)
        × (main d q calls pagesize memsize
              (2 ^ k)
              threads
              (header_size + n * record_size)
              file.records
            ≡ some sorted)
        × IsSorted d (view d (record file { records = sorted }))
        × Perm (view d (record file { records = sorted })) (view d file)
  unfolding generate
  generate-main-view q calls ok draw pagesize memsize full k threads size n hn h256 hp hm hf ht hb
        hd =
      let rs : List (IndexRecord d) = fill_records d draw n 0 in
      let len : length rs ≡ n = length-fill_records draw n 0 in
      let (sorted, ran, ordered, same) =
        main_lem d q calls ok pagesize memsize full k threads size rs hp hm hf ht hb
          (ap (min full) len ∙ hd) in
      let some_records : (n == 0) ≡ false = ground arith in
      let whole : view d (record { header = n; records = sorted }) ≡ sorted =
        view_whole n sorted (perm-length same ∙ len) in
      let shown_before : view d (record { header = n; records = rs }) ≡ rs = view_whole n rs len in
      (
        record { header = n; records = rs },
        sorted,
        rw (some_records, h256) refl,
        shown_before,
        subst
            (λ m.
              main d q calls pagesize memsize (2 ^ k) threads (header_size + m * record_size) rs
              ≡ some sorted)
            len ran,
        rw whole ordered,
        rw (whole, shown_before) same,
      )
