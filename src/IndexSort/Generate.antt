-- ===== src/IndexSort/Generate.antt =====
-- lab6/src/generation.c and lab6/src/view.c: the index file, its generation and what is shown of it.
-- The conversion of a value of `rand` to a time is a parameter, and writing and reading succeed
-- up to the end of the file.
pub mod Laws
use osisp.Prelude.{
  ℕ, zero, suc, ◌+◌, ◌%◌, List, [], ◌∷◌, not, ◌||◌, Option, none, some, ◌==◌, if◌then◌else◌,
}
use osisp.IndexSort.Record.{Double, IndexRecord}

module _ (d : Double) where
  open d use {Time}

  pub record IndexFile : Type 0 where
    pub header : ℕ
    pub records : List (IndexRecord d)

  -- The loop of gen: `n` records are left from index `i` on, and `draw i` is the time drawn for it.
  unfoldable pub fill_records : (ℕ → Time) → ℕ → ℕ → List (IndexRecord d)
  fill_records draw zero i = []
  fill_records draw (suc n) i =
      record { recno = i + 1; time_mark = draw i } ∷ fill_records draw n (i + 1)

  unfoldable pub generate : (ℕ → Time) → ℕ → Option IndexFile
  unfolding fill_records
  generate draw records_count =
      if (records_count == 0) || not (records_count % 256 == 0)
      then none
      else some (record { header = records_count; records = fill_records draw records_count 0 })

  -- The records that view prints, up to the first that cannot be read.
  unfoldable pub shown : ℕ → List (IndexRecord d) → List (IndexRecord d)
  shown zero records = []
  shown (suc count) [] = []
  shown (suc count) (rec ∷ records) = rec ∷ shown count records

  unfoldable pub view : IndexFile → List (IndexRecord d)
  unfolding shown
  view file = shown file.header file.records
