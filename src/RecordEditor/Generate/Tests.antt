-- ===== src/RecordEditor/Generate/Tests.antt =====
-- A sample file of ten records, from an array that holds other bytes before.
use osisp.Prelude.{ℕ, ◌≡◌, refl, arith, List, [], ◌∷◌, ◌*◌, Bool, true, some, length, replicate}
use osisp.Prelude.Int.{ℤ, pos}
use osisp.Prelude.Bytes.{Bytes}
use osisp.Prelude.Decimal.{padded, decimal}
use osisp.RecordEditor.Record.{FileRecord}
use osisp.RecordEditor.Loop.{record_size, count_records}
use osisp.RecordEditor.Generate.{written, usage, generate_file}
use osisp.RecordEditor.Generate.Laws.{AreSamples, generate_file-count_records}

abbrev before : FileRecord
before = record { name = replicate 80 7; address = replicate 80 7; semester = 0 }

always : ℕ → Bool
always k = true

ten : Bytes → ℤ × Bytes
ten number = (pos 10, [])

generate_file-count_records_example :
    (file : List FileRecord) × (generate_file true true always before ten
        ((b's' ∷ []) ∷ (b'1' ∷ b'0' ∷ []) ∷ [])
      ≡ written file)
    × (count_records (length file * record_size) ≡ some 10)
    × AreSamples 0 file
unfolding always ten
generate_file-count_records_example =
    generate_file-count_records always before ten (b's' ∷ []) (b'1' ∷ b'0' ∷ []) 10 (λ k. refl)
      (record { name = refl; address = refl }) refl (omega arith) (omega arith)

no_number : generate_file true true always before ten ((b's' ∷ []) ∷ []) ≡ usage
unfolding generate_file
no_number = refl

seven : padded 7 ≡ 48 ∷ 48 ∷ 55 ∷ []
unfolding padded decimal
seven = refl
