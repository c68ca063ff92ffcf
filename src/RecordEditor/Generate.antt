-- ===== src/RecordEditor/Generate.antt =====
-- lab7/src/generation.c: the sample file for the editor. strtol, and whether fopen, each fwrite and the
-- flush succeed, are parameters. A field is the bytes of its array.
pub mod Laws
mod Tests
use osisp.Prelude.{
  ℕ, zero, suc, ◌+◌, ◌-◌, ◌%◌, ◌^◌, List, [], ◌∷◌, ◌++◌, Bool, true, false, not, ◌&&◌, leb,
  if◌then◌else◌, length, take, drop,
}
use osisp.Prelude.Int.{ℤ, pos, negsuc}
use osisp.Prelude.Bytes.{Bytes}
use osisp.Prelude.Decimal.{padded}
use osisp.RecordEditor.Record.{FileRecord, name_len, addr_len}

-- `snprintf` into an array with those bytes: the text, cut off, and a NUL; what stands behind stays.
unfoldable pub snprintf : ℕ → Bytes → Bytes → Bytes
snprintf size text old =
    let cut : Bytes = take (size - 1) text in cut ++ 0 ∷ drop (length cut + 1) old

-- `Student` and `Address`
abbrev pub student : Bytes
student = b'S' ∷ b't' ∷ b'u' ∷ b'd' ∷ b'e' ∷ b'n' ∷ b't' ∷ []

abbrev pub address_word : Bytes
address_word = b'A' ∷ b'd' ∷ b'd' ∷ b'r' ∷ b'e' ∷ b's' ∷ b's' ∷ []

-- The body of the loop: `rec` is used again for every record.
unfoldable pub filled : ℕ → FileRecord → FileRecord
unfolding snprintf
filled i r = record {
  name = snprintf name_len (student ++ padded i) r.name;
  address = snprintf addr_len (address_word ++ padded i) r.address;
  semester = (i % 8 + 1) % 2 ^ 8;
}

-- The loop with `n` records left, from the number `i`; `writes i` is whether that `fwrite` succeeds.
-- The file, and whether the loop came to its end.
unfoldable pub write_records :
    (ℕ → Bool) → ℕ → ℕ → FileRecord → List FileRecord → List FileRecord × Bool
unfolding filled
write_records writes zero i r file = (file, true)
write_records writes (suc n) i r file =
    let rest = write_records writes n (i + 1) (filled i r) (file ++ filled i r ∷ []) in
    if writes i then rest else (file, false)

-- How `main` ends: by `usage`, with a bad number, without a file, with a part of it, or with all.
pub data Outcome : Type 0 where
  usage refused unopened : Outcome
  partial written : List FileRecord → Outcome

abbrev pub flushed : Bool → List FileRecord × Bool → Outcome
flushed flushes (file, true) = if flushes then written file else partial file
flushed flushes (file, false) = partial file

module _ (opens flushes : Bool) (writes : ℕ → Bool) (r : FileRecord) where
  abbrev pub on_number : ℤ × Bytes → Outcome
  on_number (pos n, []) =
      let made : Outcome =
        if opens then flushed flushes (write_records writes n 0 r []) else unopened in
      if leb 10 n then made else refused
  on_number (pos n, c ∷ rest) = refused
  on_number (negsuc n, rest) = refused

  -- `main` on the arguments behind the program's name; `r` is `rec` before it is filled.
  unfoldable pub generate_file : (Bytes → ℤ × Bytes) → List Bytes → Outcome
  unfolding write_records
  generate_file strtol (filename ∷ number ∷ []) = on_number (strtol number)
  generate_file strtol _ = usage
