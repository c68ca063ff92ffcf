-- ===== src/RecordEditor/Generate/Laws.antt =====
-- The sample file of lab7/src/generation.c as the editor takes it.
use osisp.Prelude.{
  ℕ, zero, suc, ◌+◌, ◌-◌, ◌*◌, ◌/◌, ◌%◌, ◌^◌, ◌<◌, ◌≤◌, ◌≡◌, refl, ap, arith, List, [], ◌∷◌, ◌++◌,
  append_assoc, append-nil, Bool, true, false, ◌||◌, ◌==◌, leb, some, length, length-append,
  length-drop, take, drop,
}
use osisp.Prelude.Int.{ℤ, pos}
use osisp.Prelude.Bytes.{Bytes}
use osisp.Prelude.Decimal.{
  padded, number_from, number_from-padded, length-padded, AreDigits, padded-AreDigits,
}
use osisp.RecordEditor.Record.{FileRecord, name_len, addr_len}
use osisp.RecordEditor.Get.{c_string}
use osisp.RecordEditor.Get.Fields.{IsSemester}
use osisp.RecordEditor.Loop.{record_size, count_records}
use osisp.RecordEditor.Generate.{
  snprintf, student, address_word, filled, write_records, written, generate_file,
}

-- No newline and no NUL.
unfoldable pub IsString : Bytes → Type 0
IsString [] = Unit
IsString (c ∷ s) = (10 < c) × IsString s

c_string-append : (s rest : Bytes) → IsString s → c_string (s ++ 0 ∷ rest) ≡ s
unfolding c_string IsString
c_string-append [] rest h = refl
c_string-append (c ∷ s) rest h =
    let goes_on : ((c == 10) || (c == 0)) ≡ false = let big = h.0 in ground (arith, big) in
    rw (goes_on, c_string-append s rest h.1) refl

AreDigits-IsString : (s : Bytes) → AreDigits s → IsString s
unfolding AreDigits IsString
AreDigits-IsString [] h = tt
AreDigits-IsString (c ∷ s) h = let low = h.0 in (omega (arith, low), AreDigits-IsString s h.2)

take-whole : (n : ℕ) (s : Bytes) → length s ≤ n → take n s ≡ s
take-whole zero [] h = refl
take-whole zero (c ∷ s) h = absurd (omega arith)
take-whole (suc n) [] h = refl
take-whole (suc n) (c ∷ s) h = ap (λ x. c ∷ x) (take-whole n s (omega arith))

-- A text that fits is read back from the array, whose length stays.
snprintf-c_string :
    (size : ℕ) (text old : Bytes)
    → IsString text
    → length text < size
    → c_string (snprintf size text old) ≡ text
unfolding snprintf
snprintf-c_string size text old h fits =
    let whole : take (size - 1) text ≡ text = take-whole (size - 1) text (omega arith) in
    rw whole (c_string-append text (drop (length text + 1) old) h)

length-snprintf :
    (size : ℕ) (text old : Bytes)
    → length text < size
    → length old ≡ size
    → length (snprintf size text old) ≡ size
unfolding snprintf
length-snprintf size text old fits e =
    let whole : take (size - 1) text ≡ text = take-whole (size - 1) text (omega arith) in
    rw whole (
      omega (
        arith,
        length-append text (0 ∷ drop (length text + 1) old),
        length-drop (length text + 1) old,
      ))

-- The arrays of a record have their sizes.
pub record IsSized (r : FileRecord) : Type 0 where
  pub name : length r.name ≡ name_len
  pub address : length r.address ≡ addr_len

-- The record number `i`.
pub record IsSample (i : ℕ) (r : FileRecord) : Type 0 where
  pub sized : IsSized r
  pub name : c_string r.name ≡ student ++ padded i
  pub number : number_from 0 (drop 7 (c_string r.name)) ≡ i
  pub address : c_string r.address ≡ address_word ++ padded i
  pub semester : IsSemester r.semester

unfoldable pub AreSamples : ℕ → List FileRecord → Type 0
AreSamples i [] = Unit
AreSamples i (r ∷ rs) = IsSample i r × AreSamples (i + 1) rs

filled-IsSample : (i : ℕ) (r : FileRecord) → i < 2 ^ 63 → IsSized r → IsSample i (filled i r)
unfolding filled IsString
filled-IsSample i r h sized =
    let digits : IsString (padded i) = AreDigits-IsString (padded i) (padded-AreDigits i) in
    let name_text : IsString (student ++ padded i) = (
      omega arith,
      (
        omega arith,
        (omega arith, (omega arith, (omega arith, (omega arith, (omega arith, digits))))),
      ),
    ) in
    let address_text : IsString (address_word ++ padded i) = (
      omega arith,
      (
        omega arith,
        (omega arith, (omega arith, (omega arith, (omega arith, (omega arith, digits))))),
      ),
    ) in
    let short : length (padded i) ≤ 19 = length-padded i h in
    let read : c_string (snprintf name_len (student ++ padded i) r.name) ≡ student ++ padded i =
      snprintf-c_string name_len (student ++ padded i) r.name name_text (omega arith) in
    record {
      sized = record {
        name = length-snprintf name_len (student ++ padded i) r.name (omega arith) sized.name;
        address =
            length-snprintf addr_len (address_word ++ padded i) r.address (omega arith)
              sized.address;
      };
      name = read;
      number = rw read (number_from-padded i);
      address =
          snprintf-c_string addr_len (address_word ++ padded i) r.address address_text
            (omega arith);
      semester = (omega arith, omega arith);
    }

-- The records that the loop adds.
samples : ℕ → ℕ → FileRecord → List FileRecord
samples zero i r = []
samples (suc n) i r = filled i r ∷ samples n (i + 1) (filled i r)

write_records-samples :
    (writes : ℕ → Bool) (n i : ℕ) (r : FileRecord) (file : List FileRecord)
    → ((k : ℕ) → writes k ≡ true)
    → write_records writes n i r file ≡ (file ++ samples n i r, true)
unfolding write_records samples
write_records-samples writes zero i r file h = rw (append-nil file) refl
write_records-samples writes (suc n) i r file h =
    rw
      (
        h i,
        write_records-samples writes n (i + 1) (filled i r) (file ++ filled i r ∷ []) h,
        append_assoc file (filled i r ∷ []) (samples n (i + 1) (filled i r)),
      )
      refl

length-samples : (n i : ℕ) (r : FileRecord) → length (samples n i r) ≡ n
unfolding samples
length-samples zero i r = refl
length-samples (suc n) i r = ap suc (length-samples n (i + 1) (filled i r))

samples-AreSamples :
    (n i : ℕ) (r : FileRecord) → i + n ≤ 2 ^ 63 → IsSized r → AreSamples i (samples n i r)
unfolding samples AreSamples
samples-AreSamples zero i r h sized = tt
samples-AreSamples (suc n) i r h sized =
    let first : IsSample i (filled i r) = filled-IsSample i r (omega arith) sized in
    (first, samples-AreSamples n (i + 1) (filled i r) (omega arith) first.sized)

-- With two arguments, of which the second is a number from 10 up to 2^63, and successful calls: the
-- program writes a file whose size the editor accepts as that number of records. In order they read
-- `Student` and `Address` with the record's number, from which the number is read back, and each has a
-- semester that the editor would accept.
pub generate_file-count_records :
    (writes : ℕ → Bool) (r : FileRecord) (strtol : Bytes → ℤ × Bytes) (filename number : Bytes)
    (n : ℕ)
    → ((k : ℕ) → writes k ≡ true)
    → IsSized r
    → strtol number ≡ (pos n, [])
    → 10 ≤ n
    → n ≤ 2 ^ 63
    → (file : List FileRecord) × (generate_file true true writes r strtol (filename ∷ number ∷ [])
        ≡ written file)
      × (count_records (length file * record_size) ≡ some n)
      × AreSamples 0 file
unfolding generate_file count_records
generate_file-count_records writes r strtol filename number n all sized e enough long =
    let accepted : leb 10 n ≡ true = ground arith in
    let no_rest : ((n * record_size) % record_size == 0) ≡ true = ground arith in
    let count : (n * record_size) / record_size ≡ n = omega arith in
    (
      samples n 0 r,
      rw (e, accepted, write_records-samples writes n 0 r [] all) refl,
      rw (length-samples n 0 r, no_rest, count) refl,
      samples-AreSamples n 0 r (omega arith) sized,
    )
