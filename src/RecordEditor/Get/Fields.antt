-- ===== src/RecordEditor/Get/Fields.antt =====
-- `do_get` ends and leaves a record whose fields are as fetched or well-formed.
use osisp.Prelude.{
  ℕ, suc, ◌≤◌, ◌<◌, ◌≡◌, refl, ◌⊎◌, inl, List, [], Bool, true, false, ◌&&◌, none, some, length,
  read_at, ltb, if◌then◌else◌, arith,
}
use osisp.Prelude.Int.{ℤ, pos, negsuc}
use osisp.RecordEditor.Record.{FileRecord, Editor, name_len, addr_len}
use osisp.RecordEditor.Get.{
  skip_line, c_string, strncpy, edit_loop, parse_text, at_line_end, in_semesters, parse_semester,
  with_name, with_address, with_semester, edit_semester, edit_address, edit_name, do_get,
}
use osisp.RecordEditor.Get.Laws.{skip_line-shorter, Ends, edit_loop_lem}

-- The array holds a string of one character at least, its end and zeros.
abbrev pub IsText : ℕ → List ℕ → Type 0
IsText size v = (s : List ℕ) × (v ≡ strncpy size s) × (0 < length s) × (length s < size)

abbrev pub IsSemester : ℕ → Type 0
IsSemester s = (1 ≤ s) × (s ≤ 12)

parse_text-IsText : (size : ℕ) (buf v : List ℕ) → parse_text size buf ≡ some v → IsText size v
unfolding parse_text
parse_text-IsText size buf v e = by_size (c_string buf) e
  where
    by_size :
        (s : List ℕ)
        → (if ltb 0 (length s) && ltb (length s) size then some (strncpy size s) else none) ≡ some v
        → IsText size v
    by_size s e = (s, ground (arith, e), ground (arith, e), ground (arith, e))

in_semesters-IsSemester : (s : ℤ) (v : ℕ) → in_semesters s ≡ some v → IsSemester v
in_semesters-IsSemester (pos s) v e = (ground (arith, e), ground (arith, e))
in_semesters-IsSemester (negsuc n) v e = cc e

parse_semester-IsSemester :
    (strtol : List ℕ → ℤ × List ℕ) (buf : List ℕ) (v : ℕ)
    → parse_semester strtol buf ≡ some v
    → IsSemester v
unfolding parse_semester
parse_semester-IsSemester strtol buf v e = by_end (at_line_end (strtol buf).1) (strtol buf).0 e
  where
    by_end : (b : Bool) (s : ℤ) → (if b then in_semesters s else none) ≡ some v → IsSemester v
    by_end true s e = in_semesters-IsSemester s v e
    by_end false s e = cc e

-- The record with other fields.
abbrev with_fields : Editor → List ℕ → List ℕ → ℕ → Editor
with_fields e n a s = with_semester (with_address (with_name e n) a) s

module _ (strtol : List ℕ → ℤ × List ℕ) (fuel : ℕ) where
  edit_semester_lem :
      (e : Editor) (stdin : List ℕ)
      → length stdin < fuel
      → (v : ℕ) × (rest : List ℕ) × (edit_semester strtol fuel e stdin
          ≡ some (with_semester e v, rest))
        × ((v ≡ e.work_rec.semester) ⊎ IsSemester v)
  unfolding edit_semester
  edit_semester_lem e stdin hf = go (
      edit_loop_lem IsSemester addr_len (parse_semester strtol) (parse_semester-IsSemester strtol)
        fuel e.work_rec.semester stdin (omega arith) hf)
    where
      go :
          Ends IsSemester addr_len
            (parse_semester strtol)
            (parse_semester-IsSemester strtol)
            e.work_rec.semester
            stdin
            (edit_loop addr_len (parse_semester strtol) fuel e.work_rec.semester stdin)
          → (v : ℕ) × (rest : List ℕ) × (edit_semester strtol fuel e stdin
              ≡ some (with_semester e v, rest))
            × ((v ≡ e.work_rec.semester) ⊎ IsSemester v)
      go ((v, none), p, ok, shorter) = (v, [], rw p refl, ok)
      go ((v, some rest), p, ok, shorter) = (v, rest, rw p refl, ok)

  edit_address_lem :
      (e : Editor) (stdin : List ℕ)
      → length stdin < fuel
      → (a : List ℕ) × (v : ℕ) × (rest : List ℕ) × (edit_address strtol fuel e stdin
          ≡ some (with_semester (with_address e a) v, rest))
        × ((a ≡ e.work_rec.address) ⊎ IsText addr_len a)
        × ((v ≡ e.work_rec.semester) ⊎ IsSemester v)
  unfolding edit_address
  edit_address_lem e stdin hf = go (
      edit_loop_lem (IsText addr_len) addr_len (parse_text addr_len) (parse_text-IsText addr_len)
        fuel e.work_rec.address stdin (omega arith) hf)
    where
      go :
          Ends
            (IsText addr_len)
            addr_len
            (parse_text addr_len)
            (parse_text-IsText addr_len)
            e.work_rec.address
            stdin
            (edit_loop addr_len (parse_text addr_len) fuel e.work_rec.address stdin)
          → (a : List ℕ) × (v : ℕ) × (rest : List ℕ) × (edit_address strtol fuel e stdin
              ≡ some (with_semester (with_address e a) v, rest))
            × ((a ≡ e.work_rec.address) ⊎ IsText addr_len a)
            × ((v ≡ e.work_rec.semester) ⊎ IsSemester v)
      go ((a, none), p, ok, shorter) = (a, e.work_rec.semester, [], rw p refl, ok, inl refl)
      go ((a, some rest), p, ok, shorter) =
          let h = shorter rest refl in
          let (v, rest', p', ok') = edit_semester_lem (with_address e a) rest (omega (arith, h)) in
          (a, v, rest', rw p p', ok, ok')

  pub edit_name_lem :
      (e : Editor) (stdin : List ℕ)
      → length stdin < fuel
      → (n : List ℕ) × (a : List ℕ) × (v : ℕ) × (rest : List ℕ) × (edit_name strtol fuel e stdin
          ≡ some (with_fields e n a v, rest))
        × ((n ≡ e.work_rec.name) ⊎ IsText name_len n)
        × ((a ≡ e.work_rec.address) ⊎ IsText addr_len a)
        × ((v ≡ e.work_rec.semester) ⊎ IsSemester v)
  unfolding edit_name
  edit_name_lem e stdin hf = go (
      edit_loop_lem (IsText name_len) addr_len (parse_text name_len) (parse_text-IsText name_len)
        fuel e.work_rec.name stdin (omega arith) hf)
    where
      go :
          Ends
            (IsText name_len)
            addr_len
            (parse_text name_len)
            (parse_text-IsText name_len)
            e.work_rec.name
            stdin
            (edit_loop addr_len (parse_text name_len) fuel e.work_rec.name stdin)
          → (n : List ℕ) × (a : List ℕ) × (v : ℕ) × (rest : List ℕ) × (edit_name strtol fuel e stdin
              ≡ some (with_fields e n a v, rest))
            × ((n ≡ e.work_rec.name) ⊎ IsText name_len n)
            × ((a ≡ e.work_rec.address) ⊎ IsText addr_len a)
            × ((v ≡ e.work_rec.semester) ⊎ IsSemester v)
      go ((n, none), p, ok, shorter) =
          (n, e.work_rec.address, e.work_rec.semester, [], rw p refl, ok, inl refl, inl refl)
      go ((n, some rest), p, ok, shorter) =
          let h = shorter rest refl in
          let (a, v, rest', p', ok', ok'') =
            edit_address_lem (with_name e n) rest (omega (arith, h)) in
          (n, a, v, rest', rw p p', ok, ok', ok'')

-- On the number of a record of the file, with a line end in the input, `do_get` ends: the fetched
-- record is kept for the conflict check, and each field of the edited copy is the fetched one, or a
-- terminated string that fits (name, address) or a number from 1 to 12 (semester).
pub do_get_lem :
    (strtol : List ℕ → ℤ × List ℕ) (file : List FileRecord) (n : ℕ) (r : FileRecord)
    (stdin line : List ℕ) (e : Editor)
    → read_at file n ≡ some r
    → skip_line stdin ≡ some line
    → (e' : Editor) × (rest : List ℕ) × (do_get strtol file (some (pos n)) stdin e
        ≡ some (e', rest))
      × (e'.orig_rec ≡ r)
      × (e'.last_rec_no ≡ n)
      × (e'.has_work ≡ true)
      × ((e'.work_rec.name ≡ r.name) ⊎ IsText name_len e'.work_rec.name)
      × ((e'.work_rec.address ≡ r.address) ⊎ IsText addr_len e'.work_rec.address)
      × ((e'.work_rec.semester ≡ r.semester) ⊎ IsSemester e'.work_rec.semester)
unfolding do_get
do_get_lem strtol file n r stdin line e found skipped =
    let shorter = skip_line-shorter stdin line skipped in
    let start : Editor = record { orig_rec = r; work_rec = r; last_rec_no = n; has_work = true } in
    let (name, address, semester, rest, p, ok, ok', ok'') =
      edit_name_lem strtol (suc (length stdin)) start line (omega (arith, shorter)) in
    (
      with_fields start name address semester,
      rest,
      rw (found, skipped) p,
      refl,
      refl,
      refl,
      ok,
      ok',
      ok'',
    )
