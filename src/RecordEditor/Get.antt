-- ===== src/RecordEditor/Get.antt =====
-- `do_get` of lab7/src/editor.c. The input is the list of the characters that are left on stdin.
-- `scanf("%d")` and `strtol` are parameters.
pub mod Laws
pub mod Fields
use osisp.Prelude.{
  ℕ, zero, suc, ◌+◌, ◌-◌, ◌≡◌, List, [], ◌∷◌, ◌++◌, Bool, true, false, not, ◌&&◌, ◌||◌, Option,
  none, some, length, replicate, read_at, ltb, leb, ◌==◌, if◌then◌else◌,
}
use osisp.Prelude.Int.{ℤ, pos, negsuc}
use osisp.Prelude.OptionMonad.{◌>>=◌}
use osisp.RecordEditor.Record.{FileRecord, Editor, name_len, addr_len}

abbrev pub newline : ℕ
newline = 10

-- `while (getchar() != '\n')`, which never ends at the end of the input: `none`.
unfoldable pub skip_line : List ℕ → Option (List ℕ)
skip_line [] = none
skip_line (c ∷ cs) = if c == newline then some cs else skip_line cs

-- At most that many characters, up to a newline that is kept.
unfoldable pub take_line : ℕ → List ℕ → List ℕ × List ℕ
take_line zero cs = ([], cs)
take_line (suc n) [] = ([], [])
take_line (suc n) (c ∷ cs) =
    let (line, rest) = take_line n cs in if c == newline then (c ∷ [], cs) else (c ∷ line, rest)

-- `fgets(buf, size, stdin)`, `none` for NULL.
unfoldable pub fgets : ℕ → List ℕ → Option (List ℕ × List ℕ)
unfolding take_line
fgets size [] = none
fgets size (c ∷ cs) = some (take_line (size - 1) (c ∷ cs))

-- The C string in `buf` when `buf[strcspn(buf, "\n")] = '\0'` is done.
unfoldable pub c_string : List ℕ → List ℕ
c_string [] = []
c_string (c ∷ cs) = if (c == newline) || (c == 0) then [] else c ∷ c_string cs

-- `strncpy` of a string that is shorter than the array.
abbrev pub strncpy : ℕ → List ℕ → List ℕ
strncpy size s = s ++ replicate (size - length s) 0

-- The new value of a field and what is left of the input, `none` if it ended.
abbrev pub Edited : Type 0 → Type 0
Edited A = A × Option (List ℕ)

abbrev pub is_empty_line : List ℕ → Bool
is_empty_line [] = false
is_empty_line (c ∷ cs) = c == newline

-- The three loops of the fields have one shape, here on fuel: an empty line keeps the value, a line
-- that `parse` accepts replaces it, and after another line the question is asked again.
module _ {A : Type 0} (size : ℕ) (parse : List ℕ → Option A) where
  abbrev pub on_parse : Option A → List ℕ → Option (Edited A) → Option (Edited A)
  on_parse none rest again = again
  on_parse (some v) rest again = some ((v, some rest))

  abbrev pub on_line :
      Option (List ℕ × List ℕ) → A → (List ℕ → List ℕ → Option (Edited A)) → Option (Edited A)
  on_line none old k = some ((old, none))
  on_line (some (buf, rest)) old k = k buf rest

  unfoldable pub edit_loop : ℕ → A → List ℕ → Option (Edited A)
  unfolding fgets
  edit_loop zero old stdin = none
  edit_loop (suc fuel) old stdin = on_line (fgets size stdin) old (λ buf rest.
      if is_empty_line buf
      then some ((old, some rest))
      else on_parse (parse buf) rest (edit_loop fuel old rest))

-- A name or an address
unfoldable pub parse_text : ℕ → List ℕ → Option (List ℕ)
unfolding c_string
parse_text size buf =
    if ltb 0 (length (c_string buf)) && ltb (length (c_string buf)) size
    then some (strncpy size (c_string buf))
    else none

abbrev pub at_line_end : List ℕ → Bool
at_line_end [] = true
at_line_end (c ∷ cs) = (c == newline) || (c == 0)

abbrev pub in_semesters : ℤ → Option ℕ
in_semesters (pos s) = if leb 1 s && leb s 12 then some s else none
in_semesters (negsuc n) = none

-- `strtol` gives the number and what `endptr` points to.
unfoldable pub parse_semester : (List ℕ → ℤ × List ℕ) → List ℕ → Option ℕ
parse_semester strtol buf =
    let (s, end) = strtol buf in if at_line_end end then in_semesters s else none

-- At the end of the input `do_get` returns with what was edited so far.
abbrev pub on_rest :
    Option (List ℕ) → Editor → (List ℕ → Option (Editor × List ℕ)) → Option (Editor × List ℕ)
on_rest none e k = some (e, [])
on_rest (some rest) e k = k rest

abbrev pub with_name : Editor → List ℕ → Editor
with_name e name = record e { work_rec = record e.work_rec { name = name } }

abbrev pub with_address : Editor → List ℕ → Editor
with_address e address = record e { work_rec = record e.work_rec { address = address } }

abbrev pub with_semester : Editor → ℕ → Editor
with_semester e semester = record e { work_rec = record e.work_rec { semester = semester } }

module _ (strtol : List ℕ → ℤ × List ℕ) (fuel : ℕ) where
  -- The three questions; all read into `buf`, which has ADDR_LEN bytes.
  unfoldable pub edit_semester : Editor → List ℕ → Option (Editor × List ℕ)
  unfolding edit_loop parse_semester
  edit_semester e stdin =
      edit_loop addr_len (parse_semester strtol) fuel e.work_rec.semester stdin >>= λ semester.
      on_rest semester.1 (with_semester e semester.0)
        (λ rest. some (with_semester e semester.0, rest))

  unfoldable pub edit_address : Editor → List ℕ → Option (Editor × List ℕ)
  unfolding edit_loop parse_text edit_semester
  edit_address e stdin =
      edit_loop addr_len (parse_text addr_len) fuel e.work_rec.address stdin >>= λ address.
      on_rest address.1 (with_address e address.0)
        (λ rest. edit_semester (with_address e address.0) rest)

  unfoldable pub edit_name : Editor → List ℕ → Option (Editor × List ℕ)
  unfolding edit_loop parse_text edit_address
  edit_name e stdin =
      edit_loop addr_len (parse_text name_len) fuel e.work_rec.name stdin >>= λ name.
      on_rest name.1 (with_name e name.0) (λ rest. edit_address (with_name e name.0) rest)

-- The record to edit, if `scanf` read a number of the file.
abbrev pub fetched : List FileRecord → Option ℤ → Option (ℕ × FileRecord)
fetched file none = none
fetched file (some (negsuc n)) = none
fetched file (some (pos n)) = read_at file n >>= λ r. some (n, r)

abbrev pub on_fetched :
    Option (ℕ × FileRecord)
    → Option (Editor × List ℕ)
    → (ℕ → FileRecord → Option (Editor × List ℕ))
    → Option (Editor × List ℕ)
on_fetched none invalid k = invalid
on_fetched (some (n, r)) invalid k = k n r

-- `rn` is what `scanf` stored, `none` if it failed. The fuel of the loops is above the length of
-- the input.
unfoldable pub do_get :
    (List ℕ → ℤ × List ℕ) → List FileRecord → Option ℤ → List ℕ → Editor → Option (Editor × List ℕ)
unfolding skip_line edit_name
do_get strtol file rn stdin e =
    on_fetched (fetched file rn) (skip_line stdin >>= λ rest. some (e, rest)) (λ n r.
      skip_line stdin >>= λ rest.
      edit_name strtol (suc (length stdin))
        (record { orig_rec = r; work_rec = r; last_rec_no = n; has_work = true }) rest)
