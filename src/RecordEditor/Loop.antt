-- ===== src/RecordEditor/Loop.antt =====
-- `main` of lab7/src/editor.c: the test of the file and the command loop. Listing only prints.
use osisp.Prelude.{
  ℕ, zero, suc, ◌+◌, ◌/◌, ◌%◌, List, [], ◌∷◌, Bool, true, false, ◌&&◌, ◌||◌, Option, none, some,
  leb, ◌==◌, if◌then◌else◌,
}
use osisp.Prelude.Int.{ℤ}
use osisp.Prelude.OptionMonad.{◌>>=◌}
use osisp.RecordEditor.Record.{FileRecord, Editor, name_len, addr_len}
use osisp.RecordEditor.Get.{skip_line, do_get}
use osisp.RecordEditor.Put.{do_put}

-- `sizeof(record_t)`
abbrev pub record_size : ℕ
record_size = name_len + addr_len + 1

-- The number of records of a file of that size, `none` for an invalid size.
unfoldable pub count_records : ℕ → Option ℕ
count_records size = if size % record_size == 0 then some (size / record_size) else none

pub data Command : Type 0 where
  get_command put_command exit_command other_command : Command

-- The `switch`; L and unknown letters change nothing.
abbrev pub command_of : ℕ → Command
command_of c =
    if (c == 71) || (c == 103)
    then get_command
    else if (c == 80) || (c == 112)
    then put_command
    else if (c == 69) || (c == 101)
    then exit_command
    else other_command

abbrev pub is_space : ℕ → Bool
is_space c = (c == 32) || leb 9 c && leb c 13

-- `scanf(" %c", &cmd)`, `none` at the end of the input.
unfoldable pub read_command : List ℕ → Option (ℕ × List ℕ)
read_command [] = none
read_command (c ∷ cs) = if is_space c then read_command cs else some (c, cs)

abbrev pub on_command : {R : Type 0} → Option (ℕ × List ℕ) → R → (ℕ → List ℕ → R) → R
on_command none ended k = ended
on_command (some (c, cs)) ended k = k c cs

-- `scan_int` is `scanf("%d")`; `others j k` is what other processes do before the `k`-th lock of
-- the command number `j`. `none` is an endless loop.
module _ (scan_int : List ℕ → Option ℤ × List ℕ) (strtol : List ℕ → ℤ × List ℕ) (retries : ℕ)
    (others : ℕ → ℕ → List FileRecord → List FileRecord) where
  -- One command: the file, the editor, the input, and whether the loop goes on.
  unfoldable pub run_command :
      ℕ
      → Command
      → List FileRecord
      → Editor
      → List ℕ
      → Option (List FileRecord × Editor × List ℕ × Bool)
  unfolding do_get do_put
  run_command j get_command file e stdin = do
    (e', rest) ← do_get strtol file (scan_int stdin).0 (scan_int stdin).1 e
    some (file, e', rest, true)
  run_command j put_command file e stdin = do
    (report, file', e') ← do_put retries (others j) file e
    some (file', e', stdin, true)
  run_command j exit_command file e stdin = some (file, e, stdin, false)
  run_command j other_command file e stdin = some (file, e, stdin, true)

  -- The `while` loop on fuel, from the command number `j`.
  unfoldable pub run_editor :
      ℕ → ℕ → List FileRecord → Editor → List ℕ → Option (List FileRecord × Editor)
  unfolding run_command read_command skip_line
  run_editor zero j file e stdin = none
  run_editor (suc fuel) j file e stdin = on_command (read_command stdin) (some (file, e)) (λ c cs.
      do
        rest ← skip_line cs
        (file', e', rest', more) ← run_command j (command_of c) file e rest
        if more then run_editor fuel (j + 1) file' e' rest' else some (file', e'))
