-- ===== src/AccessManager/Tests.antt =====
-- Tests of Access_manager.
use osisp.Prelude.{
  ◌≡◌, ◌≢◌, refl, ap, ◌∙◌, List, [], ◌∷◌, Bool, true, false, ◌⊎◌, Option, none, some, length,
  get_or, arith,
}
use osisp.Prelude.Bytes.{Bytes}
use osisp.AccessManager.Arguments.{Program, separator, files_word, parse_programs}
use osisp.AccessManager.Arguments.Laws.{IsWritable, command_line, parse_programs-command_line}
use osisp.AccessManager.Copies.{
  Entry, ProgramInfo, modify_filename, matches, in_directory, copy_dir_of, copypath, temp_out,
  process,
}
use osisp.AccessManager.Copies.Store.{
  Dir, lookup, write_file, lookup-write_file_self, lookup-write_file_ne,
}
use osisp.AccessManager.Copies.Laws.{Effect, IsConfined, OutputsOpen, process_lem}
use osisp.AccessManager.Copies.Alone.{AllNames}
use osisp.AccessManager.Main.{fresh, Finished, finished, results, main}
use osisp.AccessManager.Main.Laws.{HasNoFile, HasFile, alone, main-command_line}
use osisp.AccessManager.Main.Unchanged.{main-unchanged}

-- `s -i --files .c -- w`
abbrev sed : Program
sed = record {
  name = b's' ∷ [];
  args = (b's' ∷ []) ∷ (b'-' ∷ b'i' ∷ []) ∷ [];
  file_patterns = (b'.' ∷ b'c' ∷ []) ∷ [];
}

abbrev wc : Program
wc = record { name = b'w' ∷ []; args = (b'w' ∷ []) ∷ []; file_patterns = [] }

flag_ne : b'-' ∷ b'i' ∷ [] ≢ separator
flag_ne e = cc e

sed-IsWritable : IsWritable sed
sed-IsWritable = record {
  own_args = (b'-' ∷ b'i' ∷ []) ∷ [];
  args_eq = refl;
  name_ne = λ e. omega (arith, ap length e);
  args_end = (flag_ne, tt);
  args_files = (λ e. omega (arith, ap length e), tt);
  patterns_end = (λ e. omega (arith, ap (λ l. get_or l 0 0) e), tt);
}

wc-IsWritable : IsWritable wc
wc-IsWritable = record {
  own_args = [];
  args_eq = refl;
  name_ne = λ e. omega (arith, ap length e);
  args_end = tt;
  args_files = tt;
  patterns_end = tt;
}

parse_programs-command_line_example :
    parse_programs (
      (b's' ∷ [])
      ∷ (b'-' ∷ b'i' ∷ [])
      ∷ files_word
      ∷ (b'.' ∷ b'c' ∷ [])
      ∷ separator
      ∷ (b'w' ∷ [])
      ∷ separator
      ∷ [])
    ≡ sed ∷ wc ∷ []
parse_programs-command_line_example =
    parse_programs-command_line (sed ∷ wc ∷ []) (sed-IsWritable, (wc-IsWritable, tt))

-- A hash that is the content, and programs that put a character before the file's content and write `x`.
abbrev as_it_is : Bytes → Bytes
as_it_is content = content

abbrev always : Bytes → Bool
always path = true

always-OutputsOpen : OutputsOpen always
always-OutputsOpen path h = refl

abbrev longer : Bytes → Option Bytes → Dir → Dir
longer path none files = files
longer path (some content) files = write_file path (b'n' ∷ content) files

abbrev run_program : Program → Bytes → Bytes → Dir → Dir
run_program p path out files = write_file out (b'x' ∷ []) (longer path (lookup path files) files)

abbrev effect : Effect
effect p path content = (some (b'n' ∷ content), some (b'x' ∷ []))

lookup-longer_ne :
    (path other : Bytes) (o : Option Bytes) (files : Dir)
    → other ≢ path
    → lookup other (longer path o files) ≡ lookup other files
lookup-longer_ne path other none files ne = refl
lookup-longer_ne path other (some content) files ne =
    lookup-write_file_ne path other (b'n' ∷ content) files ne

run_program-IsConfined : IsConfined run_program effect
run_program-IsConfined = record {
  keeps = λ p path out other files away off.
      lookup-write_file_ne out other (b'x' ∷ []) (longer path (lookup path files) files) off
      ∙ lookup-longer_ne path other (lookup path files) files away;
  leaves = λ p path out content files ne found empty.
      lookup-write_file_ne out path (b'x' ∷ []) (longer path (lookup path files) files) ne
      ∙ ap (λ o. lookup path (longer path o files)) found
      ∙ lookup-write_file_self path (b'n' ∷ content) files;
  writes = λ p path out content files ne found empty.
      lookup-write_file_self out (b'x' ∷ []) (longer path (lookup path files) files);
}

-- Programs that write `x` and leave their file.
abbrev run_counter : Program → Bytes → Bytes → Dir → Dir
run_counter p path out files = write_file out (b'x' ∷ []) files

abbrev reading : Effect
reading p path content = (some content, some (b'x' ∷ []))

run_counter-IsConfined : IsConfined run_counter reading
run_counter-IsConfined = record {
  keeps = λ p path out other files away off. lookup-write_file_ne out other (b'x' ∷ []) files off;
  leaves = λ p path out content files ne found empty.
      lookup-write_file_ne out path (b'x' ∷ []) files ne ∙ found;
  writes = λ p path out content files ne found empty. lookup-write_file_self out (b'x' ∷ []) files;
}

-- `/d` with the files `a.c` and `b`.
abbrev directory : Bytes
directory = b'/' ∷ b'd' ∷ []

abbrev source : Bytes
source = b'a' ∷ b'.' ∷ b'c' ∷ []

abbrev two_files : List Entry
two_files =
    record { filename = source; is_regular = true }
    ∷ record { filename = b'b' ∷ []; is_regular = true }
    ∷ []

two_files-AllNames : AllNames two_files
two_files-AllNames = ((omega arith, (omega arith, (omega arith, tt))), ((omega arith, tt), tt))

abbrev stored : Dir
stored = (in_directory directory source, b'1' ∷ []) ∷ (in_directory directory (b'b' ∷ []), []) ∷ []

-- `a.c` becomes `a_s`.
name_of_copy : modify_filename source (b's' ∷ []) ≡ b'a' ∷ b'_' ∷ b's' ∷ []
unfolding modify_filename
name_of_copy = refl

process_lem_example :
    let path : Bytes = copypath directory source (b's' ∷ []) in
    let after : ProgramInfo × Dir =
      process as_it_is always run_program directory source (fresh sed) stored in
    (after.0 ≡ record (fresh sed) {
      processed_files = modify_filename source (b's' ∷ []) ∷ [];
      output = some (b'x' ∷ []);
    })
    × (lookup path after.1 ≡ some (b'n' ∷ b'1' ∷ []))
    × (lookup (temp_out path) after.1 ≡ none)
    × ((other : Bytes)
        → other ≢ path
        → other ≢ temp_out path
        → lookup other after.1 ≡ lookup other stored)
unfolding lookup
process_lem_example =
    process_lem as_it_is always run_program effect run_program-IsConfined directory source
      (fresh sed) stored always-OutputsOpen

abbrev found : Bytes → Option Bytes
found name = some name

abbrev scanned : Bytes → Option (List Entry)
scanned name = some two_files

main-command_line_example :
    (f : Finished) × (main as_it_is always run_program found scanned
        (directory ∷ command_line (sed ∷ wc ∷ []))
        stored
      ≡ finished f)
    × (f.printed
        ≡ results (
            alone as_it_is always run_program found scanned effect directory stored two_files
              (sed ∷ wc ∷ [])))
    × (((f.removed ≡ true) × HasNoFile (copy_dir_of directory) f.files)
        ⊎ ((f.removed ≡ false) × HasFile (copy_dir_of directory) f.files))
main-command_line_example =
    main-command_line as_it_is always run_program found scanned effect directory directory sed
      (wc ∷ []) two_files stored run_program-IsConfined always-OutputsOpen two_files-AllNames
      (sed-IsWritable, (wc-IsWritable, tt)) refl refl

no_copies : HasNoFile (copy_dir_of directory) stored
unfolding lookup
no_copies name = refl

main-unchanged_example :
    (f : Finished) × (main as_it_is always run_counter found scanned
        (directory ∷ command_line (sed ∷ wc ∷ []))
        stored
      ≡ finished f)
    × (f.printed
        ≡ results (
            alone as_it_is always run_counter found scanned reading directory stored two_files
              (sed ∷ wc ∷ [])))
    × (f.removed ≡ true)
    × HasNoFile (copy_dir_of directory) f.files
unfolding lookup
main-unchanged_example =
    main-unchanged as_it_is always run_counter found scanned reading directory directory sed
      (wc ∷ []) two_files stored run_counter-IsConfined always-OutputsOpen (λ p path c. refl)
      two_files-AllNames ((b'1' ∷ [], refl), (([], refl), tt)) no_copies
      (sed-IsWritable, (wc-IsWritable, tt)) refl refl

-- Each program writes once for a file, and its outputs are joined.
results_of_both :
    results (
      alone as_it_is always run_counter found scanned reading directory stored two_files
        (sed ∷ wc ∷ []))
    ≡ (b's' ∷ [], b'x' ∷ []) ∷ (b'w' ∷ [], b'x' ∷ b'x' ∷ []) ∷ []
unfolding results matches lookup modify_filename
results_of_both = refl
