-- ===== src/AccessManager/Copies.antt =====
-- Which programs run on which files, and what becomes of the copies: the main loop of
-- Access_manager/main.c, and `modify_filename` and `copy_file` of access_manager.c.
-- MD5, which paths can be opened for writing and what a program makes of the files are parameters. The
-- files are those that can be opened for reading, by their paths, which are not cut off at PATH_MAX, and
-- an output has no NUL. No program runs beside another, since each `fork` is followed by a `wait`.
pub mod Store
pub mod Laws
pub mod Alone
use osisp.Prelude.{
  ℕ, List, [], ◌∷◌, ◌++◌, Bool, true, false, ◌&&◌, ◌||◌, Option, none, some, ◌==◌, if◌then◌else◌,
}
use osisp.Prelude.Bytes.{Bytes, same_bytes, starts_with}
use osisp.AccessManager.Arguments.{Program}
use osisp.AccessManager.Copies.Store.{Dir, lookup, write_file, remove_file}

-- What stands before the last dot, `none` without a dot (`strrchr`).
abbrev pub base_with : ℕ → Option Bytes → Option Bytes
base_with c (some base) = some (c ∷ base)
base_with c none = if c == b'.' then some [] else none

unfoldable pub before_dot : Bytes → Option Bytes
before_dot [] = none
before_dot (c ∷ name) = base_with c (before_dot name)

abbrev pub or_whole : Bytes → Option Bytes → Bytes
or_whole name none = name
or_whole name (some base) = base

unfoldable pub modify_filename : Bytes → Bytes → Bytes
unfolding before_dot
modify_filename filename progname = or_whole filename (before_dot filename) ++ b'_' ∷ progname

-- `strstr(name, pattern)` is not NULL.
unfoldable pub contains : Bytes → Bytes → Bool
unfolding starts_with
contains [] pattern = starts_with pattern []
contains (c ∷ name) pattern = starts_with pattern (c ∷ name) || contains name pattern

-- The loop over the patterns.
unfoldable pub contains_any : Bytes → List Bytes → Bool
unfolding contains
contains_any name [] = false
contains_any name (pattern ∷ patterns) = contains name pattern || contains_any name patterns

-- `match`: without patterns every file.
unfoldable pub matches : Bytes → List Bytes → Bool
unfolding contains_any
matches name [] = true
matches name (pattern ∷ patterns) = contains_any name (pattern ∷ patterns)

-- An entry of the directory.
pub record Entry : Type 0 where
  pub filename : Bytes
  pub is_regular : Bool

-- A program with what its runs add to its `ProgramInfo`.
pub record ProgramInfo : Type 0 where
  pub program : Program
  pub processed_files : List Bytes
  pub output : Option Bytes

-- `print_output_and_remove`: a file that is not there adds nothing.
abbrev pub with_output : Option Bytes → Option Bytes → Option Bytes
with_output output none = output
with_output none (some text) = some text
with_output (some output) (some text) = some (output ++ text)

abbrev pub same_hash : Option Bytes → Option Bytes → Bool
same_hash none after = false
same_hash (some before) none = false
same_hash (some before) (some after) = same_bytes before after

-- `directory/name`
abbrev pub in_directory : Bytes → Bytes → Bytes
in_directory directory name = directory ++ b'/' ∷ name

-- `copy_dir`
abbrev pub copy_dir_of : Bytes → Bytes
copy_dir_of directory = in_directory directory (b'c' ∷ b'o' ∷ b'p' ∷ b'y' ∷ [])

-- `copypath` and `temp_out`
abbrev pub copypath : Bytes → Bytes → Bytes → Bytes
copypath directory filename progname =
    in_directory (copy_dir_of directory) (modify_filename filename progname)

abbrev pub temp_out : Bytes → Bytes
temp_out path = path ++ b'.' ∷ b'o' ∷ b'u' ∷ b't' ∷ []

-- `can_open path` is whether `path` can be opened for writing. Both files are opened before the test, so a
-- source that cannot be opened leaves an empty copy.
abbrev pub copied : (Bytes → Bool) → Bytes → Option Bytes → Dir → Bool × Dir
copied can_open dst none files = (false, if can_open dst then write_file dst [] files else files)
copied can_open dst (some content) files =
    if can_open dst then (true, write_file dst content files) else (false, files)

unfoldable pub copy_file : (Bytes → Bool) → Bytes → Bytes → Dir → Bool × Dir
copy_file can_open src dst files = copied can_open dst (lookup src files) files

abbrev pub hashed : (Bytes → Bytes) → Option Bytes → Option Bytes
hashed md5 none = none
hashed md5 (some content) = some (md5 content)

unfoldable pub get_md5_hash : (Bytes → Bytes) → Bytes → Dir → Option Bytes
get_md5_hash md5 path files = hashed md5 (lookup path files)

unfoldable pub print_output_and_remove : Bytes → ProgramInfo → Dir → ProgramInfo × Dir
print_output_and_remove out info files =
    (record info { output = with_output info.output (lookup out files) }, remove_file out files)

-- `execute p path out files` is what the program makes of the files, all of them, when it is given
-- `path` and its output goes to `out`.
module _ (md5 : Bytes → Bytes) (can_open : Bytes → Bool)
    (execute : Program → Bytes → Bytes → Dir → Dir) where
  -- The child: it leaves if its output cannot be opened.
  unfoldable pub execute_program : Bytes → Program → Bytes → Dir → Dir
  execute_program path p out files =
      if can_open out then execute p path out (write_file out [] files) else files

  -- What follows a copy that was made.
  unfoldable pub run_copy : Bytes → Bytes → ProgramInfo → Dir → ProgramInfo × Dir
  unfolding get_md5_hash execute_program print_output_and_remove
  run_copy modname path info files =
      let ran : Dir = execute_program path info.program (temp_out path) files in
      let kept : Dir =
        if same_hash (get_md5_hash md5 path files) (get_md5_hash md5 path ran)
        then remove_file path ran
        else ran in
      let (info', left) = print_output_and_remove (temp_out path) info kept in
      (record info' { processed_files = info.processed_files ++ modname ∷ [] }, left)

  -- The body of the inner loop for a program that matches; without a copy the program is skipped.
  unfoldable pub process : Bytes → Bytes → ProgramInfo → Dir → ProgramInfo × Dir
  unfolding copy_file run_copy modify_filename
  process directory filename info files =
      let path : Bytes = copypath directory filename info.program.name in
      let (made, files') = copy_file can_open (in_directory directory filename) path files in
      if made
      then run_copy (modify_filename filename info.program.name) path info files'
      else (info, files')

  -- The inner loop, over the programs.
  unfoldable pub process_file : Bytes → Bytes → List ProgramInfo → Dir → List ProgramInfo × Dir
  unfolding process matches
  process_file directory filename [] files = ([], files)
  process_file directory filename (info ∷ infos) files =
      let (info', files') =
        if matches filename info.program.file_patterns
        then process directory filename info files
        else (info, files) in
      let (infos', files'') = process_file directory filename infos files' in
      (info' ∷ infos', files'')

  -- The outer loop, over the entries.
  unfoldable pub process_files :
      Bytes → List Entry → List ProgramInfo → Dir → List ProgramInfo × Dir
  unfolding process_file
  process_files directory [] infos files = (infos, files)
  process_files directory (e ∷ entries) infos files =
      let (infos', files') =
        if e.is_regular then process_file directory e.filename infos files else (infos, files) in
      process_files directory entries infos' files'
