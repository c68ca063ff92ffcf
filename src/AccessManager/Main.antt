-- ===== src/AccessManager/Main.antt =====
-- `main` of Access_manager/main.c: the arguments, the runs, the copy directory and the report. The
-- directory's real path and its entries are parameters, as are MD5 and the programs; mkdir finds room.
pub mod Laws
pub mod Unchanged
use osisp.Prelude.{List, [], ◌∷◌, Bool, true, not, ◌&&◌, Option, none, some, map}
use osisp.Prelude.Bytes.{Bytes, starts_with}
use osisp.AccessManager.Arguments.{Program, parse_programs}
use osisp.AccessManager.Copies.{Entry, ProgramInfo, in_directory, copy_dir_of, process_files}
use osisp.AccessManager.Copies.Store.{Dir}

-- A program that has not run.
abbrev pub fresh : Program → ProgramInfo
fresh p = record { program = p; processed_files = []; output = none }

-- No file lies in the directory; subdirectories are left out.
unfoldable pub is_dir_empty : Bytes → Dir → Bool
unfolding starts_with
is_dir_empty path [] = true
is_dir_empty path ((name, content) ∷ files) =
    not (starts_with (in_directory path []) name) && is_dir_empty path files

-- A printed result: the program's name and its output.
abbrev pub result_of : Bytes → Option Bytes → List (Bytes × Bytes) → List (Bytes × Bytes)
result_of name none rest = rest
result_of name (some output) rest = (name, output) ∷ rest

unfoldable pub results : List ProgramInfo → List (Bytes × Bytes)
results [] = []
results (info ∷ infos) = result_of info.program.name info.output (results infos)

-- How `main` ends: by the usage, by `handle_error`, or with the results, the files, and whether the
-- directory of the copies was removed.
pub record Finished : Type 0 where
  pub printed : List (Bytes × Bytes)
  pub files : Dir
  pub removed : Bool

pub data Outcome : Type 0 where
  usage failed : Outcome
  finished : Finished → Outcome

abbrev pub report : Bytes → List ProgramInfo × Dir → Outcome
report directory (infos, files) = finished (record {
  printed = results infos;
  files = files;
  removed = is_dir_empty (copy_dir_of directory) files;
})

module _ (md5 : Bytes → Bytes) (can_open : Bytes → Bool)
    (execute : Program → Bytes → Bytes → Dir → Dir) (realpath : Bytes → Option Bytes)
    (scandir : Bytes → Option (List Entry)) where
  abbrev pub on_entries : Bytes → List Program → Dir → Option (List Entry) → Outcome
  on_entries directory programs files none = failed
  on_entries directory programs files (some entries) =
      report directory
        (process_files md5 can_open execute directory entries (map (λ p. fresh p) programs) files)

  abbrev pub on_directory : List Bytes → Dir → Option Bytes → Outcome
  on_directory args files none = failed
  on_directory args files (some directory) =
      on_entries directory (parse_programs args) files (scandir directory)

  -- On the arguments behind the program's name. `files` is what there is after mkdir.
  unfoldable pub main : List Bytes → Dir → Outcome
  unfolding results is_dir_empty
  main (directory ∷ arg ∷ args) files = on_directory (arg ∷ args) files (realpath directory)
  main args files = usage
