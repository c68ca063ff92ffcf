-- ===== src/AccessManager/Main/Unchanged.antt =====
-- A run of Access_manager whose programs only read.
use osisp.Prelude.{
  ◌≡◌, ◌≢◌, refl, ap, sym, ◌∙◌, List, [], ◌∷◌, map, Bool, Bool-cases, inl, inr, true, false, ◌⊎◌,
  Option, none, some, if◌then◌else◌,
}
use osisp.Prelude.Bytes.{Bytes, same_bytes, same_bytes_refl, eq_of_same_bytes}
use osisp.AccessManager.Arguments.{Program}
use osisp.AccessManager.Arguments.Laws.{AllWritable, command_line}
use osisp.AccessManager.Copies.{
  matches, Entry, ProgramInfo, in_directory, copy_dir_of, copypath, temp_out, process, process_file,
  process_files,
}
use osisp.AccessManager.Copies.Store.{Dir, lookup}
use osisp.AccessManager.Copies.Laws.{Effect, IsConfined, OutputsOpen, copy_after, process_lem}
use osisp.AccessManager.Copies.Alone.{
  IsName, AllNames, SourcesKept, process-kept, process_files-run_alone,
}
use osisp.AccessManager.Main.{fresh, is_dir_empty, results, Finished, finished, main}
use osisp.AccessManager.Main.Laws.{HasNoFile, empty-HasNoFile, alone, main-written}

-- No program changes the file that it is given.
abbrev pub ChangesNothing : Effect → Type 0
ChangesNothing effect = (p : Program) (path c : Bytes) → (effect p path c).0 ≡ some c

-- Every entry can be opened.
abbrev pub AllOpen : Bytes → Dir → List Entry → Type 0
AllOpen directory files [] = Unit
AllOpen directory files (e ∷ entries) =
    ((c : Bytes) × (lookup (in_directory directory e.filename) files ≡ some c))
    × AllOpen directory files entries

bytes-cases : (a b : Bytes) → (a ≡ b) ⊎ (a ≢ b)
bytes-cases a b = elim (Bool-cases (same_bytes a b)) [
  | inl e ↦ inl (eq_of_same_bytes a b e)
  | inr e ↦ inr (λ h. let refl_b = same_bytes_refl b in cc (ap (λ x. same_bytes x b) h, e, refl_b))
]

unless_open : {A : Type 0} (b : Bool) (o : Option A) → o ≡ none → (if b then none else o) ≡ none
unless_open true o e = refl
unless_open false o e = e

module _ (md5 : Bytes → Bytes) (can_open : Bytes → Bool)
    (execute : Program → Bytes → Bytes → Dir → Dir) (effect : Effect)
    (confined : IsConfined execute effect) (outs : OutputsOpen can_open)
    (unchanged : ChangesNothing effect) (directory : Bytes) where
  copy-gone :
      (p : Program) (path c : Bytes) (old : Option Bytes)
      → old ≡ none
      → copy_after md5 can_open effect p path (some c) old ≡ none
  copy-gone p path c old e =
      rw (unchanged p path c, same_bytes_refl (md5 c)) (unless_open (can_open path) old e)

  process-empty :
      (filename c : Bytes) (info : ProgramInfo) (files : Dir)
      → lookup (in_directory directory filename) files ≡ some c
      → HasNoFile (copy_dir_of directory) files
      → HasNoFile
          (copy_dir_of directory)
          (process md5 can_open execute directory filename info files).1
  process-empty filename c info files found no_file name =
      let path : Bytes = copypath directory filename info.program.name in
      let file : Bytes = in_directory (copy_dir_of directory) name in
      let (_, copy, output, others) =
        process_lem md5 can_open execute effect confined directory filename info files outs in
      elim (bytes-cases file path) [
        | inl e ↦ rw e (copy ∙ rw found (copy-gone info.program path c _ (no_file _)))
        | inr away ↦ elim (bytes-cases file (temp_out path)) [
          | inl e ↦ rw e (
              output
              ∙ rw found
                  (unless_open (can_open path) _ (ap (λ x. lookup x files) (sym e) ∙ no_file name)))
          | inr off ↦ others file away off ∙ no_file name
        ]
      ]

  process_file-empty :
      (filename c : Bytes) (infos : List ProgramInfo) (before files : Dir)
      → IsName filename
      → lookup (in_directory directory filename) before ≡ some c
      → SourcesKept md5 can_open execute effect confined outs directory before files
      → HasNoFile (copy_dir_of directory) files
      → let after : Dir = (process_file md5 can_open execute directory filename infos files).1 in
        SourcesKept md5 can_open execute effect confined outs directory before after
        × HasNoFile (copy_dir_of directory) after
  unfolding process_file
  process_file-empty filename c [] before files named found kept no_file = (kept, no_file)
  process_file-empty filename c (info ∷ infos) before files named found kept no_file =
      elim (Bool-cases (matches filename info.program.file_patterns)) [
        | inl e ↦ rw e (
            process_file-empty filename c infos before
              (process md5 can_open execute directory filename info files).1 named found
              (process-kept md5 can_open execute effect confined outs directory filename info before
                files kept)
              (process-empty filename c info files (kept filename named ∙ found) no_file))
        | inr e ↦ rw e (process_file-empty filename c infos before files named found kept no_file)
      ]

  pub process_files-empty :
      (entries : List Entry) (infos : List ProgramInfo) (before files : Dir)
      → AllNames entries
      → AllOpen directory before entries
      → SourcesKept md5 can_open execute effect confined outs directory before files
      → HasNoFile (copy_dir_of directory) files
      → HasNoFile
          (copy_dir_of directory)
          (process_files md5 can_open execute directory entries infos files).1
  unfolding process_files
  process_files-empty [] infos before files named all_open kept no_file = no_file
  process_files-empty (e ∷ entries) infos before files named all_open kept no_file =
      elim (Bool-cases e.is_regular) [
        | inl r ↦
            let (kept', no_file') =
              process_file-empty e.filename all_open.0.0 infos before files named.0 all_open.0.1
                kept no_file in
            rw r (
              process_files-empty entries
                (process_file md5 can_open execute directory e.filename infos files).0 before
                (process_file md5 can_open execute directory e.filename infos files).1 named.1
                all_open.1 kept' no_file')
        | inr r ↦
            rw r (process_files-empty entries infos before files named.1 all_open.1 kept no_file)
      ]

-- On a directory that can be read, with programs written as on a command line and confined to their
-- copies and outputs, where an output can be opened wherever the copy can, and entries without a
-- slash: when no program changes its file, every entry can be opened and no file lies in the copy
-- directory at the beginning, `main` ends, prints the results that each program would have if only it
-- ran, leaves no file in the copy directory and removes it.
pub main-unchanged :
    (md5 : Bytes → Bytes) (can_open : Bytes → Bool) (execute : Program → Bytes → Bytes → Dir → Dir)
    (realpath : Bytes → Option Bytes) (scandir : Bytes → Option (List Entry)) (effect : Effect)
    (name full : Bytes) (p : Program) (programs : List Program) (entries : List Entry) (files : Dir)
    → IsConfined execute effect
    → OutputsOpen can_open
    → ChangesNothing effect
    → AllNames entries
    → AllOpen full files entries
    → HasNoFile (copy_dir_of full) files
    → AllWritable (p ∷ programs)
    → realpath name ≡ some full
    → scandir full ≡ some entries
    → (f : Finished) × (main md5 can_open execute realpath scandir
          (name ∷ command_line (p ∷ programs))
          files
        ≡ finished f)
      × (f.printed
          ≡ results (
              alone md5 can_open execute realpath scandir effect full files entries (p ∷ programs)))
      × (f.removed ≡ true)
      × HasNoFile (copy_dir_of full) f.files
main-unchanged md5 can_open execute realpath scandir effect name full p programs entries files
      confined outs unchanged named all_open no_file writable found scanned =
    let infos : List ProgramInfo = map (λ q. fresh q) (p ∷ programs) in
    let (shown, left) = process_files md5 can_open execute full entries infos files in
    let gone : HasNoFile (copy_dir_of full) left =
      process_files-empty md5 can_open execute effect confined outs unchanged full entries infos
        files files named all_open (λ n h. refl) no_file in
    let empty : is_dir_empty (copy_dir_of full) left ≡ true =
      empty-HasNoFile (copy_dir_of full) left gone in
    (
      record {
        printed = results shown;
        files = left;
        removed = is_dir_empty (copy_dir_of full) left;
      },
      main-written md5 can_open execute realpath scandir name full p programs entries files writable
          found scanned,
      ap results (
          process_files-run_alone md5 can_open execute effect confined outs full entries infos files
            files named (λ n h. refl)),
      empty,
      gone,
    )
