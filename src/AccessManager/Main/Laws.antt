-- ===== src/AccessManager/Main/Laws.antt =====
-- What a run of Access_manager prints and leaves behind.
use osisp.Prelude.{
  ◌≡◌, refl, ap, sym, ◌∙◌, List, [], ◌∷◌, ◌++◌, map, Bool, Bool-cases, inl, inr, true, false, ◌⊎◌,
  Option, none, some, append_assoc, drop, length,
}
use osisp.Prelude.Bytes.{
  Bytes, same_bytes, same_bytes_refl, eq_of_same_bytes, starts_with, starts_with-append,
  append-starts_with,
}
use osisp.AccessManager.Arguments.{Program, separator, parse_programs}
use osisp.AccessManager.Arguments.Laws.{
  AllWritable, written_patterns, command_line, parse_programs-command_line,
}
use osisp.AccessManager.Copies.{Entry, ProgramInfo, in_directory, copy_dir_of, process_files}
use osisp.AccessManager.Copies.Store.{Dir, lookup}
use osisp.AccessManager.Copies.Laws.{Effect, IsConfined, OutputsOpen}
use osisp.AccessManager.Copies.Alone.{AllNames, run_alone, process_files-run_alone}
use osisp.AccessManager.Main.{fresh, is_dir_empty, results, Finished, finished, report, main}

-- No file lies in the directory.
abbrev pub HasNoFile : Bytes → Dir → Type 0
HasNoFile path files = (name : Bytes) → lookup (in_directory path name) files ≡ none

-- Some file does.
abbrev pub HasFile : Bytes → Dir → Type 0
HasFile path files =
    (name : Bytes) × (content : Bytes) × (lookup (in_directory path name) files ≡ some content)

inside :
    (path file : Bytes)
    → starts_with (in_directory path []) file ≡ true
    → (name : Bytes) × (file ≡ in_directory path name)
inside path file h = (
  drop (length (in_directory path [])) file,
  starts_with-append (in_directory path []) file h
      ∙ append_assoc path (b'/' ∷ []) (drop (length (in_directory path [])) file),
)

outside :
    (path file name : Bytes)
    → starts_with (in_directory path []) file ≡ false
    → same_bytes file (in_directory path name) ≡ false
outside path file name h = elim (Bool-cases (same_bytes file (in_directory path name))) [
  | inr e ↦ e
  | inl e ↦
      let same : file ≡ in_directory path [] ++ name =
        eq_of_same_bytes file (in_directory path name) e
        ∙ sym (append_assoc path (b'/' ∷ []) name) in
      let starts : starts_with (in_directory path []) file ≡ true =
        ap (starts_with (in_directory path [])) same
        ∙ append-starts_with (in_directory path []) name in
      cc (h, starts)
]

-- `is_dir_empty` finds out whether a file lies in the directory.
pub is_dir_empty-cases :
    (path : Bytes) (files : Dir)
    → ((is_dir_empty path files ≡ true) × HasNoFile path files)
      ⊎ ((is_dir_empty path files ≡ false) × HasFile path files)
unfolding is_dir_empty lookup
is_dir_empty-cases path [] = inl (refl, λ name. refl)
is_dir_empty-cases path ((file, content) ∷ files) =
    elim (Bool-cases (starts_with (in_directory path []) file)) [
      | inl e ↦
          let (name, same) = inside path file e in
          inr (
            rw e refl,
            (name, content, rw same (rw (same_bytes_refl (in_directory path name)) refl)),
          )
      | inr e ↦ elim (is_dir_empty-cases path files) [
        | inl (empty, no_file) ↦
            inl (rw (e, empty) refl, λ name. rw (outside path file name e) (no_file name))
        | inr (not_empty, (name, held, found)) ↦
            inr (rw (e, not_empty) refl, (name, held, rw (outside path file name e) found))
      ]
    ]

-- A directory without a file is found to be empty.
pub empty-HasNoFile :
    (path : Bytes) (files : Dir) → HasNoFile path files → is_dir_empty path files ≡ true
empty-HasNoFile path files no_file = elim (is_dir_empty-cases path files) [
  | inl (empty, _) ↦ empty
  | inr (_, (name, held, found)) ↦ cc (found, no_file name)
]

module _ (md5 : Bytes → Bytes) (can_open : Bytes → Bool)
    (execute : Program → Bytes → Bytes → Dir → Dir) (realpath : Bytes → Option Bytes)
    (scandir : Bytes → Option (List Entry)) where
  main-read :
      (name full arg : Bytes) (args line : List Bytes) (programs : List Program)
      (entries : List Entry) (files : Dir)
      → line ≡ arg ∷ args
      → parse_programs line ≡ programs
      → realpath name ≡ some full
      → scandir full ≡ some entries
      → main md5 can_open execute realpath scandir (name ∷ line) files
        ≡ report full
            (process_files md5 can_open execute full entries (map (λ p. fresh p) programs) files)
  unfolding main
  main-read name full arg args line programs entries files some_args parsed found scanned =
      let read : parse_programs (arg ∷ args) ≡ programs = rw some_args at parsed in
      rw (some_args, found, scanned, read) refl

  pub main-written :
      (name full : Bytes) (p : Program) (programs : List Program) (entries : List Entry)
      (files : Dir)
      → AllWritable (p ∷ programs)
      → realpath name ≡ some full
      → scandir full ≡ some entries
      → main md5 can_open execute realpath scandir (name ∷ command_line (p ∷ programs)) files
        ≡ report full (
            process_files md5 can_open execute full entries
              (map (λ q. fresh q) (p ∷ programs))
              files)
  main-written name full p programs entries files writable found scanned =
      let rest : List Bytes =
        written_patterns p.file_patterns ++ separator ∷ command_line programs in
      let some_args : p.args ++ rest ≡ p.name ∷ (writable.0.own_args ++ rest) =
        ap (λ args. args ++ rest) writable.0.args_eq in
      main-read name full p.name (writable.0.own_args ++ rest) (p.args ++ rest) (p ∷ programs)
        entries files some_args (parse_programs-command_line (p ∷ programs) writable) found scanned

  -- What each program shows on its own, on the files as they are at the beginning.
  abbrev pub alone : Effect → Bytes → Dir → List Entry → List Program → List ProgramInfo
  alone effect directory files entries programs =
      map (run_alone md5 can_open effect directory files entries) (map (λ p. fresh p) programs)

  -- On a directory that can be read, with programs written as on a command line and confined to their
  -- copies and outputs, where an output can be opened wherever the copy can, and entries without a
  -- slash: `main` ends and prints the results that each program would have if only it ran on the files
  -- as they were at the beginning, in the order of the programs. It removes the copy directory exactly
  -- if no file is left in it.
  pub main-command_line :
      (effect : Effect) (name full : Bytes) (p : Program) (programs : List Program)
      (entries : List Entry) (files : Dir)
      → IsConfined execute effect
      → OutputsOpen can_open
      → AllNames entries
      → AllWritable (p ∷ programs)
      → realpath name ≡ some full
      → scandir full ≡ some entries
      → (f : Finished) × (main md5 can_open execute realpath scandir
            (name ∷ command_line (p ∷ programs))
            files
          ≡ finished f)
        × (f.printed ≡ results (alone effect full files entries (p ∷ programs)))
        × (((f.removed ≡ true) × HasNoFile (copy_dir_of full) f.files)
            ⊎ ((f.removed ≡ false) × HasFile (copy_dir_of full) f.files))
  main-command_line effect name full p programs entries files confined outs named writable found
        scanned =
      let infos : List ProgramInfo = map (λ q. fresh q) (p ∷ programs) in
      let (shown, left) = process_files md5 can_open execute full entries infos files in
      (
        record {
          printed = results shown;
          files = left;
          removed = is_dir_empty (copy_dir_of full) left;
        },
        main-written name full p programs entries files writable found scanned,
        ap results (
            process_files-run_alone md5 can_open execute effect confined outs full entries infos
              files files named (λ n h. refl)),
        is_dir_empty-cases (copy_dir_of full) left,
      )
