-- ===== src/AccessManager/Copies/Alone.antt =====
-- What each program gets: what it would have on its own.
use osisp.Prelude.{
  ◌≡◌, ◌≢◌, refl, ap, ap₂, sym, ◌∙◌, subst, append_assoc, List, [], ◌∷◌, ◌++◌, map, Bool,
  Bool-cases, inl, inr, if◌then◌else◌,
}
use osisp.Prelude.Bytes.{Bytes}
use osisp.AccessManager.Arguments.{Program}
use osisp.AccessManager.Copies.{
  modify_filename, matches, Entry, ProgramInfo, in_directory, copy_dir_of, temp_out, process,
  process_file, process_files,
}
use osisp.AccessManager.Copies.Store.{Dir, lookup}
use osisp.AccessManager.Copies.Laws.{Effect, IsConfined, OutputsOpen, run_on, process_lem}

-- The name of an entry has no slash.
abbrev pub IsName : Bytes → Type 0
IsName [] = Unit
IsName (c ∷ name) = (c ≢ b'/') × IsName name

abbrev pub AllNames : List Entry → Type 0
AllNames [] = Unit
AllNames (e ∷ entries) = IsName e.filename × AllNames entries

append-injective : (d xs ys : Bytes) → d ++ xs ≡ d ++ ys → xs ≡ ys
append-injective [] xs ys e = e
append-injective (c ∷ d) xs ys e = append-injective d xs ys (cc e)

-- A file of the directory is none of the copy directory's.
source-ne :
    (directory name inner : Bytes)
    → IsName name
    → in_directory directory name ≢ directory ++ b'/' ∷ b'c' ∷ b'o' ∷ b'p' ∷ b'y' ∷ b'/' ∷ inner
source-ne directory name inner h e =
    let same : b'/' ∷ name ≡ b'/' ∷ b'c' ∷ b'o' ∷ b'p' ∷ b'y' ∷ b'/' ∷ inner =
      append-injective directory _ _ e in
    let named : name ≡ b'c' ∷ b'o' ∷ b'p' ∷ b'y' ∷ b'/' ∷ inner = cc same in
    (subst (λ l. IsName l) named h).1.1.1.1.0 refl

pub source-ne-copy :
    (directory name inner : Bytes)
    → IsName name
    → in_directory directory name ≢ in_directory (copy_dir_of directory) inner
source-ne-copy directory name inner h e =
    source-ne directory name inner h
      (e ∙ append_assoc directory (b'/' ∷ b'c' ∷ b'o' ∷ b'p' ∷ b'y' ∷ []) (b'/' ∷ inner))

pub source-ne-output :
    (directory name inner : Bytes)
    → IsName name
    → in_directory directory name ≢ temp_out (in_directory (copy_dir_of directory) inner)
source-ne-output directory name inner h e =
    source-ne-copy directory name (inner ++ b'.' ∷ b'o' ∷ b'u' ∷ b't' ∷ []) h
      (e ∙ append_assoc (copy_dir_of directory) (b'/' ∷ inner) (b'.' ∷ b'o' ∷ b'u' ∷ b't' ∷ []))

-- The reference: what one program gets from a file, and from all, when only it runs and the files are
-- as at the beginning.
module _ (md5 : Bytes → Bytes) (can_open : Bytes → Bool) (effect : Effect) (directory : Bytes)
    (files : Dir) where
  abbrev pub run_matching : Bytes → ProgramInfo → ProgramInfo
  run_matching filename info =
      if matches filename info.program.file_patterns
      then run_on md5 can_open effect directory filename
          (lookup (in_directory directory filename) files) info
      else info

  abbrev pub run_alone : List Entry → ProgramInfo → ProgramInfo
  run_alone [] info = info
  run_alone (e ∷ entries) info =
      run_alone entries (if e.is_regular then run_matching e.filename info else info)

map_id : {A : Type 0} (xs : List A) → map (λ x. x) xs ≡ xs
map_id [] = refl
map_id (x ∷ xs) = ap (◌∷◌ x) (map_id xs)

map-map : {A : Type 0} (g f : A → A) (xs : List A) → map g (map f xs) ≡ map (λ x. g (f x)) xs
map-map g f [] = refl
map-map g f (x ∷ xs) = ap (◌∷◌ (g (f x))) (map-map g f xs)

module _ (md5 : Bytes → Bytes) (can_open : Bytes → Bool)
    (execute : Program → Bytes → Bytes → Dir → Dir) (effect : Effect)
    (confined : IsConfined execute effect) (outs : OutputsOpen can_open) (directory : Bytes) where
  -- The files of the directory itself are as they were.
  abbrev pub SourcesKept : Dir → Dir → Type 0
  SourcesKept before after =
      (name : Bytes)
      → IsName name
      → lookup (in_directory directory name) after ≡ lookup (in_directory directory name) before

  pub process-kept :
      (filename : Bytes) (info : ProgramInfo) (before files : Dir)
      → SourcesKept before files
      → SourcesKept before (process md5 can_open execute directory filename info files).1
  process-kept filename info before files kept name h =
      let (_, _, _, others) =
        process_lem md5 can_open execute effect confined directory filename info files outs in
      others (in_directory directory name)
        (source-ne-copy directory name (modify_filename filename info.program.name) h)
        (source-ne-output directory name (modify_filename filename info.program.name) h)
      ∙ kept name h

  process_file-map :
      (filename : Bytes) (infos : List ProgramInfo) (before files : Dir)
      → IsName filename
      → SourcesKept before files
      → let after : List ProgramInfo × Dir =
          process_file md5 can_open execute directory filename infos files in
        (after.0 ≡ map (run_matching md5 can_open effect directory before filename) infos)
        × SourcesKept before after.1
  unfolding process_file
  process_file-map filename [] before files named kept = (refl, kept)
  process_file-map filename (info ∷ infos) before files named kept =
      elim (Bool-cases (matches filename info.program.file_patterns)) [
        | inl e ↦
            let (got, _, _, _) =
              process_lem md5 can_open execute effect confined directory filename info files outs in
            let (rest, kept') =
              process_file-map filename infos before
                (process md5 can_open execute directory filename info files).1 named
                (process-kept filename info before files kept) in
            rw e (
              ap₂ ◌∷◌
                  (got
                    ∙ ap (λ c. run_on md5 can_open effect directory filename c info)
                        (kept filename named))
                  rest,
              kept',
            )
        | inr e ↦
            let (rest, kept') = process_file-map filename infos before files named kept in
            rw e (ap (◌∷◌ info) rest, kept')
      ]

  -- Whatever the other programs and files do, each program gets what it would get on its own.
  pub process_files-run_alone :
      (entries : List Entry) (infos : List ProgramInfo) (before files : Dir)
      → AllNames entries
      → SourcesKept before files
      → (process_files md5 can_open execute directory entries infos files).0
        ≡ map (run_alone md5 can_open effect directory before entries) infos
  unfolding process_files
  process_files-run_alone [] infos before files named kept = sym (map_id infos)
  process_files-run_alone (e ∷ entries) infos before files named kept =
      elim (Bool-cases e.is_regular) [
        | inl r ↦
            let (got, kept') = process_file-map e.filename infos before files named.0 kept in
            rw r (
              process_files-run_alone entries
                (process_file md5 can_open execute directory e.filename infos files).0 before
                (process_file md5 can_open execute directory e.filename infos files).1 named.1 kept'
              ∙ ap (map (run_alone md5 can_open effect directory before entries)) got
              ∙ map-map (run_alone md5 can_open effect directory before entries) _ infos)
        | inr r ↦ rw r (process_files-run_alone entries infos before files named.1 kept)
      ]
