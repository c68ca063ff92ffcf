-- ===== src/AccessManager/Copies/Laws.antt =====
-- What a run of a program leaves behind.
use osisp.Prelude.{
  ◌≡◌, ◌≢◌, refl, ap, sym, ◌∙◌, [], ◌∷◌, ◌++◌, Bool, Bool-cases, true, false, Option, none, some,
  ◌⊎◌, inl, inr, if◌then◌else◌, length, length-append, arith,
}
use osisp.Prelude.Bytes.{Bytes}
use osisp.AccessManager.Arguments.{Program}
use osisp.AccessManager.Copies.{
  modify_filename, ProgramInfo, with_output, same_hash, in_directory, copypath, temp_out, hashed,
  run_copy, process,
}
use osisp.AccessManager.Copies.Store.{
  Dir, lookup, write_file, remove_file, lookup-remove_file_self, lookup-remove_file_ne,
  lookup-write_file_self, lookup-write_file_ne,
}

-- What a program leaves of a file's content, `none` if it removes the file, and what it writes.
abbrev pub Effect : Type 0
Effect = Program → Bytes → Bytes → Option Bytes × Option Bytes

-- A program that has the effect on the file that it is given and on its output, and leaves every other
-- file alone.
pub record IsConfined (execute : Program → Bytes → Bytes → Dir → Dir) (effect : Effect)
    : Type 0 where
  pub keeps :
      (p : Program) (path out other : Bytes) (files : Dir)
      → other ≢ path
      → other ≢ out
      → lookup other (execute p path out files) ≡ lookup other files
  pub leaves :
      (p : Program) (path out content : Bytes) (files : Dir)
      → path ≢ out
      → lookup path files ≡ some content
      → lookup out files ≡ some []
      → lookup path (execute p path out files) ≡ (effect p path content).0
  pub writes :
      (p : Program) (path out content : Bytes) (files : Dir)
      → path ≢ out
      → lookup path files ≡ some content
      → lookup out files ≡ some []
      → lookup out (execute p path out files) ≡ (effect p path content).1

-- Where a copy can be opened, so can the file for the output.
abbrev pub OutputsOpen : (Bytes → Bool) → Type 0
OutputsOpen can_open = (path : Bytes) → can_open path ≡ true → can_open (temp_out path) ≡ true

pub temp_out-ne : (path : Bytes) → path ≢ temp_out path
temp_out-ne path e = omega (arith, ap length e, length-append path (b'.' ∷ b'o' ∷ b'u' ∷ b't' ∷ []))

Option-cases : (o : Option Bytes) → (o ≡ none) ⊎ ((c : Bytes) × (o ≡ some c))
Option-cases none = inl refl
Option-cases (some c) = inr (c, refl)

abbrev unless_same : Bool → Bytes → Dir → Dir
unless_same b path ran = if b then remove_file path ran else ran

unless_same_self :
    (b : Bool) (path : Bytes) (ran : Dir)
    → lookup path (unless_same b path ran) ≡ (if b then none else lookup path ran)
unless_same_self true path ran = lookup-remove_file_self path ran
unless_same_self false path ran = refl

unless_same_ne :
    (b : Bool) (path other : Bytes) (ran : Dir)
    → other ≢ path
    → lookup other (unless_same b path ran) ≡ lookup other ran
unless_same_ne true path other ran ne = lookup-remove_file_ne path other ran ne
unless_same_ne false path other ran ne = refl

module _ (md5 : Bytes → Bytes) (can_open : Bytes → Bool) (effect : Effect) where
  -- The copy that a run leaves: none if the hash of its content is that of the original.
  abbrev pub kept_copy : Program → Bytes → Bytes → Option Bytes
  kept_copy p path content =
      if same_hash (some (md5 content)) (hashed md5 (effect p path content).0)
      then none
      else (effect p path content).0

  -- What a run adds.
  abbrev pub added : Bytes → Bytes → Bytes → ProgramInfo → ProgramInfo
  added modname path content info = record info {
    output = with_output info.output (effect info.program path content).1;
    processed_files = info.processed_files ++ modname ∷ [];
  }

  -- What a program gets from a file whose content is as given, `none` if it cannot be opened.
  abbrev pub run_on : Bytes → Bytes → Option Bytes → ProgramInfo → ProgramInfo
  run_on directory filename none info = info
  run_on directory filename (some content) info =
      let path : Bytes = copypath directory filename info.program.name in
      if can_open path
      then added (modify_filename filename info.program.name) path content info
      else info

  -- The file for the output afterwards, where it was `old` before.
  abbrev pub output_after : Bytes → Option Bytes → Option Bytes → Option Bytes
  output_after path none old = old
  output_after path (some content) old = if can_open path then none else old

  -- The copy afterwards, where it was `old` before.
  abbrev pub copy_after : Program → Bytes → Option Bytes → Option Bytes → Option Bytes
  copy_after p path none old = if can_open path then some [] else old
  copy_after p path (some content) old = if can_open path then kept_copy p path content else old

module _ (md5 : Bytes → Bytes) (can_open : Bytes → Bool)
    (execute : Program → Bytes → Bytes → Dir → Dir) (effect : Effect)
    (confined : IsConfined execute effect) where
  run_copy_lem :
      (modname path content : Bytes) (info : ProgramInfo) (files : Dir)
      → can_open (temp_out path) ≡ true
      → lookup path files ≡ some content
      → let after : ProgramInfo × Dir = run_copy md5 can_open execute modname path info files in
        (after.0 ≡ added md5 can_open effect modname path content info)
        × (lookup path after.1 ≡ kept_copy md5 can_open effect info.program path content)
        × (lookup (temp_out path) after.1 ≡ none)
        × ((other : Bytes)
            → other ≢ path
            → other ≢ temp_out path
            → lookup other after.1 ≡ lookup other files)
  unfolding run_copy
  run_copy_lem modname path content info files opens found =
      let out : Bytes = temp_out path in
      let started : Dir = write_file out [] files in
      let ran : Dir = execute info.program path out started in
      let ready : lookup path started ≡ some content =
        lookup-write_file_ne out path [] files (temp_out-ne path) ∙ found in
      let empty : lookup out started ≡ some [] = lookup-write_file_self out [] files in
      let left : lookup path ran ≡ (effect info.program path content).0 =
        confined.leaves info.program path out content started (temp_out-ne path) ready empty in
      let text : lookup out ran ≡ (effect info.program path content).1 =
        confined.writes info.program path out content started (temp_out-ne path) ready empty in
      let b : Bool = same_hash (some (md5 content)) (hashed md5 (lookup path ran)) in
      let ne : out ≢ path = λ e. temp_out-ne path (sym e) in
      rw (opens, found)
        (
          ap
              (λ o. record info {
                output = with_output info.output o;
                processed_files = info.processed_files ++ modname ∷ [];
              })
              (unless_same_ne b path out ran ne ∙ text),
          lookup-remove_file_ne out path (unless_same b path ran) (temp_out-ne path)
              ∙ unless_same_self b path ran
              ∙ ap (λ o. if same_hash (some (md5 content)) (hashed md5 o) then none else o) left,
          lookup-remove_file_self out (unless_same b path ran),
          λ other away off.
              lookup-remove_file_ne out other (unless_same b path ran) off
              ∙ unless_same_ne b path other ran away
              ∙ confined.keeps info.program path out other started away off
              ∙ lookup-write_file_ne out other [] files off,
        )

  -- For programs that are confined to their copy and their output, where the output can be opened
  -- wherever the copy can. A file and a copy that can be opened: the program's run adds the name of the
  -- copy and the output, and the copy is left exactly if the program has left it with another hash. A
  -- file that cannot be opened: the program gets nothing and an empty copy is left. A copy that cannot
  -- be opened: the program is skipped. The file for the output is gone after a run, and no other file
  -- changes.
  pub process_lem :
      (directory filename : Bytes) (info : ProgramInfo) (files : Dir)
      → OutputsOpen can_open
      → let path : Bytes = copypath directory filename info.program.name in
        let content : Option Bytes = lookup (in_directory directory filename) files in
        let after : ProgramInfo × Dir =
          process md5 can_open execute directory filename info files in
        (after.0 ≡ run_on md5 can_open effect directory filename content info)
        × (lookup path after.1
            ≡ copy_after md5 can_open effect info.program path content (lookup path files))
        × (lookup (temp_out path) after.1
            ≡ output_after md5 can_open effect path content (lookup (temp_out path) files))
        × ((other : Bytes)
            → other ≢ path
            → other ≢ temp_out path
            → lookup other after.1 ≡ lookup other files)
  unfolding process
  process_lem directory filename info files outs =
      elim (Option-cases (lookup (in_directory directory filename) files)) [
        | inl none_ ↦ elim (Bool-cases (can_open path)) [
          | inl opens ↦
              rw (none_, opens)
                (
                  refl,
                  lookup-write_file_self path [] files,
                  lookup-write_file_ne path (temp_out path) [] files
                      (λ e. temp_out-ne path (sym e)),
                  λ other away off. lookup-write_file_ne path other [] files away,
                )
          | inr shut ↦ rw (none_, shut) (refl, refl, refl, λ other away off. refl)
        ]
        | inr (content, found) ↦ elim (Bool-cases (can_open path)) [
          | inl opens ↦
              let (got, copy, cleared, others) =
                run_copy_lem modname path content info (write_file path content files)
                  (outs path opens) (lookup-write_file_self path content files) in
              rw (found, opens)
                (
                  got,
                  copy,
                  cleared,
                  λ other away off.
                      others other away off ∙ lookup-write_file_ne path other content files away,
                )
          | inr shut ↦ rw (found, shut) (refl, refl, refl, λ other away off. refl)
        ]
      ]
    where
      path : Bytes
      path = copypath directory filename info.program.name

      modname : Bytes
      modname = modify_filename filename info.program.name
