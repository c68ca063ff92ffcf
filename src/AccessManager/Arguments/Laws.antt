-- ===== src/AccessManager/Arguments/Laws.antt =====
-- Programs that are written as arguments are read back.
use osisp.Prelude.{◌≡◌, ◌≢◌, refl, ap, sym, ◌∙◌, List, [], ◌∷◌, ◌++◌, append-nil, append_assoc}
use osisp.Prelude.Bytes.{Bytes, same_bytes-ne}
use osisp.AccessManager.Arguments.{
  Program, separator, files_word, between, in_args, in_patterns, read_argument, read_arguments,
  all_programs, parse_programs,
}

-- The arguments of a program and its patterns, with `--` at the end.
abbrev pub written_patterns : List Bytes → List Bytes
written_patterns [] = []
written_patterns (pattern ∷ patterns) = files_word ∷ pattern ∷ patterns

abbrev pub command_line : List Program → List Bytes
command_line [] = []
command_line (p ∷ programs) =
    p.args ++ (written_patterns p.file_patterns ++ separator ∷ command_line programs)

abbrev pub NoneIs : Bytes → List Bytes → Type 0
NoneIs word [] = Unit
NoneIs word (arg ∷ args) = (arg ≢ word) × NoneIs word args

-- What can be written: `args` begins with the name, and nothing is taken for a separator.
pub record IsWritable (p : Program) : Type 0 where
  pub own_args : List Bytes
  pub args_eq : p.args ≡ p.name ∷ own_args
  pub name_ne : p.name ≢ separator
  pub args_end : NoneIs separator own_args
  pub args_files : NoneIs files_word own_args
  pub patterns_end : NoneIs separator p.file_patterns

abbrev pub AllWritable : List Program → Type 0
AllWritable [] = Unit
AllWritable (p ∷ programs) = IsWritable p × AllWritable programs

read_name :
    (name : Bytes) (programs : List Program)
    → name ≢ separator
    → read_argument (between, programs) name
      ≡ (in_args (record { name = name; args = name ∷ []; file_patterns = [] }), programs)
unfolding read_argument
read_name name programs ne = rw (same_bytes-ne name separator ne) refl

read_own :
    (p : Program) (programs : List Program) (arg : Bytes)
    → arg ≢ separator
    → arg ≢ files_word
    → read_argument (in_args p, programs) arg
      ≡ (in_args (record p { args = p.args ++ arg ∷ [] }), programs)
unfolding read_argument
read_own p programs arg ne ne' =
    rw (same_bytes-ne arg separator ne, same_bytes-ne arg files_word ne') refl

read_args :
    (own : List Bytes) (p : Program) (programs : List Program) (rest : List Bytes)
    → NoneIs separator own
    → NoneIs files_word own
    → read_arguments (in_args p, programs) (own ++ rest)
      ≡ read_arguments (in_args (record p { args = p.args ++ own }), programs) rest
unfolding read_arguments
read_args [] p programs rest he hf =
    ap (λ l. read_arguments (in_args (record p { args = l }), programs) rest)
      (sym (append-nil p.args))
read_args (arg ∷ own) p programs rest he hf =
    ap (λ q. read_arguments q (own ++ rest)) (read_own p programs arg he.0 hf.0)
    ∙ read_args own (record p { args = p.args ++ arg ∷ [] }) programs rest he.1 hf.1
    ∙ ap (λ l. read_arguments (in_args (record p { args = l }), programs) rest)
        (append_assoc p.args (arg ∷ []) own)

read_pattern :
    (p : Program) (programs : List Program) (arg : Bytes)
    → arg ≢ separator
    → read_argument (in_patterns p, programs) arg
      ≡ (in_patterns (record p { file_patterns = p.file_patterns ++ arg ∷ [] }), programs)
unfolding read_argument
read_pattern p programs arg ne = rw (same_bytes-ne arg separator ne) refl

read_patterns :
    (patterns : List Bytes) (p : Program) (programs : List Program) (rest : List Bytes)
    → NoneIs separator patterns
    → read_arguments (in_patterns p, programs) (patterns ++ rest)
      ≡ read_arguments
          (in_patterns (record p { file_patterns = p.file_patterns ++ patterns }), programs)
          rest
unfolding read_arguments
read_patterns [] p programs rest he =
    ap (λ l. read_arguments (in_patterns (record p { file_patterns = l }), programs) rest)
      (sym (append-nil p.file_patterns))
read_patterns (arg ∷ patterns) p programs rest he =
    ap (λ q. read_arguments q (patterns ++ rest)) (read_pattern p programs arg he.0)
    ∙ read_patterns patterns (record p { file_patterns = p.file_patterns ++ arg ∷ [] }) programs
        rest he.1
    ∙ ap (λ l. read_arguments (in_patterns (record p { file_patterns = l }), programs) rest)
        (append_assoc p.file_patterns (arg ∷ []) patterns)

-- From the state after the program's own arguments to the next program.
read_to_end :
    (patterns : List Bytes) (p : Program) (programs : List Program) (rest : List Bytes)
    → p.file_patterns ≡ []
    → NoneIs separator patterns
    → read_arguments (in_args p, programs) (written_patterns patterns ++ separator ∷ rest)
      ≡ read_arguments (between, programs ++ record p { file_patterns = patterns } ∷ []) rest
unfolding read_arguments read_argument
read_to_end [] p programs rest none he =
    ap (λ l. read_arguments (between, programs ++ record p { file_patterns = l } ∷ []) rest) none
read_to_end (pattern ∷ patterns) p programs rest none he =
    read_patterns (pattern ∷ patterns) p programs (separator ∷ rest) he
    ∙ ap
        (λ l.
          read_arguments
            (between, programs ++ record p { file_patterns = l ++ pattern ∷ patterns } ∷ []) rest)
        none

read_program :
    (p : Program) (programs : List Program) (rest : List Bytes)
    → IsWritable p
    → read_arguments
        (between, programs)
        (p.args ++ (written_patterns p.file_patterns ++ separator ∷ rest))
      ≡ read_arguments (between, programs ++ p ∷ []) rest
unfolding read_arguments
read_program p programs rest w =
    let start : Program = record { name = p.name; args = p.name ∷ []; file_patterns = [] } in
    let tail : List Bytes = written_patterns p.file_patterns ++ separator ∷ rest in
    ap (λ l. read_arguments (between, programs) (l ++ tail)) w.args_eq
    ∙ ap (λ q. read_arguments q (w.own_args ++ tail)) (read_name p.name programs w.name_ne)
    ∙ read_args w.own_args start programs tail w.args_end w.args_files
    ∙ read_to_end p.file_patterns (record start { args = p.name ∷ w.own_args }) programs rest refl
        w.patterns_end
    ∙ ap (λ l. read_arguments (between, programs ++ record p { args = l } ∷ []) rest)
        (sym w.args_eq)

read_programs :
    (ps programs : List Program)
    → AllWritable ps
    → all_programs (read_arguments (between, programs) (command_line ps)) ≡ programs ++ ps
unfolding read_arguments
read_programs [] programs w = sym (append-nil programs)
read_programs (p ∷ ps) programs w =
    ap all_programs (read_program p programs (command_line ps) w.0)
    ∙ read_programs ps (programs ++ p ∷ []) w.1
    ∙ append_assoc programs (p ∷ []) ps

-- Programs whose arguments begin with their name, with a name other than `--`, further arguments other
-- than `--` and `--files`, and patterns other than `--`, are read back from the arguments that they are
-- written as.
pub parse_programs-command_line :
    (programs : List Program)
    → AllWritable programs
    → parse_programs (command_line programs) ≡ programs
unfolding parse_programs
parse_programs-command_line programs w = read_programs programs [] w
