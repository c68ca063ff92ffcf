-- ===== src/AccessManager/Arguments.antt =====
-- The loop of Access_manager/main.c that reads the programs, their arguments and their file patterns
-- from the arguments after the directory.
pub mod Laws
use osisp.Prelude.{List, [], ◌∷◌, ◌++◌, if◌then◌else◌}
use osisp.Prelude.Bytes.{Bytes, same_bytes}

-- What the loop fills in of a `ProgramInfo`; `args` begins with the name.
pub record Program : Type 0 where
  pub name : Bytes
  pub args : List Bytes
  pub file_patterns : List Bytes

-- `--`
abbrev pub separator : Bytes
separator = b'-' ∷ b'-' ∷ []

-- `--files`
abbrev pub files_word : Bytes
files_word = b'-' ∷ b'-' ∷ b'f' ∷ b'i' ∷ b'l' ∷ b'e' ∷ b's' ∷ []

-- Where the loop stands: at its head, or in one of the inner loops of a program.
pub data Mode : Type 0 where
  between : Mode
  in_args in_patterns : Program → Mode

-- The mode, and the programs before the one that is being read.
abbrev pub Parser : Type 0
Parser = Mode × List Program

-- One argument. `--` ends an inner loop and is then skipped at the head of the outer one.
unfoldable pub read_argument : Parser → Bytes → Parser
read_argument (between, programs) arg =
    if same_bytes arg separator
    then (between, programs)
    else (in_args (record { name = arg; args = arg ∷ []; file_patterns = [] }), programs)
read_argument (in_args p, programs) arg =
    if same_bytes arg separator
    then (between, programs ++ p ∷ [])
    else if same_bytes arg files_word
    then (in_patterns p, programs)
    else (in_args (record p { args = p.args ++ arg ∷ [] }), programs)
read_argument (in_patterns p, programs) arg =
    if same_bytes arg separator
    then (between, programs ++ p ∷ [])
    else (in_patterns (record p { file_patterns = p.file_patterns ++ arg ∷ [] }), programs)

-- At the end of the arguments.
abbrev pub all_programs : Parser → List Program
all_programs (between, programs) = programs
all_programs (in_args p, programs) = programs ++ p ∷ []
all_programs (in_patterns p, programs) = programs ++ p ∷ []

unfoldable pub read_arguments : Parser → List Bytes → Parser
unfolding read_argument
read_arguments parser [] = parser
read_arguments parser (arg ∷ args) = read_arguments (read_argument parser arg) args

-- `argv[2]` and the rest.
unfoldable pub parse_programs : List Bytes → List Program
unfolding read_arguments
parse_programs args = all_programs (read_arguments (between, []) args)
