-- ===== src/Environ.antt =====
-- The environment that lab2/src/parent.c gives to a child, and what lab2/src/child.c prints of it.
-- A string is a list of bytes without its final NUL, an entry of the environment is `name=value`. The
-- lines of the file `env` are those that `fgets` returns. malloc, fopen and access succeed.
pub mod Laws
pub mod Parent
mod Tests
use osisp.Prelude.{
  ℕ, ◌+◌, List, [], ◌∷◌, ◌++◌, Option, none, some, Bool, true, false, ◌==◌, ltb, if◌then◌else◌,
  length, map,
}
use osisp.Prelude.Bytes.{Bytes}

-- The size of `envp` in `spawn_child`.
abbrev pub envp_size : ℕ
envp_size = 100

abbrev pub newline : ℕ
newline = 10

abbrev pub equals : ℕ
equals = 61

-- `line[strcspn(line, "\n")] = 0`
unfoldable pub without_newline : Bytes → Bytes
without_newline [] = []
without_newline (c ∷ line) = if c == newline then [] else c ∷ without_newline line

-- What stands in an entry behind `name=`.
unfoldable pub value_in : Bytes → Bytes → Option Bytes
value_in [] [] = none
value_in [] (c ∷ value) = if c == equals then some value else none
value_in (n ∷ name) [] = none
value_in (n ∷ name) (c ∷ entry) =
    let rest : Option Bytes = value_in name entry in if n == c then rest else none

abbrev pub first_of : Option Bytes → Option Bytes → Option Bytes
first_of none other = other
first_of (some value) other = some value

-- `getenv`: the first entry of that name; the empty name has none.
unfoldable pub getenv : Bytes → List Bytes → Option Bytes
getenv [] env = none
getenv (n ∷ name) [] = none
getenv (n ∷ name) (entry ∷ env) = first_of (value_in (n ∷ name) entry) (getenv (n ∷ name) env)

-- `"%s=%s"` of a name and its value.
abbrev pub entry_of : Bytes → Bytes → Bytes
entry_of name value = name ++ equals ∷ value

abbrev pub stored :
    (List Bytes → Option (List Bytes)) → List Bytes → Bytes → Option Bytes → Option (List Bytes)
stored next envp name none = next envp
stored next envp name (some value) =
    let rest : Option (List Bytes) = next (envp ++ entry_of name value ∷ []) in
    if ltb (length envp) envp_size then rest else none

-- The loop of `read_env_file` on the names in the file, with the `count` entries stored so far. A
-- store outside `envp` is a fault, also that of the final NULL.
unfoldable pub read_names : List Bytes → List Bytes → List Bytes → Option (List Bytes)
read_names [] env envp = if ltb (length envp) envp_size then some envp else none
read_names (name ∷ names) env envp =
    stored (λ envp'. read_names names env envp') envp name (getenv name env)

unfoldable pub read_env_file : List Bytes → List Bytes → Option (List Bytes)
read_env_file lines env = read_names (map (λ l. without_newline l) lines) env []

-- `execve`: whether the file's name is passed, and the environment.
pub record Spawned : Type 0 where
  pub with_file : Bool
  pub envp : List Bytes

abbrev pub spawned : Bool → Option (List Bytes) → Option Spawned
spawned with_file none = none
spawned with_file (some envp) = some (record { with_file = with_file; envp = envp })

-- `spawn_child` in mode 1 (`+`) and in mode 0 (`*`), which copies the whole environment and a NULL.
unfoldable pub spawn_child : Bool → List Bytes → List Bytes → Option Spawned
spawn_child true lines env = spawned true (read_env_file lines env)
spawn_child false lines env = spawned false (if ltb (length env) envp_size then some env else none)

abbrev pub with_value : Bytes → Option Bytes → List Bytes
with_value name none = []
with_value name (some value) = entry_of name value ∷ []

-- The loop of `print_env_vars_from_file` in the child, on the names in the file: the printed lines.
unfoldable pub print_names : List Bytes → List Bytes → List Bytes
print_names [] env = []
print_names (name ∷ names) env = with_value name (getenv name env) ++ print_names names env

unfoldable pub print_env_vars_from_file : List Bytes → List Bytes → List Bytes
print_env_vars_from_file lines env = print_names (map (λ l. without_newline l) lines) env

-- `main` of the child: from the file if its name was passed, else its whole environment.
unfoldable pub child_main : List Bytes → Spawned → List Bytes
child_main lines s = if s.with_file then print_env_vars_from_file lines s.envp else s.envp
