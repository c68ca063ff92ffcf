-- ===== src/Environ/Parent/Tests.antt =====
-- A run of the parent of lab2/src/parent.c: `+`, a newline, `*` and `q`.
use osisp.Prelude.{◌≡◌, refl, arith, List, [], ◌∷◌, ◌++◌, Bool, true, false}
use osisp.Prelude.Bytes.{Bytes}
use osisp.Environ.{value_in, getenv, without_newline, print_env_vars_from_file, print_names}
use osisp.Environ.Parent.{child, child_exec, child_name, child_path, quits, main}
use osisp.Environ.Parent.Laws.{before_quit, modes, numbered, ends, Fits, main-children}

-- `CHILD_PATH=b`, `A=1`, and a file that names `A`.
abbrev env : List Bytes
env = (child_path ++ b'=' ∷ b'b' ∷ []) ∷ (b'A' ∷ b'=' ∷ b'1' ∷ []) ∷ []

abbrev lines : List Bytes
lines = (b'A' ∷ 10 ∷ []) ∷ []

executable : Bytes → Bool
executable path = true

env-Fits : Fits executable lines env (b'b' ∷ [])
unfolding getenv value_in executable print_env_vars_from_file print_names without_newline
env-Fits = record {
  found = refl;
  executable = refl;
  room = omega arith;
  room_selected = omega arith;
}

abbrev run : Bytes
run = b'+' ∷ 10 ∷ b'*' ∷ b'q' ∷ b'+' ∷ []

main-children_example : main executable lines env run ≡ (
  child (record {
    exec = child_exec (b'b' ∷ []);
    name = child_name 0;
    given = record { with_file = true; envp = (b'A' ∷ b'=' ∷ b'1' ∷ []) ∷ [] };
  })
      ∷ child (record {
        exec = child_exec (b'b' ∷ []);
        name = child_name 1;
        given = record { with_file = false; envp = env };
      })
      ∷ [],
  quits,
)
unfolding before_quit modes numbered ends getenv value_in print_env_vars_from_file print_names
    without_newline
main-children_example = main-children executable lines env (b'b' ∷ []) env-Fits run
