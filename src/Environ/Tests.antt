-- ===== src/Environ/Tests.antt =====
-- A child of lab2/src/parent.c with three names in its file, of which two are set.
use osisp.Prelude.{◌≡◌, refl, arith, List, [], ◌∷◌, some, true}
use osisp.Prelude.Bytes.{Bytes}
use osisp.Environ.{
  without_newline, value_in, getenv, Spawned, spawn_child, print_names, print_env_vars_from_file,
  child_main,
}
use osisp.Environ.Laws.{IsName, AreNames, child_prints}

-- "A\n", "C\n", "AB"
abbrev lines : List Bytes
lines = (65 ∷ 10 ∷ []) ∷ (67 ∷ 10 ∷ []) ∷ (65 ∷ 66 ∷ []) ∷ []

-- "AB=2", "A=1", "D="
abbrev env : List Bytes
env = (65 ∷ 66 ∷ 61 ∷ 50 ∷ []) ∷ (65 ∷ 61 ∷ 49 ∷ []) ∷ (68 ∷ 61 ∷ []) ∷ []

print-selected :
    print_env_vars_from_file lines env ≡ (65 ∷ 61 ∷ 49 ∷ []) ∷ (65 ∷ 66 ∷ 61 ∷ 50 ∷ []) ∷ []
unfolding print_env_vars_from_file print_names getenv value_in without_newline
print-selected = refl

child_prints_example :
    (s : Spawned) × (spawn_child true lines env ≡ some s)
    × (child_main lines s ≡ s.envp)
    × (s.envp ≡ print_env_vars_from_file lines env)
unfolding AreNames IsName without_newline print_env_vars_from_file print_names getenv value_in
child_prints_example =
    child_prints lines env
      ((omega arith, tt), ((omega arith, tt), ((omega arith, (omega arith, tt)), tt))) (omega arith)
