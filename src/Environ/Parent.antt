-- ===== src/Environ/Parent.antt =====
-- The command loop of `main` in lab2/src/parent.c and the calls of `spawn_child` that it makes. The
-- input is what `getchar` returns before the end of the input, and the environment is the one after
-- the calls of `setenv`.
pub mod Laws
mod Tests
use osisp.Prelude.{
  ℕ, zero, suc, ◌+◌, ◌/◌, ◌%◌, List, [], ◌∷◌, ◌++◌, Option, none, some, Bool, true, false, ◌==◌,
  ltb, map, take, if◌then◌else◌,
}
use osisp.Prelude.Bytes.{Bytes}
use osisp.Environ.{Spawned, getenv, spawn_child}

abbrev pub max_child : ℕ
max_child = 100

-- `"CHILD_PATH"`
abbrev pub child_path : Bytes
child_path = b'C' ∷ b'H' ∷ b'I' ∷ b'L' ∷ b'D' ∷ b'_' ∷ b'P' ∷ b'A' ∷ b'T' ∷ b'H' ∷ []

-- `"%s/child"`, cut off at the 255 bytes that `child_exec` has room for.
unfoldable pub child_exec : Bytes → Bytes
child_exec path = take 255 (path ++ b'/' ∷ b'c' ∷ b'h' ∷ b'i' ∷ b'l' ∷ b'd' ∷ [])

-- `"child_%02d"`, for a number below 100.
unfoldable pub child_name : ℕ → Bytes
child_name n = b'c' ∷ b'h' ∷ b'i' ∷ b'l' ∷ b'd' ∷ b'_' ∷ (b'0' + n / 10) ∷ (b'0' + n % 10) ∷ []

-- What is executed, under which name, and what it is given.
pub record Child : Type 0 where
  pub exec : Bytes
  pub name : Bytes
  pub given : Spawned

-- How `spawn_child` ends: with a message, with a store outside `envp`, or with a child.
pub data Spawn : Type 0 where
  refused outside : Spawn
  child : Child → Spawn

-- A call of `spawn_child`: the number, and whether the mode is 1.
pub record Call : Type 0 where
  pub child_num : ℕ
  pub from_file : Bool

pub data Ending : Type 0 where
  quits spins : Ending

abbrev pub on_spawned : Bytes → ℕ → Option Spawned → Spawn
on_spawned exec n none = outside
on_spawned exec n (some s) = child (record { exec = exec; name = child_name n; given = s })

module _ (access : Bytes → Bool) (lines env : List Bytes) where
  -- The head of `spawn_child`, on what `getenv("CHILD_PATH")` gives.
  abbrev pub on_path : Option Bytes → Call → Spawn
  on_path none c = refused
  on_path (some path) c =
      if access (child_exec path)
      then on_spawned (child_exec path) c.child_num (spawn_child c.from_file lines env)
      else refused

  unfoldable pub spawn_numbered : Call → Spawn
  unfolding child_exec child_name
  spawn_numbered c = on_path (getenv child_path env) c

abbrev pub calling : Call → List Call × Ending → List Call × Ending
calling c (calls, ending) = (c ∷ calls, ending)

-- One more child in that mode, if there may be one.
abbrev pub when_room : ℕ → Bool → (ℕ → List Call × Ending) → List Call × Ending
when_room child_num mode next =
    if ltb child_num max_child
    then calling (record { child_num = child_num; from_file = mode }) (next (child_num + 1))
    else next child_num

-- The `while` loop: the calls that it makes, in their order. Nothing tests for the end of the input,
-- which is no command, so the loop then goes round for ever.
unfoldable pub command_loop : Bytes → ℕ → List Call × Ending
command_loop [] child_num = ([], spins)
command_loop (c ∷ input) child_num =
    let next : ℕ → List Call × Ending = λ n. command_loop input n in
    if c == b'+'
    then when_room child_num true next
    else if c == b'*'
    then when_room child_num false next
    else if c == b'q'
    then ([], quits)
    else next child_num

-- `main` from the loop on: what becomes of every call of `spawn_child`.
unfoldable pub main : (Bytes → Bool) → List Bytes → List Bytes → Bytes → List Spawn × Ending
unfolding spawn_numbered command_loop
main access lines env input =
    let (calls, ending) = command_loop input 0 in
    (map (λ c. spawn_numbered access lines env c) calls, ending)
