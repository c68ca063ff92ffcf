-- ===== src/Environ/Parent/Laws.antt =====
-- Which children the parent of lab2/src/parent.c starts.
use osisp.Prelude.{
  ℕ, zero, suc, ◌+◌, ◌<◌, ◌≡◌, refl, ap₂, map, length, some, arith, List, [], ◌∷◌, Bool, Bool-cases,
  inl, inr, true, false, ◌==◌, ltb, take, if◌then◌else◌,
}
use osisp.Prelude.Bytes.{Bytes}
use osisp.Environ.{envp_size, getenv, spawn_child, print_env_vars_from_file}
use osisp.Environ.Laws.{spawn_child-selected, spawn_child-whole}
use osisp.Environ.Parent.{
  max_child, child_name, child_exec, child_path, Spawn, child, on_spawned, spawn_numbered, main,
  Call, Ending, quits, spins, when_room, command_loop,
}

map-same :
    {f g : Call → Spawn}
    → ((c : Call) → f c ≡ g c)
    → (cs : List Call) → map (λ c. f c) cs ≡ map (λ c. g c) cs
map-same h [] = refl
map-same h (c ∷ cs) = ap₂ ◌∷◌ (h c) (map-same h cs)

-- The input before the first `q`.
unfoldable pub before_quit : Bytes → Bytes
before_quit [] = []
before_quit (c ∷ input) = if c == b'q' then [] else c ∷ before_quit input

-- The modes that it asks for.
unfoldable pub modes : Bytes → List Bool
modes [] = []
modes (c ∷ input) =
    if c == b'+' then true ∷ modes input else if c == b'*' then false ∷ modes input else modes input

unfoldable pub numbered : ℕ → List Bool → List Call
numbered n [] = []
numbered n (mode ∷ ms) = record { child_num = n; from_file = mode } ∷ numbered (n + 1) ms

unfoldable pub ends : Bytes → Ending
ends [] = spins
ends (c ∷ input) = if c == b'q' then quits else ends input

take-nil : (n : ℕ) → take {A = Bool} n [] ≡ []
take-nil zero = refl
take-nil (suc n) = refl

-- With `room` more children.
abbrev promised : ℕ → ℕ → Bytes → List Call × Ending
promised n room input = (numbered n (take room (modes (before_quit input))), ends input)

when_room-promised :
    (n room : ℕ) (mode : Bool) (input : Bytes) (next : ℕ → List Call × Ending)
    → n + room ≡ max_child
    → ((n' room' : ℕ) → n' + room' ≡ max_child → next n' ≡ promised n' room' input)
    → when_room n mode next
      ≡ (numbered n (take room (mode ∷ modes (before_quit input))), ends input)
unfolding numbered
when_room-promised n zero mode input next e h =
    let full : ltb n max_child ≡ false = ground arith in rw (full, h n zero e) refl
when_room-promised n (suc room) mode input next e h =
    let free : ltb n max_child ≡ true = ground arith in rw (free, h (n + 1) room (omega arith)) refl

command_loop-promised :
    (input : Bytes) (n room : ℕ)
    → n + room ≡ max_child
    → command_loop input n ≡ promised n room input
unfolding command_loop before_quit modes numbered ends
command_loop-promised [] n room e = let none_left = take-nil room in rw none_left refl
command_loop-promised (c ∷ input) n room e = elim (Bool-cases (c == b'+')) [
  | inl plus ↦
      let goes_on : (c == b'q') ≡ false = ground (arith, plus) in
      rw (goes_on, plus)
        (when_room-promised n room true input (λ n'. command_loop input n') e
          (command_loop-promised input))
  | inr no_plus ↦ elim (Bool-cases (c == b'*')) [
    | inl star ↦
        let goes_on : (c == b'q') ≡ false = ground (arith, star) in
        rw (goes_on, no_plus, star)
          (when_room-promised n room false input (λ n'. command_loop input n') e
            (command_loop-promised input))
    | inr no_star ↦ elim (Bool-cases (c == b'q')) [
      | inl quit ↦ let none_left = take-nil room in rw (no_plus, no_star, quit, none_left) refl
      | inr other ↦ rw (other, no_plus, no_star) (command_loop-promised input n room e)
    ]
  ]
]

module _ (access : Bytes → Bool) (lines env : List Bytes) (path : Bytes) where
  -- The child of a call: its executable, its name and its environment.
  abbrev pub promised_child : Call → Spawn
  promised_child c = child (record {
    exec = child_exec path;
    name = child_name c.child_num;
    given = record {
      with_file = c.from_file;
      envp = if c.from_file then print_env_vars_from_file lines env else env;
    };
  })

  pub record Fits : Type 0 where
    pub found : getenv child_path env ≡ some path
    pub executable : access (child_exec path) ≡ true
    pub room : length env < envp_size
    pub room_selected : length (print_env_vars_from_file lines env) < envp_size

  spawn_numbered-promised : Fits → (c : Call) → spawn_numbered access lines env c ≡ promised_child c
  unfolding spawn_numbered
  spawn_numbered-promised h c = rw (h.found, h.executable) (by_mode c.child_num c.from_file)
    where
      by_mode :
          (n : ℕ) (mode : Bool)
          → on_spawned (child_exec path) n (spawn_child mode lines env)
            ≡ promised_child (record { child_num = n; from_file = mode })
      by_mode n true = rw (spawn_child-selected lines env h.room_selected) refl
      by_mode n false = rw (spawn_child-whole lines env h.room) refl

  -- When CHILD_PATH names an executable child and the array has room for both environments:
  -- the parent starts one child for each of the first 100 commands `+` and `*`
  -- before the first `q`, in their order and named by the numbers from 0 on, with the selected
  -- environment for `+` and the whole one for `*`; and it ends exactly if there is a `q`.
  pub main-children :
      Fits
      → (input : Bytes)
      → main access lines env input ≡ (
        map (λ c. promised_child c) (numbered 0 (take max_child (modes (before_quit input)))),
        ends input,
      )
  unfolding main
  main-children h input =
      let calls = numbered 0 (take max_child (modes (before_quit input))) in
      rw
        (
          command_loop-promised input 0 max_child (omega arith),
          map-same (spawn_numbered-promised h) calls,
        )
        refl
