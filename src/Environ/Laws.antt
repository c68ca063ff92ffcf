-- ===== src/Environ/Laws.antt =====
-- What a child of lab2/src/parent.c prints.
use mathlib.Core.Option.{none-ne-some}
use mathlib.Core.Bool.{true≢false}
use osisp.Prelude.{
  ℕ, ◌+◌, ◌<◌, ◌≤◌, ◌≡◌, ◌≢◌, refl, ap, sym, ◌∙◌, arith, List, [], ◌∷◌, ◌++◌, append_assoc,
  append-nil, none, some, Option-cases, Bool-cases, true, false, ◌==◌, ltb, length, length-append,
  map, ◌⊎◌, inl, inr,
}
use osisp.Prelude.Bytes.{Bytes, same_bytes, eq_of_same_bytes, same_bytes_refl}
use osisp.Environ.{
  envp_size, equals, without_newline, value_in, getenv, entry_of, read_names, read_env_file,
  Spawned, spawn_child, with_value, print_names, print_env_vars_from_file, child_main,
}

-- A name without `=`.
unfoldable pub IsName : Bytes → Type 0
IsName [] = Unit
IsName (c ∷ name) = (c ≢ equals) × IsName name

unfoldable pub AreNames : List Bytes → Type 0
AreNames [] = Unit
AreNames (name ∷ names) = IsName name × AreNames names

unfoldable pub Among : Bytes → List Bytes → Type 0
Among name [] = ⊥
Among name (m ∷ names) = (name ≡ m) ⊎ Among name names

value_in_self : (name value : Bytes) → value_in name (entry_of name value) ≡ some value
unfolding value_in
value_in_self [] value = refl
value_in_self (n ∷ name) value = let e = value_in_self name value in ground (arith, e)

-- The entry of another name has no value for this one.
value_in_other :
    (name m value : Bytes)
    → IsName name
    → IsName m
    → same_bytes name m ≡ false
    → value_in name (entry_of m value) ≡ none
unfolding value_in IsName
value_in_other [] [] value _ _ ne = absurd (ground (arith, ne))
value_in_other [] (c ∷ m) value hn hm ne = let h = hm.0 in ground (arith, h)
value_in_other (n ∷ name) [] value hn hm ne = let h = hn.0 in ground (arith, h)
value_in_other (n ∷ name) (c ∷ m) value hn hm ne = elim (Bool-cases (n == c)) [
  | inr differs ↦ rw differs refl
  | inl same ↦
      let rest : same_bytes name m ≡ false = ground (arith, same, ne) in
      rw (same, value_in_other name m value hn.1 hm.1 rest) refl
]

getenv-nil : (name : Bytes) → getenv name [] ≡ none
unfolding getenv
getenv-nil [] = refl
getenv-nil (n ∷ name) = refl

getenv-skip :
    (name entry : Bytes) (env : List Bytes)
    → value_in name entry ≡ none
    → getenv name (entry ∷ env) ≡ getenv name env
unfolding getenv
getenv-skip [] entry env e = refl
getenv-skip (n ∷ name) entry env e = rw e refl

getenv-hit :
    (n : ℕ) (name value : Bytes) (env : List Bytes)
    → getenv (n ∷ name) (entry_of (n ∷ name) value ∷ env) ≡ some value
unfolding getenv
getenv-hit n name value env = rw (value_in_self (n ∷ name) value) refl

-- A name that the environment does not have is not among the selected entries.
getenv-print_none :
    (name : Bytes) (names env : List Bytes)
    → IsName name
    → AreNames names
    → getenv name env ≡ none
    → getenv name (print_names names env) ≡ none
unfolding print_names AreNames
getenv-print_none name [] env hn hs e = getenv-nil name
getenv-print_none name (m ∷ names) env hn hs e = elim (Option-cases (getenv m env)) [
  | inl missing ↦ rw missing (getenv-print_none name names env hn hs.1 e)
  | inr (v, found) ↦ elim (Bool-cases (same_bytes name m)) [
    | inl same ↦
        let both : getenv m env ≡ none = rw (eq_of_same_bytes name m same) at e in
        absurd (none-ne-some v (sym both ∙ found))
    | inr differs ↦ rw found (
        getenv-skip name (entry_of m v) (print_names names env)
          (value_in_other name m v hn hs.0 differs)
        ∙ getenv-print_none name names env hn hs.1 e)
  ]
]

getenv-empty : (env : List Bytes) → getenv [] env ≡ none
unfolding getenv
getenv-empty env = refl

-- A name of the file has the same value among the selected entries as in the environment.
getenv-print_same :
    (name : Bytes) (names env : List Bytes)
    → IsName name
    → AreNames names
    → Among name names
    → getenv name (print_names names env) ≡ getenv name env
unfolding print_names AreNames Among
getenv-print_same [] names env hn hs among =
    getenv-empty (print_names names env) ∙ sym (getenv-empty env)
getenv-print_same (n ∷ name) [] env hn hs among = absurd among
getenv-print_same (n ∷ name) (m ∷ names) env hn hs among =
    elim (Bool-cases (same_bytes (n ∷ name) m)) [
      | inl same ↦ at_name (eq_of_same_bytes (n ∷ name) m same) (Option-cases (getenv m env))
      | inr differs ↦ elim among [
        | inl e ↦
            let same = ap (λ x. same_bytes (n ∷ name) x) (sym e) ∙ same_bytes_refl (n ∷ name) in
            absurd (true≢false (sym same ∙ differs))
        | inr rest ↦
            past_name differs (getenv-print_same (n ∷ name) names env hn hs.1 rest)
              (Option-cases (getenv m env))
      ]
    ]
  where
    Found : Type 0
    Found = (getenv m env ≡ none) ⊎ ((v : Bytes) × (getenv m env ≡ some v))

    Goal : Type 0
    Goal =
        getenv (n ∷ name) (with_value m (getenv m env) ++ print_names names env)
        ≡ getenv (n ∷ name) env

    at_name : n ∷ name ≡ m → Found → Goal
    at_name e (inl missing) =
        let gone : getenv (n ∷ name) env ≡ none = rw (sym e) at missing in
        rw missing (getenv-print_none (n ∷ name) names env hn hs.1 gone) ∙ sym gone
    at_name e (inr (v, found)) =
        let here : getenv (n ∷ name) env ≡ some v = rw (sym e) at found in
        rw (found, sym e, here) (getenv-hit n name v (print_names names env))

    past_name :
        same_bytes (n ∷ name) m ≡ false
        → getenv (n ∷ name) (print_names names env) ≡ getenv (n ∷ name) env
        → Found
        → Goal
    past_name differs next (inl missing) = rw missing next
    past_name differs next (inr (v, found)) = rw found (
        getenv-skip (n ∷ name) (entry_of m v) (print_names names env)
          (value_in_other (n ∷ name) m v hn hs.0 differs)
        ∙ next)

-- Some of the names select the same among the selected entries as in the environment.
print_names-again :
    (part names env : List Bytes)
    → AreNames part
    → AreNames names
    → ((name : Bytes) → Among name part → Among name names)
    → print_names part (print_names names env) ≡ print_names part env
unfolding print_names AreNames Among
print_names-again [] names env hp hs within = refl
print_names-again (m ∷ part) names env hp hs within =
    rw
      (
        getenv-print_same m names env hp.0 hs (within m (inl refl)),
        print_names-again part names env hp.1 hs λ name h. within name (inr h),
      )
      refl

-- With room for them and the final NULL, the loop stores the selected entries behind the first ones.
read_names-append :
    (names env envp : List Bytes)
    → length envp + length (print_names names env) < envp_size
    → read_names names env envp ≡ some (envp ++ print_names names env)
unfolding read_names print_names
read_names-append [] env envp room =
    let fits : ltb (length envp) envp_size ≡ true = ground arith in rw (fits, append-nil envp) refl
read_names-append (m ∷ names) env envp room = elim (Option-cases (getenv m env)) [
  | inl missing ↦
      let left : length envp + length (print_names names env) < envp_size = rw missing at room in
      rw missing (read_names-append names env envp left)
  | inr (v, found) ↦
      let entry : Bytes = entry_of m v in
      let left : length envp + (1 + length (print_names names env)) < envp_size =
        omega (arith, rw found at room) in
      let fits : ltb (length envp) envp_size ≡ true = ground arith in
      let grown : length (envp ++ entry ∷ []) ≡ length envp + 1 = length-append envp (entry ∷ []) in
      rw
        (
          found,
          fits,
          read_names-append names env (envp ++ entry ∷ []) (omega (arith, grown)),
          append_assoc envp (entry ∷ []) (print_names names env),
        )
        refl
]

-- The two modes of `spawn_child`, with room in the array.
pub spawn_child-selected :
    (lines env : List Bytes)
    → length (print_env_vars_from_file lines env) < envp_size
    → spawn_child true lines env
      ≡ some (record { with_file = true; envp = print_env_vars_from_file lines env })
unfolding spawn_child read_env_file print_env_vars_from_file
spawn_child-selected lines env room =
    rw (read_names-append (map (λ l. without_newline l) lines) env [] (omega arith)) refl

pub spawn_child-whole :
    (lines env : List Bytes)
    → length env < envp_size
    → spawn_child false lines env ≡ some (record { with_file = false; envp = env })
unfolding spawn_child
spawn_child-whole lines env room =
    let fits : ltb (length env) envp_size ≡ true = ground arith in rw fits refl

-- When no name in the file holds `=` and fewer than 100 of its variables are set: the command `+`
-- starts a child, whose environment is what it prints, and it prints what it would print with its
-- parent's whole environment.
pub child_prints :
    (lines env : List Bytes)
    → AreNames (map (λ l. without_newline l) lines)
    → length (print_env_vars_from_file lines env) < envp_size
    → (s : Spawned) × (spawn_child true lines env ≡ some s)
      × (child_main lines s ≡ s.envp)
      × (s.envp ≡ print_env_vars_from_file lines env)
unfolding spawn_child read_env_file child_main print_env_vars_from_file
child_prints lines env h room =
    let names : List Bytes = map (λ l. without_newline l) lines in
    (
      record { with_file = true; envp = print_names names env },
      rw (read_names-append names env [] (omega arith)) refl,
      print_names-again names names env h h λ name among. among,
      refl,
    )

-- With 100 entries or more in the environment, the command `*` writes outside its array.
pub spawn_child_overflows :
    (lines env : List Bytes) → envp_size ≤ length env → spawn_child false lines env ≡ none
unfolding spawn_child
spawn_child_overflows lines env many =
    let full : ltb (length env) envp_size ≡ false = ground arith in rw full refl
