-- ===== src/FileServer/Path.antt =====
-- `trim`, `build_path` and the CD command of lab8/src/server.c on lists of characters.
-- `realpath` is a parameter, `none` for NULL; the sizes of the buffers are left out.
use osisp.Prelude.{
  ℕ, ◌≡◌, refl, ap, subst, List, [], ◌∷◌, ◌++◌, Bool, true, false, ◌&&◌, ◌||◌, Option, none, some,
  length, drop, leb, ◌==◌, if◌then◌else◌,
}
use osisp.Prelude.Bytes.{starts_with, starts_with-append}

abbrev pub slash : ℕ
slash = 47

-- `isspace`
abbrev pub is_space : ℕ → Bool
is_space c = (c == 32) || leb 9 c && leb c 13

-- The first loop of `trim`.
unfoldable pub skip_spaces : List ℕ → List ℕ
skip_spaces [] = []
skip_spaces (c ∷ cs) = if is_space c then skip_spaces cs else c ∷ cs

-- The second loop: a character is dropped if it and all after it are spaces.
unfoldable pub drop_spaces : List ℕ → List ℕ
drop_spaces [] = []
drop_spaces (c ∷ cs) = keep c (drop_spaces cs)
  where
    keep : ℕ → List ℕ → List ℕ
    keep c [] = if is_space c then [] else c ∷ []
    keep c (d ∷ ds) = c ∷ d ∷ ds

unfoldable pub trim : List ℕ → List ℕ
unfolding skip_spaces drop_spaces
trim s = drop_spaces (skip_spaces s)

-- The path before `realpath`.
abbrev pub joined : List ℕ → List ℕ → List ℕ → List ℕ
joined root cwd [] = root ++ slash ∷ (cwd ++ slash ∷ [])
joined root cwd (c ∷ target) =
    if c == slash then root ++ c ∷ target else root ++ slash ∷ (cwd ++ slash ∷ c ∷ target)

abbrev pub inside : List ℕ → Option (List ℕ) → Option (List ℕ)
inside root none = none
inside root (some path) = if starts_with root path then some path else none

abbrev pub without_slash : List ℕ → List ℕ
without_slash [] = []
without_slash (c ∷ rel) = if c == slash then rel else c ∷ rel

abbrev pub moved : List ℕ → List ℕ → Option (List ℕ) → List ℕ
moved root cwd none = cwd
moved root cwd (some path) = without_slash (drop (length root) path)

-- What stands before the last slash, as `strrchr` finds it, `none` without a slash.
unfoldable pub before_slash : List ℕ → Option (List ℕ)
before_slash [] = none
before_slash (c ∷ cs) = longer c (before_slash cs)
  where
    longer : ℕ → Option (List ℕ) → Option (List ℕ)
    longer c (some l) = some (c ∷ l)
    longer c none = if c == slash then some [] else none

-- CD to `..`
abbrev pub or_root : Option (List ℕ) → List ℕ
or_root none = []
or_root (some l) = l

unfoldable pub parent : List ℕ → List ℕ
unfolding before_slash
parent cwd = or_root (before_slash cwd)

module _ (realpath : List ℕ → Option (List ℕ)) where
  unfoldable pub build_path : List ℕ → List ℕ → List ℕ → Option (List ℕ)
  unfolding starts_with
  build_path root cwd target = inside root (realpath (joined root cwd target))

  -- CD to a path: the new directory relative to the root.
  unfoldable pub change_to : List ℕ → List ℕ → List ℕ → List ℕ
  unfolding build_path
  change_to root cwd target = moved root cwd (build_path root cwd target)

accepted :
    (b : Bool) (p path : List ℕ)
    → (if b then some p else none) ≡ some path
    → (b ≡ true) × (p ≡ path)
accepted true p path h = (refl, cc h)
accepted false p path h = cc h

inside-some :
    (root path : List ℕ) (o : Option (List ℕ))
    → inside root o ≡ some path
    → path ≡ root ++ drop (length root) path
inside-some root path none h = cc h
inside-some root path (some p) h =
    let (starts, same) = accepted (starts_with root p) p path h in
    subst (λ l. l ≡ root ++ drop (length root) l) same (starts_with-append root p starts)

-- A path that `build_path` gives starts with the root.
pub build_path_prefix :
    (realpath : List ℕ → Option (List ℕ)) (root cwd target path : List ℕ)
    → build_path realpath root cwd target ≡ some path
    → path ≡ root ++ drop (length root) path
unfolding build_path
build_path_prefix realpath root cwd target path h =
    inside-some root path (realpath (joined root cwd target)) h

inside-real : (root path : List ℕ) (o : Option (List ℕ)) → inside root o ≡ some path → o ≡ some path
inside-real root path none h = cc h
inside-real root path (some p) h = ap (λ l. some l) (accepted (starts_with root p) p path h).1

-- A path that `build_path` gives is one that `realpath` gave.
pub build_path-real :
    (realpath : List ℕ → Option (List ℕ)) (root cwd target path : List ℕ)
    → build_path realpath root cwd target ≡ some path
    → realpath (joined root cwd target) ≡ some path
unfolding build_path
build_path-real realpath root cwd target path h =
    inside-real root path (realpath (joined root cwd target)) h
