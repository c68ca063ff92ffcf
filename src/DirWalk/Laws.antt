-- ===== src/DirWalk/Laws.antt =====
-- `dirwalk` gives the first `MAX_FILES` paths of the reference listing.
use osisp.Prelude.{
  ℕ, zero, suc, ◌+◌, ◌-◌, ◌<◌, ◌≤◌, ◌≡◌, refl, ap, sym, ◌∙◌, inl, inr, List, [], ◌∷◌, ◌++◌,
  append-nil, append_assoc, Bool, Bool-cases, true, false, Option, some, Option-cases, length,
  length-append, length-take, take, ltb, lt→ltb, if◌then◌else◌, arith, dec_lt,
}
use osisp.DirWalk.{
  FilePath, FileSystem, Options, Mode, link, directory, regular, other, match_type, is_dots,
  ends_in_slash, full_path, path_max, max_files, visit, walk_entries, dirwalk,
}
use osisp.DirWalk.Listing.{entry_listing, entries_listing, listing, ShortDirectories}

-- What fits of more files.
abbrev pub fitted : List FilePath → List FilePath → List FilePath
fitted files more = files ++ take (max_files - length files) more

take-nil : {A : Type 0} (n : ℕ) → take {A = A} n [] ≡ []
take-nil zero = refl
take-nil (suc n) = refl

take-append_split :
    {A : Type 0} (n : ℕ) (xs ys : List A) → take n (xs ++ ys) ≡ take n xs ++ take (n - length xs) ys
take-append_split n [] ys =
    ap (λ k. take k ys) {y = n - 0} (omega arith)
    ∙ sym (ap (λ l. l ++ take (n - 0) ys) (take-nil n))
take-append_split zero (x ∷ xs) ys =
    ap (λ k. take k ys) {x = 0} {y = 0 - suc (length xs)} (omega arith)
take-append_split (suc n) (x ∷ xs) ys = ap (◌∷◌ x) (
    take-append_split n xs ys
    ∙ ap (λ k. take n xs ++ take k ys) {y = suc n - suc (length xs)} (omega arith))

fitted-fitted :
    (files xs ys : List FilePath) → fitted (fitted files xs) ys ≡ fitted files (xs ++ ys)
fitted-fitted files xs ys =
    let room : max_files - length (fitted files xs) ≡ max_files - length files - length xs = omega (
      arith,
      length-append files (take (max_files - length files) xs),
      length-take (max_files - length files) xs,
    ) in
    append_assoc files (take (max_files - length files) xs) _
    ∙ ap (λ k. files ++ (take (max_files - length files) xs ++ take k ys)) room
    ∙ ap (λ l. files ++ l) (sym (take-append_split (max_files - length files) xs ys))

take_one : {A : Type 0} (n : ℕ) (x : A) → 0 < n → take n (x ∷ []) ≡ x ∷ []
take_one zero x h = absurd (omega arith)
take_one (suc n) x h = ap (◌∷◌ x) (take-nil n)

fitted-nil : (files : List FilePath) → files ≡ fitted files []
fitted-nil files =
    sym (ap (λ l. files ++ l) (take-nil (max_files - length files)) ∙ append-nil files)

fitted_full : (files xs : List FilePath) → max_files ≤ length files → files ≡ fitted files xs
fitted_full files xs h =
    sym (append-nil files)
    ∙ ap (λ k. files ++ take k xs) {x = 0} {y = max_files - length files} (omega arith)

fitted_one :
    (files : List FilePath) (path : FilePath)
    → length files < max_files
    → files ++ path ∷ [] ≡ fitted files (path ∷ [])
fitted_one files path h =
    ap (λ l. files ++ l) (sym (take_one (max_files - length files) path (omega arith)))

length-fitted :
    (files xs : List FilePath) → length files ≤ max_files → length (fitted files xs) ≤ max_files
length-fitted files xs h = omega (
  arith,
  length-append files (take (max_files - length files) xs),
  length-take (max_files - length files) xs,
)

fitted_if :
    (b : Bool) (files : List FilePath) (path : FilePath)
    → length files < max_files
    → (if b then files ++ path ∷ [] else files) ≡ fitted files (if b then path ∷ [] else [])
fitted_if true files path h = fitted_one files path h
fitted_if false files path h = fitted-nil files

-- An entry's path is longer, if nothing is cut off.
full_path-longer :
    (path name : FilePath)
    → length path + 1 < path_max
    → 0 < length name
    → length path < length (full_path path name)
unfolding full_path
full_path-longer path name h hn = elim (Bool-cases (ends_in_slash path)) [
  | inl e ↦ rw e (omega (arith, length-take (path_max - 1) (path ++ name), length-append path name))
  | inr e ↦ rw e (
      omega
        (arith, length-take (path_max - 1) (path ++ b'/' ∷ name), length-append path (b'/' ∷ name)))
]

abbrev pub Named : List FilePath → Type 0
Named [] = Unit
Named (name ∷ names) = (0 < length name) × Named names

-- What holds of a file system for the walk to reach everything: no path is cut off, and `readdir`
-- gives no empty name.
pub record IsSane (fs : FileSystem) : Type 0 where
  pub short : ShortDirectories fs
  pub named : (path : FilePath) (names : List FilePath) → fs.opendir path ≡ some names → Named names

module _ (fs : FileSystem) (o : Options) (sane : IsSane fs) where
  -- `walk` appends what fits of `below`, on the directories that are deeper than `path`.
  abbrev WalksBelow :
      (FilePath → List FilePath → Option (Bool × List FilePath))
      → (FilePath → List FilePath)
      → FilePath
      → Type 0
  WalksBelow walk below path =
      (p : FilePath) (files : List FilePath)
      → length path < length p
      → length p + 1 < path_max
      → length files ≤ max_files
      → (ok : Bool) × (walk p files ≡ some (ok, fitted files (below p)))

  module _ (walk : FilePath → List FilePath → Option (Bool × List FilePath))
      (below : FilePath → List FilePath) (path : FilePath) (h : length path + 1 < path_max)
      (w : WalksBelow walk below path) where
    -- An entry that is no directory.
    only_itself :
        (name : FilePath) (files : List FilePath) (mode : Mode)
        → length files < max_files
        → ◌≡◌ {A = Option (List FilePath)}
            (some (if match_type o mode then files ++ full_path path name ∷ [] else files))
            (some
              (fitted files ((if match_type o mode then full_path path name ∷ [] else []) ++ [])))
    only_itself name files mode room =
        ap (λ l. some l)
          (fitted_if (match_type o mode) files (full_path path name) room
            ∙ ap (fitted files) (sym (append-nil _)))

    visit_mode :
        (name : FilePath) (files : List FilePath) (mode : Mode)
        → 0 < length name
        → length files < max_files
        → fs.lstat (full_path path name) ≡ some mode
        → is_dots name ≡ false
        → visit fs o walk path name files ≡ some (fitted files (entry_listing fs o below path name))
    unfolding visit entry_listing
    visit_mode name files directory hn room e no_dots =
        let full : FilePath = full_path path name in
        let own : List FilePath = if match_type o directory then full ∷ [] else [] in
        let files' : List FilePath = if match_type o directory then files ++ full ∷ [] else files in
        let added : files' ≡ fitted files own =
          fitted_if (match_type o directory) files full room in
        let bound : length files' ≤ max_files =
          omega (arith, ap length added, length-fitted files own (omega arith)) in
        let (ok, walked) =
          w full files' (full_path-longer path name h hn) (sane.short full e) bound in
        rw (no_dots, e, walked)
          (ap (λ l. some l)
            (ap (λ l. fitted l (below full)) added ∙ fitted-fitted files own (below full)))
    visit_mode name files link hn room e no_dots =
        rw (no_dots, e) (only_itself name files link room)
    visit_mode name files regular hn room e no_dots =
        rw (no_dots, e) (only_itself name files regular room)
    visit_mode name files other hn room e no_dots =
        rw (no_dots, e) (only_itself name files other room)

    visit_lem :
        (name : FilePath) (files : List FilePath)
        → 0 < length name
        → length files < max_files
        → visit fs o walk path name files ≡ some (fitted files (entry_listing fs o below path name))
    unfolding visit entry_listing
    visit_lem name files hn room = elim (Bool-cases (is_dots name)) [
      | inl dots ↦ rw (dots) (ap (λ l. some l) (fitted-nil files))
      | inr no_dots ↦ elim (Option-cases (fs.lstat (full_path path name))) [
        | inl gone ↦ rw (no_dots, gone) (ap (λ l. some l) (fitted-nil files))
        | inr (mode, e) ↦ visit_mode name files mode hn room e no_dots
      ]
    ]

    walk_entries_lem :
        (names : List FilePath) (files : List FilePath)
        → Named names
        → length files ≤ max_files
        → walk_entries fs o walk path names files
          ≡ some (fitted files (entries_listing fs o below path names))
    unfolding walk_entries entries_listing
    walk_entries_lem [] files hn hf = ap (λ l. some l) (fitted-nil files)
    walk_entries_lem (name ∷ names) files hn hf = elim (dec_lt (length files) max_files) [
      | yes room ↦
          let all : List FilePath = entry_listing fs o below path name in
          let room' : ltb (length files) max_files ≡ true = lt→ltb _ _ room in
          rw (room', visit_lem name files hn.0 room)
            (walk_entries_lem names (fitted files all) hn.1 (length-fitted files all hf)
              ∙ ap (λ l. some l) (fitted-fitted files all (entries_listing fs o below path names)))
      | no full ↦
          let full' : ltb (length files) max_files ≡ false = ground arith in
          rw full' (ap (λ l. some l) (fitted_full files _ (omega arith)))
    ]

  -- `dirwalk` on a directory whose entries' paths are not cut off ends with fuel for the lengths that
  -- a path can still gain, and appends to the files the first paths of the reference listing, as many as
  -- `MAX_FILES` leaves room for.
  pub dirwalk-listing :
      (fuel : ℕ) (path : FilePath) (files : List FilePath)
      → length files ≤ max_files
      → length path + 1 < path_max
      → path_max ≤ fuel + length path
      → (ok : Bool) × (dirwalk fs o fuel path files
          ≡ some (ok, files ++ take (max_files - length files) (listing fs o fuel path)))
  unfolding dirwalk listing
  dirwalk-listing zero path files hf hp hu = absurd (omega arith)
  dirwalk-listing (suc fuel) path files hf hp hu = elim (Option-cases (fs.opendir path)) [
    | inl closed ↦ (false, rw closed (ap (λ l. some (false, l)) (fitted-nil files)))
    | inr (names, opened) ↦ (
      true,
      rw
          (
            opened,
            walk_entries_lem (dirwalk fs o fuel) (listing fs o fuel) path hp
                (λ p files' deeper short hf'. dirwalk-listing fuel p files' hf' short (omega arith))
                names files (sane.named path names opened) hf,
          )
          refl,
    )
  ]
