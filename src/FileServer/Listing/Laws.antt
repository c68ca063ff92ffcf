-- ===== src/FileServer/Listing/Laws.antt =====
-- What `handle_list` of lab8/src/server.c sends, line by line.
use osisp.Prelude.{
  ◌+◌, ◌≡◌, refl, ap₂, sym, ◌∙◌, List, [], ◌∷◌, ◌++◌, append_assoc, Bool, Bool-cases, Option-cases,
  inl, inr, false, ◌||◌, Option, none, some, leb, if◌then◌else◌, length,
}
use osisp.Prelude.Bytes.{Bytes, same_bytes, newline, unlines, unlines-append}
use osisp.FileServer.Path.{build_path, build_path-real, slash, joined}
use osisp.FileServer.Listing.{
  Kind, directory, link, other, FileSystem, pathbuf, dot, dot_dot, arrow, is_link, link_line,
  on_readlink, on_lstat, list_entry, list_entries, on_path, handle_list,
}

-- What a reader is to see of an entry: a directory with a slash, a file, or a link with its text when
-- what it leads to is inside the root.
abbrev link_shown : Bytes → Bytes → Option Bytes → List Bytes
link_shown name linkto none = []
link_shown name linkto (some target) = (name ++ (arrow ++ linkto)) ∷ []

abbrev text_shown : (Bytes → Option Bytes) → Bytes → Option Bytes → List Bytes
text_shown target name none = []
text_shown target name (some linkto) = link_shown name linkto (target linkto)

abbrev kind_shown : (Bytes → Option Bytes) → Option Bytes → Bytes → Option Kind → List Bytes
kind_shown target text name none = []
kind_shown target text name (some directory) = (name ++ slash ∷ []) ∷ []
kind_shown target text name (some link) = text_shown target name text
kind_shown target text name (some other) = name ∷ []

abbrev hidden : Bytes → Bytes → Bool
hidden path name =
    (same_bytes name dot || same_bytes name dot_dot) || leb pathbuf (length path + 1 + length name)

-- `realpath` follows every link: what it gives is none.
abbrev pub Resolves : FileSystem → Type 0
Resolves fs =
    (path target : Bytes) → fs.realpath path ≡ some target → is_link (fs.lstat target) ≡ false

module _ (fs : FileSystem) (root cwd : Bytes) where
  unfoldable pub shown : Bytes → Bytes → List Bytes
  shown path name =
      if hidden path name
      then []
      else kind_shown (λ linkto. build_path fs.realpath root cwd linkto)
          (fs.readlink (path ++ slash ∷ name)) name (fs.lstat (path ++ slash ∷ name))

  unfoldable pub all_shown : Bytes → List Bytes → List Bytes
  unfolding shown
  all_shown path [] = []
  all_shown path (name ∷ names) = shown path name ++ all_shown path names

  abbrev names_shown : Bytes → Option (List Bytes) → List Bytes
  names_shown path none = []
  names_shown path (some names) = all_shown path names

  abbrev path_shown : Option Bytes → List Bytes
  path_shown none = []
  path_shown (some path) = names_shown path (fs.entries path)

  -- The lines of the listing.
  unfoldable pub listed : List Bytes
  unfolding all_shown
  listed = path_shown (build_path fs.realpath root cwd dot)

  link_line-shown :
      Resolves fs
      → (name linkto : Bytes) (o : Option Bytes)
      → ((target : Bytes) → o ≡ some target → is_link (fs.lstat target) ≡ false)
      → link_line fs root cwd name linkto o ≡ unlines (link_shown name linkto o)
  unfolding link_line unlines
  link_line-shown resolves name linkto none h = refl
  link_line-shown resolves name linkto (some target) h = rw (h target refl) refl

  on_readlink-shown :
      Resolves fs
      → (name : Bytes) (text : Option Bytes)
      → on_readlink fs root cwd name text
        ≡ unlines (text_shown (λ linkto. build_path fs.realpath root cwd linkto) name text)
  unfolding on_readlink unlines
  on_readlink-shown resolves name none = refl
  on_readlink-shown resolves name (some linkto) =
      link_line-shown resolves name linkto (build_path fs.realpath root cwd linkto) λ target e.
        resolves (joined root cwd linkto) target
          (build_path-real fs.realpath root cwd linkto target e)

  on_lstat-shown :
      Resolves fs
      → (full name : Bytes) (kind : Option Kind)
      → on_lstat fs root cwd full name kind
        ≡ unlines (
            kind_shown
              (λ linkto. build_path fs.realpath root cwd linkto)
              (fs.readlink full)
              name
              kind)
  unfolding on_lstat unlines
  on_lstat-shown resolves full name none = refl
  on_lstat-shown resolves full name (some directory) =
      sym (append_assoc name (slash ∷ []) (newline ∷ []))
  on_lstat-shown resolves full name (some link) = on_readlink-shown resolves name (fs.readlink full)
  on_lstat-shown resolves full name (some other) = refl

  list_entry-shown :
      Resolves fs
      → (path name : Bytes) → list_entry fs root cwd path name ≡ unlines (shown path name)
  unfolding list_entry shown unlines
  list_entry-shown resolves path name =
      let full : Bytes = path ++ slash ∷ name in
      let e = on_lstat-shown resolves full name (fs.lstat full) in
      elim (Bool-cases (same_bytes name dot || same_bytes name dot_dot)) [
        | inl own ↦ rw own refl
        | inr entry ↦ elim (Bool-cases (leb pathbuf (length path + 1 + length name))) [
          | inl long ↦ rw (entry, long) refl
          | inr fits ↦ rw (entry, fits) e
        ]
      ]

  list_entries-shown :
      Resolves fs
      → (path : Bytes) (names : List Bytes)
      → list_entries fs root cwd path names ≡ unlines (all_shown path names)
  unfolding list_entries all_shown unlines
  list_entries-shown resolves path [] = refl
  list_entries-shown resolves path (name ∷ names) =
      ap₂ ◌++◌ (list_entry-shown resolves path name) (list_entries-shown resolves path names)
      ∙ sym (unlines-append (shown path name) (all_shown path names))

  on_path-shown : Resolves fs → (o : Option Bytes) → on_path fs root cwd o ≡ unlines (path_shown o)
  unfolding on_path unlines
  on_path-shown resolves none = refl
  on_path-shown resolves (some path) = elim (Option-cases (fs.entries path)) [
    | inl e ↦ rw e refl
    | inr (names, e) ↦ rw e (list_entries-shown resolves path names)
  ]

  -- With a `realpath` that follows every link: LIST sends one line for each entry that a reader is to
  -- see, and no line with a long arrow.
  pub handle_list-listed : Resolves fs → handle_list fs root cwd ≡ unlines listed
  unfolding handle_list listed
  handle_list-listed resolves = on_path-shown resolves (build_path fs.realpath root cwd dot)
