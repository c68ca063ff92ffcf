-- ===== src/FileServer/Listing.antt =====
-- `handle_list` of lab8/src/server.c: the bytes that it sends for a working directory. The file system
-- is a parameter. A link's text is shorter than the buffer that `readlink` gets.
pub mod Laws
use osisp.Prelude.{
  ℕ, ◌+◌, List, [], ◌∷◌, ◌++◌, Bool, true, false, ◌||◌, Option, none, some, leb, if◌then◌else◌,
  length,
}
use osisp.Prelude.Bytes.{Bytes, same_bytes, newline}
use osisp.FileServer.Path.{build_path, slash}

-- What `lstat` tells of a path.
pub data Kind : Type 0 where
  directory link other : Kind

-- `none` is an error; `entries` is opendir with the names that readdir gives.
pub record FileSystem : Type 0 where
  pub realpath : Bytes → Option Bytes
  pub entries : Bytes → Option (List Bytes)
  pub lstat : Bytes → Option Kind
  pub readlink : Bytes → Option Bytes

-- PATH_MAX + NAME_MAX + 2
abbrev pub pathbuf : ℕ
pathbuf = 4353

-- `.` and `..`
abbrev pub dot : Bytes
dot = b'.' ∷ []

abbrev pub dot_dot : Bytes
dot_dot = b'.' ∷ b'.' ∷ []

-- ` --> `
abbrev pub arrow : Bytes
arrow = b' ' ∷ b'-' ∷ b'-' ∷ b'>' ∷ b' ' ∷ []

-- ` -->> `
abbrev pub long_arrow : Bytes
long_arrow = b' ' ∷ b'-' ∷ b'-' ∷ b'>' ∷ b'>' ∷ b' ' ∷ []

abbrev pub sent_line : Bytes → Bytes
sent_line l = l ++ newline ∷ []

-- A chain of links: the text of the second one, unless it is empty or cannot be read.
abbrev pub chained : Bytes → Option Bytes → Bytes
chained name none = []
chained name (some []) = []
chained name (some (c ∷ text)) = sent_line (name ++ (long_arrow ++ c ∷ text))

abbrev pub is_link : Option Kind → Bool
is_link (some link) = true
is_link _ = false

module _ (fs : FileSystem) (root cwd : Bytes) where
  -- A link with the text `linkto`, whose target `build_path` gives.
  unfoldable pub link_line : Bytes → Bytes → Option Bytes → Bytes
  link_line name linkto none = []
  link_line name linkto (some target) =
      if is_link (fs.lstat target)
      then chained name (fs.readlink target)
      else sent_line (name ++ (arrow ++ linkto))

  unfoldable pub on_readlink : Bytes → Option Bytes → Bytes
  unfolding link_line
  on_readlink name none = []
  on_readlink name (some linkto) = link_line name linkto (build_path fs.realpath root cwd linkto)

  unfoldable pub on_lstat : Bytes → Bytes → Option Kind → Bytes
  unfolding on_readlink
  on_lstat full name none = []
  on_lstat full name (some directory) = name ++ slash ∷ newline ∷ []
  on_lstat full name (some link) = on_readlink name (fs.readlink full)
  on_lstat full name (some other) = sent_line name

  -- One entry of the directory `path`.
  unfoldable pub list_entry : Bytes → Bytes → Bytes
  unfolding on_lstat
  list_entry path name =
      if same_bytes name dot || same_bytes name dot_dot
      then []
      else if leb pathbuf (length path + 1 + length name)
      then []
      else on_lstat (path ++ slash ∷ name) name (fs.lstat (path ++ slash ∷ name))

  unfoldable pub list_entries : Bytes → List Bytes → Bytes
  unfolding list_entry
  list_entries path [] = []
  list_entries path (name ∷ names) = list_entry path name ++ list_entries path names

  abbrev pub on_opendir : Bytes → Option (List Bytes) → Bytes
  on_opendir path none = []
  on_opendir path (some names) = list_entries path names

  unfoldable pub on_path : Option Bytes → Bytes
  unfolding list_entries
  on_path none = []
  on_path (some path) = on_opendir path (fs.entries path)

  unfoldable pub handle_list : Bytes
  unfolding on_path
  handle_list = on_path (build_path fs.realpath root cwd dot)
