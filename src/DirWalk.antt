-- ===== src/DirWalk.antt =====
-- The directory listing of lab1/src/lab1.c: `match_type`, `dirwalk` and `main`.
-- The file system is a parameter that does not change during the walk, and `strdup` succeeds.
pub mod Listing
pub mod Laws
pub mod Deep
mod Tests
use osisp.Prelude.{
  ℕ, zero, suc, ◌-◌, ◌≡◌, List, [], ◌∷◌, ◌++◌, Bool, true, false, not, ◌&&◌, ◌||◌, Option, none,
  some, length, take, ltb, ◌==◌, if◌then◌else◌,
}
use osisp.Prelude.OptionMonad.{◌>>=◌}

-- A path or a name, by its bytes.
abbrev pub FilePath : Type 0
FilePath = List ℕ

-- What `S_ISLNK`, `S_ISDIR` and `S_ISREG` tell apart.
pub data Mode : Type 0 where
  link directory regular other : Mode

-- `opendir` with all of `readdir`, and `lstat`; `none` is a failure.
pub record FileSystem : Type 0 where
  pub opendir : FilePath → Option (List FilePath)
  pub lstat : FilePath → Option Mode

-- The globals that the options set.
pub record Options : Type 0 where
  pub sort_output : Bool
  pub show_links : Bool
  pub show_dirs : Bool
  pub show_files : Bool

abbrev pub max_files : ℕ
max_files = 10000

-- PATH_MAX
abbrev pub path_max : ℕ
path_max = 4096

abbrev pub is_link : Mode → Bool
is_link link = true
is_link _ = false

abbrev pub is_directory : Mode → Bool
is_directory directory = true
is_directory _ = false

abbrev pub is_regular : Mode → Bool
is_regular regular = true
is_regular _ = false

unfoldable pub match_type : Options → Mode → Bool
match_type o mode =
    if (o.show_links && is_link mode)
      || ((o.show_dirs && is_directory mode) || (o.show_files && is_regular mode))
    then true
    else not (o.show_links || (o.show_dirs || o.show_files))

-- The entries `.` and `..`
abbrev pub is_dots : FilePath → Bool
is_dots (c ∷ []) = c == b'.'
is_dots (c ∷ d ∷ []) = (c == b'.') && (d == b'.')
is_dots _ = false

-- `len > 0 && path[len-1] == '/'`
abbrev pub ends_in_slash : FilePath → Bool
ends_in_slash [] = false
ends_in_slash (c ∷ []) = c == b'/'
ends_in_slash (c ∷ d ∷ path) = ends_in_slash (d ∷ path)

-- `snprintf` into `fullpath`, which cuts a long path off; the test of its length after it never
-- finds a path too long.
unfoldable pub full_path : FilePath → FilePath → FilePath
full_path path name =
    take (path_max - 1) (if ends_in_slash path then path ++ name else path ++ b'/' ∷ name)

abbrev pub when_some : {A R : Type 0} → Option A → R → (A → R) → R
when_some none r k = r
when_some (some a) r k = k a

module _ (fs : FileSystem) (o : Options) where
  -- One entry; `walk` is `dirwalk` on a directory.
  unfoldable pub visit :
      (FilePath → List FilePath → Option (Bool × List FilePath))
      → FilePath
      → FilePath
      → List FilePath
      → Option (List FilePath)
  visit walk path name files =
      if is_dots name
      then some files
      else when_some (fs.lstat (full_path path name)) (some files) (λ mode.
        let files' : List FilePath =
          if match_type o mode then files ++ full_path path name ∷ [] else files in
        if is_directory mode
        then (walk (full_path path name) files' >>= λ r. some r.1)
        else some files')

  -- The `while` loop over the entries.
  unfoldable pub walk_entries :
      (FilePath → List FilePath → Option (Bool × List FilePath))
      → FilePath
      → List FilePath
      → List FilePath
      → Option (List FilePath)
  unfolding visit
  walk_entries walk path [] files = some files
  walk_entries walk path (name ∷ names) files =
      if not (ltb (length files) max_files)
      then some files
      else visit walk path name files >>= λ files'. walk_entries walk path names files'

  -- `dirwalk` on fuel: whether it returns 0, and the files; `none` is a recursion that is too deep.
  unfoldable pub dirwalk : ℕ → FilePath → List FilePath → Option (Bool × List FilePath)
  unfolding walk_entries
  dirwalk zero path files = none
  dirwalk (suc fuel) path files =
      when_some (fs.opendir path) (some (false, files))
        (λ names. walk_entries (dirwalk fuel) path names files >>= λ files'. some (true, files'))

-- The `switch` over what `getopt` returns, `none` for the usage message.
abbrev pub set_option : ℕ → Options → Option Options
set_option c o =
    if c == b's'
    then some (record o { sort_output = true })
    else if c == b'l'
    then some (record o { show_links = true })
    else if c == b'd'
    then some (record o { show_dirs = true })
    else if c == b'f'
    then some (record o { show_files = true })
    else none

unfoldable pub set_options : List ℕ → Options → Option Options
set_options [] o = some o
set_options (c ∷ cs) o = set_option c o >>= set_options cs

abbrev pub no_options : Options
no_options = record {
  sort_output = false;
  show_links = false;
  show_dirs = false;
  show_files = false;
}

-- What `main` ends with; `sort` is `qsort` with `strcoll`.
pub data Outcome : Type 0 where
  usage walk_error : Outcome
  printed : List FilePath → Outcome

abbrev pub outcome : (List FilePath → List FilePath) → Options → Bool × List FilePath → Outcome
outcome sort o (false, files) = walk_error
outcome sort o (true, files) = printed (if o.sort_output then sort files else files)

-- `opts` are the options that `getopt` finds and `operand` the first argument after them.
unfoldable pub main :
    FileSystem → (List FilePath → List FilePath) → ℕ → List ℕ → Option FilePath → Option Outcome
unfolding dirwalk set_options
main fs sort fuel opts operand = when_some (set_options opts no_options) (some usage) (λ o.
    dirwalk fs o fuel (when_some operand (b'.' ∷ []) (λ path. path)) [] >>= λ r.
    some (outcome sort o r))
