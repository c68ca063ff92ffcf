-- ===== src/DirWalk/Listing.antt =====
-- The reference: all matching paths below a directory, with no bound on their number.
use osisp.Prelude.{ℕ, zero, suc, ◌+◌, ◌<◌, ◌≡◌, List, [], ◌∷◌, ◌++◌, some, length, if◌then◌else◌}
use osisp.DirWalk.{
  FilePath, FileSystem, Options, directory, match_type, is_dots, is_directory, full_path, path_max,
  when_some,
}

module _ (fs : FileSystem) (o : Options) where
  -- The paths that an entry contributes: its own, if it matches, and then those below it.
  unfoldable pub entry_listing : (FilePath → List FilePath) → FilePath → FilePath → List FilePath
  entry_listing below path name =
      if is_dots name
      then []
      else when_some (fs.lstat (full_path path name)) [] (λ mode.
        (if match_type o mode then full_path path name ∷ [] else [])
        ++ (if is_directory mode then below (full_path path name) else []))

  unfoldable pub entries_listing :
      (FilePath → List FilePath) → FilePath → List FilePath → List FilePath
  unfolding entry_listing
  entries_listing below path [] = []
  entries_listing below path (name ∷ names) =
      entry_listing below path name ++ entries_listing below path names

  -- Down to that many levels.
  unfoldable pub listing : ℕ → FilePath → List FilePath
  unfolding entries_listing
  listing zero path = []
  listing (suc depth) path = when_some (fs.opendir path) [] (entries_listing (listing depth) path)

-- No directory's path is so long that the path of an entry would be cut off.
abbrev pub ShortDirectories : FileSystem → Type 0
ShortDirectories fs =
    (path : FilePath) → fs.lstat path ≡ some directory → length path + 1 < path_max
