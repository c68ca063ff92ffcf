-- ===== src/DirWalk/Tests.antt =====
-- Tests of lab1/src/lab1.c.
use osisp.Prelude.{
  ◌-◌, ◌≡◌, refl, List, [], ◌∷◌, ◌++◌, Bool, true, false, none, some, length, take, subst, ltb,
  ◌==◌, if◌then◌else◌, arith,
}
use osisp.DirWalk.{
  FilePath, FileSystem, Options, directory, regular, no_options, printed, dirwalk, main, match_type,
  full_path, max_files,
}
use osisp.DirWalk.Listing.{listing}
use osisp.DirWalk.Laws.{Named, IsSane, dirwalk-listing}

abbrev one_entry : List FilePath
one_entry = (b'd' ∷ []) ∷ []

-- `.` holds the directory `./d`, and that the file `./d/d`.
abbrev small : FileSystem
small = record {
  opendir = λ path. if ltb (length path) 4 then some one_entry else none;
  lstat = λ path. if length path == 3 then some directory else some regular;
}

Named-if :
    (b : Bool) (names : List FilePath)
    → (if b then some one_entry else none) ≡ some names
    → Named names
Named-if true names e = let same : one_entry ≡ names = cc e in subst Named same (omega arith, tt)
Named-if false names e = cc e

small-IsSane : IsSane small
small-IsSane = record {
  short = λ path e. ground (arith, e);
  named = λ path names e. Named-if (ltb (length path) 4) names e;
}

dirwalk-listing_example :
    (ok : Bool) × (dirwalk small no_options 4095 (b'.' ∷ []) []
      ≡ some (ok, [] ++ take (max_files - 0) (listing small no_options 4095 (b'.' ∷ []))))
dirwalk-listing_example =
    dirwalk-listing small no_options small-IsSane 4095 (b'.' ∷ []) [] (omega arith) (omega arith)
      (omega arith)

list_small :
    main small (λ files. files) 3 (b'd' ∷ b'f' ∷ []) none
    ≡ some (printed ((b'.' ∷ b'/' ∷ b'd' ∷ []) ∷ (b'.' ∷ b'/' ∷ b'd' ∷ b'/' ∷ b'd' ∷ []) ∷ []))
unfolding main match_type full_path
list_small = refl

-- Every path is a directory with one entry.
abbrev bottomless : FileSystem
bottomless = record { opendir = λ path. some one_entry; lstat = λ path. some directory }

abbrev files_only : Options
files_only = record no_options { show_files = true }
