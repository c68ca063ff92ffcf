-- ===== src/FileServer/Tests.antt =====
-- Tests of lab8/src/server.c.
use osisp.Prelude.{
  ℕ, ◌≡◌, refl, arith, List, [], ◌∷◌, ◌++◌, Option, none, some, ◌==◌, if◌then◌else◌,
}
use osisp.Prelude.Bytes.{Bytes, unlines}
use osisp.FileServer.Listing.{FileSystem, Kind, directory, link, other, handle_list}
use osisp.FileServer.Listing.Laws.{Resolves, listed, handle_list-listed}
use osisp.FileServer.Sending.{sendall}
use osisp.FileServer.Sending.Laws.{Takes, sendall_lem}
use osisp.FileServer.Path.{trim, parent, build_path}

-- A file system of regular paths.
abbrev as_it_is : List ℕ → Option (List ℕ)
as_it_is path = some path

-- `/r`
abbrev root : List ℕ
root = 47 ∷ 114 ∷ []

-- A link in `/r` to `/rs`.
abbrev to_sibling : List ℕ → Option (List ℕ)
to_sibling path = some (root ++ 115 ∷ [])

-- The check accepts the sibling of the root that the link leads to.
accepted_sibling : build_path to_sibling root [] (47 ∷ 97 ∷ []) ≡ some (47 ∷ 114 ∷ 115 ∷ [])
unfolding build_path
accepted_sibling = refl

trim_spaces : trim (32 ∷ 97 ∷ 32 ∷ 98 ∷ 32 ∷ 13 ∷ []) ≡ 97 ∷ 32 ∷ 98 ∷ []
unfolding trim
trim_spaces = refl

parent_of : parent (97 ∷ 47 ∷ 98 ∷ []) ≡ 97 ∷ []
unfolding parent
parent_of = refl

-- The kind of a path by its last byte.
kind : Bytes → Option Kind
kind [] = none
kind (c ∷ []) = if c == b'r' then some directory else if c == b'l' then some link else some other
kind (c ∷ d ∷ path) = kind (d ∷ path)

-- `/r` has a file and a link, whose text is `/`.
abbrev one_link : FileSystem
one_link = record {
  realpath = λ path. some root;
  entries = λ path. some ((b'.' ∷ []) ∷ (b'f' ∷ []) ∷ (b'l' ∷ []) ∷ []);
  lstat = kind;
  readlink = λ path. some (47 ∷ []);
}

one_link-Resolves : Resolves one_link
unfolding kind
one_link-Resolves path target e = let same : root ≡ target = cc e in rw (← same) refl

link_listed :
    listed one_link root []
    ≡ (b'f' ∷ []) ∷ (b'l' ∷ b' ' ∷ b'-' ∷ b'-' ∷ b'>' ∷ b' ' ∷ b'/' ∷ []) ∷ []
unfolding listed build_path kind
link_listed = refl

link_sent : handle_list one_link root [] ≡ unlines (listed one_link root [])
link_sent = handle_list-listed one_link root [] one_link-Resolves

-- A `send` that takes two bytes at a time.
by_two : ℕ → Bytes → ℕ
by_two k [] = 0
by_two k (c ∷ []) = 1
by_two k (c ∷ d ∷ s) = 2

sent_in_parts : sendall by_two 4 0 (1 ∷ 2 ∷ 3 ∷ []) ≡ some (1 ∷ 2 ∷ 3 ∷ [])
unfolding by_two
sent_in_parts = sendall_lem by_two 4 0 (1 ∷ 2 ∷ 3 ∷ []) takes (omega arith)
  where
    takes : Takes by_two
    takes k c [] = (omega arith, omega arith)
    takes k c (d ∷ s) = (omega arith, omega arith)
