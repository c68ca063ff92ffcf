-- ===== src/FileServer/Client.antt =====
-- The loop's body of `client_thread` in lab8/src/server.c: the bytes of one `recv`, which gets at most
-- 4095, and the reply. `sendall` sends all of it.
pub mod Laws
use osisp.Prelude.{
  ℕ, ◌+◌, List, [], ◌∷◌, ◌++◌, Bool, true, false, ◌&&◌, ◌||◌, Option, take, drop, leb, ◌==◌,
  if◌then◌else◌,
}
use osisp.Prelude.Bytes.{Bytes, newline}
use osisp.FileServer.Listing.{FileSystem, handle_list, sent_line}
use osisp.FileServer.Path.{trim, change_to, parent, slash}

-- `tolower`
abbrev pub to_lower : ℕ → ℕ
to_lower c = if leb 65 c && leb c 90 then c + 32 else c

-- `strcasecmp(s, t) == 0`
unfoldable pub same_word : List ℕ → List ℕ → Bool
same_word [] [] = true
same_word [] (t ∷ ts) = false
same_word (s ∷ ss) [] = false
same_word (s ∷ ss) (t ∷ ts) = (to_lower s == to_lower t) && same_word ss ts

-- The line up to its newline or its end.
unfoldable pub first_line : List ℕ → List ℕ
first_line [] = []
first_line (c ∷ cs) = if (c == newline) || (c == 0) then [] else c ∷ first_line cs

-- The working directory, what is sent, and whether the loop goes on.
pub record Reply : Type 0 where
  pub cwd : List ℕ
  pub sent : List ℕ
  pub continues : Bool

abbrev pub echo_word : List ℕ
echo_word = 101 ∷ 99 ∷ 104 ∷ 111 ∷ 32 ∷ []

abbrev pub quit_word : List ℕ
quit_word = 113 ∷ 117 ∷ 105 ∷ 116 ∷ []

abbrev pub info_word : List ℕ
info_word = 105 ∷ 110 ∷ 102 ∷ 111 ∷ []

abbrev pub cd_word : List ℕ
cd_word = 99 ∷ 100 ∷ 32 ∷ []

abbrev pub list_word : List ℕ
list_word = 108 ∷ 105 ∷ 115 ∷ 116 ∷ []

-- The prompt after a command.
abbrev pub prompted : List ℕ → List ℕ → Reply
prompted cwd sent = record {
  cwd = cwd;
  sent = sent ++ sent_line (cwd ++ b'>' ∷ []);
  continues = true;
}

-- `Hello from 'myserver'`
abbrev pub hello : Bytes
hello =
    b'H' ∷ b'e' ∷ b'l' ∷ b'l' ∷ b'o' ∷ b' ' ∷ b'f' ∷ b'r' ∷ b'o' ∷ b'm' ∷ b' ' ∷ 39 ∷ b'm' ∷ b'y'
    ∷ b's' ∷ b'e' ∷ b'r' ∷ b'v' ∷ b'e' ∷ b'r' ∷ 39 ∷ []

-- `BYE`
abbrev pub bye : Bytes
bye = b'B' ∷ b'Y' ∷ b'E' ∷ []

-- What a new connection is sent.
abbrev pub greeting : Bytes
greeting = sent_line hello ++ sent_line (b'>' ∷ [])

-- `Unknown command`
abbrev pub unknown_command : Bytes
unknown_command =
    b'U' ∷ b'n' ∷ b'k' ∷ b'n' ∷ b'o' ∷ b'w' ∷ b'n' ∷ b' ' ∷ b'c' ∷ b'o' ∷ b'm' ∷ b'm' ∷ b'a' ∷ b'n'
    ∷ b'd' ∷ []

pub data Word : Type 0 where
  echo cd : Bytes → Word
  quit info list unknown : Word

-- The tests on a trimmed line, in their order.
unfoldable pub word_of : Bytes → Word
unfolding same_word
word_of cmd =
    if same_word (take 5 cmd) echo_word
    then echo (drop 5 cmd)
    else if same_word cmd quit_word
    then quit
    else if same_word cmd info_word
    then info
    else if same_word (take 3 cmd) cd_word
    then cd (drop 3 cmd)
    else if same_word cmd list_word
    then list
    else unknown

module _ (fs : FileSystem) (root : Bytes) where
  unfoldable pub change_directory : List ℕ → List ℕ → List ℕ
  unfolding change_to parent same_word
  change_directory cwd target =
      if same_word target (slash ∷ [])
      then []
      else if same_word target (46 ∷ 46 ∷ [])
      then parent cwd
      else change_to fs.realpath root cwd target

  -- The branch of a command; the prompt follows, but after QUIT.
  unfoldable pub respond : List ℕ → Word → Reply
  unfolding change_directory
  respond cwd (echo text) = prompted cwd (sent_line text)
  respond cwd quit = record { cwd = cwd; sent = sent_line bye; continues = false }
  respond cwd info = prompted cwd (sent_line hello)
  respond cwd (cd target) = prompted (change_directory cwd target) []
  respond cwd list = prompted cwd (handle_list fs root cwd)
  respond cwd unknown = prompted cwd (sent_line unknown_command)

  abbrev pub unless_empty : List ℕ → List ℕ → Reply
  unless_empty cwd [] = record { cwd = cwd; sent = []; continues = true }
  unless_empty cwd (c ∷ cmd) = respond cwd (word_of (c ∷ cmd))

  -- What was received, up to the first newline and without spaces around it.
  unfoldable pub handle_received : List ℕ → List ℕ → Reply
  unfolding respond word_of first_line trim
  handle_received cwd buf = unless_empty cwd (trim (first_line buf))
