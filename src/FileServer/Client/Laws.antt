-- ===== src/FileServer/Client/Laws.antt =====
-- The replies of lab8/src/server.c as lines.
use osisp.Prelude.{◌≡◌, ◌≢◌, refl, arith, List, [], ◌∷◌, ◌++◌, true, false, ◌||◌, ◌==◌}
use osisp.Prelude.Bytes.{Bytes, newline, unlines}
use osisp.FileServer.Path.{trim}
use osisp.FileServer.Listing.{FileSystem, sent_line}
use osisp.FileServer.Listing.Laws.{Resolves, listed, handle_list-listed}
use osisp.FileServer.Client.{
  first_line, Reply, hello, bye, unknown_command, Word, echo, quit, info, cd, list, unknown,
  word_of, change_directory, respond, unless_empty, handle_received,
}

-- A command as it is typed: no newline and no NUL, and not empty or with spaces around it.
unfoldable pub IsText : Bytes → Type 0
IsText [] = Unit
IsText (c ∷ cmd) = (c ≢ newline) × (c ≢ 0) × IsText cmd

pub record IsCommand (cmd : Bytes) : Type 0 where
  pub text : IsText cmd
  pub trimmed : trim cmd ≡ cmd
  pub some_word : cmd ≢ []

first_line-text : (cmd rest : Bytes) → IsText cmd → first_line (cmd ++ newline ∷ rest) ≡ cmd
unfolding first_line IsText
first_line-text [] rest h = refl
first_line-text (c ∷ cmd) rest h =
    let more : ((c == newline) || (c == 0)) ≡ false = let (n, z, _) = h in ground arith in
    rw (more, first_line-text cmd rest h.2) refl

first_line-whole : (cmd : Bytes) → IsText cmd → first_line cmd ≡ cmd
unfolding first_line IsText
first_line-whole [] h = refl
first_line-whole (c ∷ cmd) h =
    let more : ((c == newline) || (c == 0)) ≡ false = let (n, z, _) = h in ground arith in
    rw (more, first_line-whole cmd h.2) refl

module _ (fs : FileSystem) (root : Bytes) where
  -- The lines of a reply before its prompt.
  unfoldable pub reply_lines : Bytes → Word → List Bytes
  reply_lines cwd (echo text) = text ∷ []
  reply_lines cwd quit = bye ∷ []
  reply_lines cwd info = hello ∷ []
  reply_lines cwd (cd target) = []
  reply_lines cwd list = listed fs root cwd
  reply_lines cwd unknown = unknown_command ∷ []

  -- The working directory after a command.
  unfoldable pub cwd_after : Bytes → Word → Bytes
  cwd_after cwd (cd target) = change_directory fs root cwd target
  cwd_after cwd _ = cwd

  -- The reply to a command that does not end the session.
  abbrev pub answer : Bytes → Word → Reply
  answer cwd w = record {
    cwd = cwd_after cwd w;
    sent = unlines (reply_lines cwd w) ++ sent_line (cwd_after cwd w ++ b'>' ∷ []);
    continues = true;
  }

  unless_empty-word :
      (cwd cmd : Bytes)
      → cmd ≢ []
      → unless_empty fs root cwd cmd ≡ respond fs root cwd (word_of cmd)
  unless_empty-word cwd [] h = absurd (h refl)
  unless_empty-word cwd (c ∷ cmd) h = refl

  -- With a `realpath` that follows every link: every reply but that of QUIT is its lines and a prompt
  -- with the working directory.
  pub respond-answer :
      Resolves fs → (cwd : Bytes) (w : Word) → w ≢ quit → respond fs root cwd w ≡ answer cwd w
  unfolding respond unlines reply_lines cwd_after
  respond-answer resolves cwd (echo text) h = refl
  respond-answer resolves cwd quit h = absurd (h refl)
  respond-answer resolves cwd info h = refl
  respond-answer resolves cwd (cd target) h = refl
  respond-answer resolves cwd list h = rw (handle_list-listed fs root cwd resolves) refl
  respond-answer resolves cwd unknown h = refl

  -- A command and its newline in one `recv`, or the command alone.
  pub handle_received-command :
      (cwd cmd rest : Bytes)
      → IsCommand cmd
      → handle_received fs root cwd (cmd ++ newline ∷ rest) ≡ respond fs root cwd (word_of cmd)
  unfolding handle_received
  handle_received-command cwd cmd rest h =
      rw (first_line-text cmd rest h.text, h.trimmed) (unless_empty-word cwd cmd h.some_word)

  pub handle_received-whole :
      (cwd cmd : Bytes)
      → IsCommand cmd
      → handle_received fs root cwd cmd ≡ respond fs root cwd (word_of cmd)
  unfolding handle_received
  handle_received-whole cwd cmd h =
      rw (first_line-whole cmd h.text, h.trimmed) (unless_empty-word cwd cmd h.some_word)

  -- What comes behind a newline in the same `recv` is dropped: with the newline first, all of it.
  pub handle_received-late :
      (cwd rest : Bytes)
      → handle_received fs root cwd (newline ∷ rest)
        ≡ record { cwd = cwd; sent = []; continues = true }
  unfolding handle_received first_line trim
  handle_received-late cwd rest = refl
