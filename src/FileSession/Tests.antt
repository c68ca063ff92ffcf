-- ===== src/FileSession/Tests.antt =====
-- Tests of a session of lab8/src.
use osisp.Prelude.{
  ℕ, ◌≡◌, ◌≢◌, ◌<◌, refl, ap, arith, List, [], ◌∷◌, ◌++◌, Option, length, some, none,
}
use osisp.Prelude.Bytes.{Bytes, newline}
use osisp.FileServer.Listing.{FileSystem, other}
use osisp.FileServer.Listing.Laws.{listed}
use osisp.FileServer.Path.{build_path, trim}
use osisp.FileClient.Replies.{ArePlain}
use osisp.FileServer.Client.{hello, bye, word_of}
use osisp.FileServer.Client.Laws.{IsText, IsCommand, reply_lines, cwd_after}
use osisp.FileClient.{is_prompt}
use osisp.FileClient.Laws.{arrived, IsLine, one_line, one_line-IsLine}
use osisp.FileSession.{left, typed_commands, client_main}
use osisp.FileSession.Laws.{Delivers, Fits, InStep, promised, client_main-promised}

-- Regular files only: every directory has one, `f`.
abbrev one_file : FileSystem
one_file = record {
  realpath = λ path. some path;
  entries = λ path. some ((b'.' ∷ []) ∷ (b'f' ∷ []) ∷ []);
  lstat = λ path. some other;
  readlink = λ path. none;
}

-- `/r`
abbrev root : Bytes
root = b'/' ∷ b'r' ∷ []

-- Every byte alone.
bytewise : Bytes → List Bytes
bytewise [] = []
bytewise (c ∷ b) = (c ∷ []) ∷ bytewise b

bytewise-Delivers : Delivers bytewise
unfolding arrived bytewise
bytewise-Delivers [] = refl
bytewise-Delivers (c ∷ b) = ap (λ b'. c ∷ b') (bytewise-Delivers b)

no_script : Bytes → Option (List Bytes)
no_script path = none

abbrev list_command : Bytes
list_command = b'L' ∷ b'I' ∷ b'S' ∷ b'T' ∷ []

abbrev quit_command : Bytes
quit_command = b'q' ∷ b'u' ∷ b'i' ∷ b't' ∷ []

abbrev typed : List Bytes
typed = (list_command ++ newline ∷ []) ∷ (quit_command ++ newline ∷ []) ∷ []

-- A letter is neither a newline nor a NUL.
letter : (c : ℕ) → 10 < c → (c ≢ newline) × (c ≢ 0)
letter c h = (λ same. omega arith, λ same. omega arith)

list_command-IsCommand : IsCommand list_command
unfolding trim IsText
list_command-IsCommand =
    let (a, b) = letter b'L' (omega arith) in
    let (c, d) = letter b'I' (omega arith) in
    let (e, f) = letter b'S' (omega arith) in
    let (g, h) = letter b'T' (omega arith) in
    record {
      text = (a, b, (c, d, (e, f, (g, h, tt))));
      trimmed = refl;
      some_word = λ same. absurd (omega (arith, ap length same));
    }

quit_command-IsCommand : IsCommand quit_command
unfolding trim IsText
quit_command-IsCommand =
    let (a, b) = letter b'q' (omega arith) in
    let (c, d) = letter b'u' (omega arith) in
    let (e, f) = letter b'i' (omega arith) in
    let (g, h) = letter b't' (omega arith) in
    record {
      text = (a, b, (c, d, (e, f, (g, h, tt))));
      trimmed = refl;
      some_word = λ same. absurd (omega (arith, ap length same));
    }

list_command-Fits : Fits one_file root 2 [] (word_of list_command)
unfolding reply_lines cwd_after word_of listed build_path ArePlain is_prompt one_line
list_command-Fits = (
  (
    record {
      one_line = one_line-IsLine (b'f' ∷ []) refl;
      short = omega arith;
      no_prompt = refl;
      no_bye = refl;
    },
    tt,
  ),
  record { one_line = unfold IsLine in tt; short = omega arith },
  omega arith,
)

client_main-promised_example :
    client_main one_file root bytewise 2 no_script typed
    ≡ some (
      record { printed = hello ∷ []; prompt = some (b'>' ∷ []) }
          ∷ record { printed = (b'f' ∷ []) ∷ []; prompt = some (b'>' ∷ []) }
          ∷ record { printed = bye ∷ []; prompt = none }
          ∷ [],
      left,
    )
unfolding reply_lines cwd_after promised typed_commands word_of listed build_path InStep ArePlain
client_main-promised_example =
    client_main-promised one_file root bytewise (λ path target e. refl) bytewise-Delivers 2
      no_script typed (omega arith)
      (list_command-IsCommand, (list_command-Fits, (quit_command-IsCommand, omega arith)))
