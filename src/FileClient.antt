-- ===== src/FileClient.antt =====
-- The client of the file server, lab8/src/client.c: lines out of what `recv` returns, and the lines of
-- a reply up to the prompt. A line is a list of bytes without NUL, as the server sends them.
pub mod Laws
pub mod Overflow
pub mod Replies
mod Tests
use osisp.Prelude.{
  ℕ, zero, suc, ◌+◌, List, [], ◌∷◌, ◌++◌, Bool, true, false, Option, none, some, ◌==◌, ltb,
  if◌then◌else◌, length,
}
use osisp.Prelude.Bytes.{Bytes, same_bytes, newline}

abbrev pub buf_size : ℕ
buf_size = 4096

-- What is left of the static buffer of `read_line`, and what the next calls of `recv` return. An empty
-- piece, or no more, is a result of 0 or less.
pub record Source : Type 0 where
  pub pending : Bytes
  pub arriving : List Bytes

-- NULL, a store outside `out`, or the line and what is left.
pub data Line : Type 0 where
  closed overflow : Line
  line : Bytes → Source → Line

-- `out[oi] = 0`
abbrev pub terminated : Bytes → Source → Line
terminated out s = if ltb (length out) buf_size then line out s else overflow

-- The rounds of the loop while the buffer has bytes; then `refill`.
unfoldable pub read_buffer : Bytes → List Bytes → (Bytes → Line) → Bytes → Line
read_buffer [] arriving refill out = refill out
read_buffer (c ∷ pending) arriving refill out =
    let stored : Line =
      if ltb (length out) buf_size
      then read_buffer pending arriving refill (out ++ c ∷ [])
      else overflow in
    if c == newline
    then terminated out (record { pending = pending; arriving = arriving })
    else stored

abbrev pub unless_closed : Bytes → Line → Line
unless_closed [] next = closed
unless_closed (c ∷ piece) next = next

-- The loop, with `out` so far.
unfoldable pub read_from : List Bytes → Bytes → Bytes → Line
read_from [] pending out = read_buffer pending [] (λ _. closed) out
read_from (piece ∷ arriving) pending out =
    read_buffer pending (piece ∷ arriving)
      (λ out'. unless_closed piece (read_from arriving piece out')) out

unfoldable pub read_line : Source → Line
read_line s = read_from s.arriving s.pending []

-- The last character is `>`.
unfoldable pub is_prompt : Bytes → Bool
is_prompt [] = false
is_prompt (c ∷ []) = c == b'>'
is_prompt (c ∷ d ∷ s) = is_prompt (d ∷ s)

-- `BYE`
abbrev pub bye_line : Bytes
bye_line = b'B' ∷ b'Y' ∷ b'E' ∷ []

-- The lines that `handle_server` prints, and how it ends: with a prompt, by `exit`, at the end of the
-- connection, or by a store outside `out`.
pub data Ending : Type 0 where
  prompted : Bytes → Source → Ending
  exited lost broken : Ending

abbrev pub printing : Bytes → Option (List Bytes × Ending) → Option (List Bytes × Ending)
printing l none = none
printing l (some (printed, ending)) = some (l ∷ printed, ending)

abbrev pub on_line : (Source → Option (List Bytes × Ending)) → Line → Option (List Bytes × Ending)
on_line next closed = some ([], lost)
on_line next overflow = some ([], broken)
on_line next (line l s) =
    if is_prompt l
    then some ([], prompted l s)
    else printing l (if same_bytes l bye_line then some ([], exited) else next s)

-- On fuel, which counts lines.
unfoldable pub handle_server : ℕ → Source → Option (List Bytes × Ending)
handle_server zero s = none
handle_server (suc fuel) s = on_line (λ s'. handle_server fuel s') (read_line s)
