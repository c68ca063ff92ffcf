-- ===== src/FileClient/Laws.antt =====
-- `read_line` of lab8/src/client.c on a connection that is cut into pieces in any way.
use mathlib.Core.List.{head-eq_of_cons-eq, tail-eq_of_cons-eq}
use osisp.Prelude.{
  ℕ, ◌+◌, ◌<◌, ◌≡◌, ◌≢◌, refl, ap, ◌∙◌, arith, List, [], ◌∷◌, ◌++◌, append_assoc, append-nil, Bool,
  Bool-cases, inl, inr, true, false, ◌==◌, ltb, if◌then◌else◌, length, length-append,
}
use osisp.Prelude.Bytes.{newline, Bytes}
use osisp.FileClient.{buf_size, Source, Line, closed, line, read_buffer, read_from, read_line}

-- The bytes that are still to come, up to the end of the connection.
unfoldable pub arrived : List Bytes → Bytes
arrived [] = []
arrived ([] ∷ arriving) = []
arrived ((c ∷ piece) ∷ arriving) = (c ∷ piece) ++ arrived arriving

unfoldable pub stream : Source → Bytes
stream s = s.pending ++ arrived s.arriving

-- No newline.
unfoldable pub IsLine : Bytes → Type 0
IsLine [] = Unit
IsLine (c ∷ l) = (c ≢ newline) × IsLine l

-- The test for a newline anywhere.
unfoldable pub one_line : Bytes → Bool
one_line [] = true
one_line (c ∷ l) = if c == newline then false else one_line l

pub one_line-IsLine : (l : Bytes) → one_line l ≡ true → IsLine l
unfolding one_line IsLine
one_line-IsLine [] e = tt
one_line-IsLine (c ∷ l) e = elim (Bool-cases (c == newline)) [
  | inl end ↦ let no : false ≡ true = rw end at e in cc no
  | inr other ↦
      let more : one_line l ≡ true = rw other at e in
      ((λ same. ground arith), one_line-IsLine l more)
]

-- The line `l` was read, and the stream `rest` is left.
abbrev pub Reads : Line → Bytes → Bytes → Type 0
Reads r l rest = (s' : Source) × (r ≡ line l s') × (stream s' ≡ rest)

-- The two sides of an equation that begins with a byte of the buffer.
pub uncons : {c d : ℕ} {xs ys : Bytes} → c ∷ xs ≡ d ∷ ys → (c ≡ d) × (xs ≡ ys)
uncons e = (head-eq_of_cons-eq e, tail-eq_of_cons-eq e)

pub no_line : (l rest : Bytes) → [] ≢ l ++ newline ∷ rest
no_line l rest e = absurd (omega (arith, ap length e, length-append l (newline ∷ rest)))

module _ (arriving : List Bytes) (refill : Bytes → Line) (rest : Bytes) where
  -- What the end of the buffer leads to.
  abbrev Refills : Type 0
  Refills =
      (out l : Bytes)
      → IsLine l
      → arrived arriving ≡ l ++ newline ∷ rest
      → length out + length l < buf_size
      → Reads (refill out) (out ++ l) rest

  read_buffer-Reads :
      (pending out l : Bytes)
      → Refills
      → IsLine l
      → pending ++ arrived arriving ≡ l ++ newline ∷ rest
      → length out + length l < buf_size
      → Reads (read_buffer pending arriving refill out) (out ++ l) rest
  unfolding read_buffer IsLine
  read_buffer-Reads [] out l refills hl e room = refills out l hl e room
  read_buffer-Reads (c ∷ pending) out [] refills hl e room =
      let (at_end, same) = uncons e in
      let found : (c == newline) ≡ true = ground arith in
      let fits : ltb (length out) buf_size ≡ true = ground arith in
      (
        record { pending = pending; arriving = arriving },
        rw (found, fits, append-nil out) refl,
        unfold stream in same,
      )
  read_buffer-Reads (c ∷ pending) out (d ∷ l) refills hl e room =
      let (here, same) = uncons e in
      let other : (c == newline) ≡ false = let h = hl.0 in ground arith in
      let fits : ltb (length out) buf_size ≡ true = ground arith in
      let grown : length (out ++ c ∷ []) ≡ length out + 1 = length-append out (c ∷ []) in
      let (s', read, left) =
        read_buffer-Reads pending (out ++ c ∷ []) l refills hl.1 same (omega (arith, grown)) in
      let joined : (out ++ c ∷ []) ++ l ≡ out ++ d ∷ l =
        append_assoc out (c ∷ []) l ∙ ap (λ x. out ++ x ∷ l) here in
      (s', rw (other, fits, ← joined) read, left)

read_from-Reads :
    (arriving : List Bytes) (pending out l rest : Bytes)
    → IsLine l
    → pending ++ arrived arriving ≡ l ++ newline ∷ rest
    → length out + length l < buf_size
    → Reads (read_from arriving pending out) (out ++ l) rest
unfolding read_from arrived
read_from-Reads [] pending out l rest hl e room =
    read_buffer-Reads [] (λ _. closed) rest pending out l
      (λ out' l' _ nothing _. absurd (no_line l' rest nothing)) hl e room
read_from-Reads ([] ∷ arriving) pending out l rest hl e room =
    read_buffer-Reads ([] ∷ arriving) (λ _. closed) rest pending out l
      (λ out' l' _ nothing _. absurd (no_line l' rest nothing)) hl e room
read_from-Reads ((b ∷ piece) ∷ arriving) pending out l rest hl e room =
    read_buffer-Reads ((b ∷ piece) ∷ arriving) (λ out'. read_from arriving (b ∷ piece) out') rest
      pending out l
      (λ out' l' hl' e' room'. read_from-Reads arriving (b ∷ piece) out' l' rest hl' e' room') hl e
      room

-- However the connection cuts the bytes into pieces: when a line of fewer than 4096 bytes and its
-- newline are still to come, `read_line` gives that line and leaves what follows the newline.
pub read_line-Reads :
    (s : Source) (l rest : Bytes)
    → IsLine l
    → length l < buf_size
    → stream s ≡ l ++ newline ∷ rest
    → Reads (read_line s) l rest
unfolding read_line stream
read_line-Reads s l rest hl room e =
    read_from-Reads s.arriving s.pending [] l rest hl e (omega arith)
