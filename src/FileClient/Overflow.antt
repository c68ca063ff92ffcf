-- ===== src/FileClient/Overflow.antt =====
-- A line that does not fit in the buffer of `read_line` in lab8/src/client.c.
use osisp.Prelude.{
  ◌+◌, ◌≤◌, ◌≡◌, refl, arith, List, [], ◌∷◌, ◌++◌, true, false, ◌==◌, ltb, length, length-append,
}
use osisp.Prelude.Bytes.{newline, Bytes}
use osisp.FileClient.{buf_size, Source, Line, closed, overflow, read_buffer, read_from, read_line}
use osisp.FileClient.Laws.{arrived, stream, IsLine, uncons, no_line}

module _ (arriving : List Bytes) (refill : Bytes → Line) (rest : Bytes) where
  abbrev Overflows : Type 0
  Overflows =
      (out l : Bytes)
      → IsLine l
      → arrived arriving ≡ l ++ newline ∷ rest
      → buf_size ≤ length out + length l
      → refill out ≡ overflow

  read_buffer-overflow :
      (pending out l : Bytes)
      → Overflows
      → IsLine l
      → pending ++ arrived arriving ≡ l ++ newline ∷ rest
      → buf_size ≤ length out + length l
      → read_buffer pending arriving refill out ≡ overflow
  unfolding read_buffer IsLine
  read_buffer-overflow [] out l refills hl e long = refills out l hl e long
  read_buffer-overflow (c ∷ pending) out [] refills hl e long =
      let (at_end, same) = uncons e in
      let found : (c == newline) ≡ true = ground arith in
      let full : ltb (length out) buf_size ≡ false = ground arith in rw (found, full) refl
  read_buffer-overflow (c ∷ pending) out (d ∷ l) refills hl e long =
      let (here, same) = uncons e in
      let other : (c == newline) ≡ false = let h = hl.0 in ground arith in
      let grown : length (out ++ c ∷ []) ≡ length out + 1 = length-append out (c ∷ []) in
      let next : read_buffer pending arriving refill (out ++ c ∷ []) ≡ overflow =
        read_buffer-overflow pending (out ++ c ∷ []) l refills hl.1 same (omega (arith, grown)) in
      rw (other, next) (ground arith)

read_from-overflow :
    (arriving : List Bytes) (pending out l rest : Bytes)
    → IsLine l
    → pending ++ arrived arriving ≡ l ++ newline ∷ rest
    → buf_size ≤ length out + length l
    → read_from arriving pending out ≡ overflow
unfolding read_from arrived
read_from-overflow [] pending out l rest hl e long =
    read_buffer-overflow [] (λ _. closed) rest pending out l
      (λ out' l' _ nothing _. absurd (no_line l' rest nothing)) hl e long
read_from-overflow ([] ∷ arriving) pending out l rest hl e long =
    read_buffer-overflow ([] ∷ arriving) (λ _. closed) rest pending out l
      (λ out' l' _ nothing _. absurd (no_line l' rest nothing)) hl e long
read_from-overflow ((b ∷ piece) ∷ arriving) pending out l rest hl e long =
    read_buffer-overflow ((b ∷ piece) ∷ arriving) (λ out'. read_from arriving (b ∷ piece) out') rest
      pending out l
      (λ out' l' hl' e' long'. read_from-overflow arriving (b ∷ piece) out' l' rest hl' e' long') hl
      e long

-- However the connection cuts the bytes into pieces: a line of 4096 bytes or more makes `read_line`
-- write outside its buffer.
pub read_line-overflow :
    (s : Source) (l rest : Bytes)
    → IsLine l
    → buf_size ≤ length l
    → stream s ≡ l ++ newline ∷ rest
    → read_line s ≡ overflow
unfolding read_line stream
read_line-overflow s l rest hl long e =
    read_from-overflow s.arriving s.pending [] l rest hl e (omega arith)
