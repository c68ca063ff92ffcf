-- ===== src/FileClient/Replies.antt =====
-- What `handle_server` of lab8/src/client.c makes of a whole reply.
use osisp.Prelude.{
  ℕ, zero, suc, ◌<◌, ◌≡◌, refl, ◌∙◌, arith, List, [], ◌∷◌, ◌++◌, append_assoc, true, false, Option,
  some, length,
}
use osisp.Prelude.Bytes.{Bytes, same_bytes, unlines, newline}
use osisp.FileClient.{
  buf_size, Source, is_prompt, bye_line, Ending, prompted, exited, handle_server,
}
use osisp.FileClient.Laws.{stream, IsLine, read_line-Reads}

-- A line that the client prints and reads on after: short, not a prompt, and not `BYE`.
pub record IsPlain (l : Bytes) : Type 0 where
  pub one_line : IsLine l
  pub short : length l < buf_size
  pub no_prompt : is_prompt l ≡ false
  pub no_bye : same_bytes l bye_line ≡ false

unfoldable pub ArePlain : List Bytes → Type 0
ArePlain [] = Unit
ArePlain (l ∷ ls) = IsPlain l × ArePlain ls

-- A prompt that fits.
pub record IsPrompt (p : Bytes) : Type 0 where
  pub one_line : IsLine p
  pub short : length p < buf_size
  pub at_end : is_prompt p ≡ true

-- The reply was read to its prompt, and the stream `rest` is left.
abbrev pub Answers : Option (List Bytes × Ending) → List Bytes → Bytes → Bytes → Type 0
Answers r ls p rest = (s' : Source) × (r ≡ some (ls, prompted p s')) × (stream s' ≡ rest)

-- However the connection cuts a reply into pieces, and with fuel above its number of lines: from plain
-- lines and a prompt the client prints the lines, takes the prompt, and leaves what follows.
pub handle_server-Answers :
    (fuel : ℕ) (ls : List Bytes) (p rest : Bytes) (s : Source)
    → length ls < fuel
    → ArePlain ls
    → IsPrompt p
    → stream s ≡ unlines ls ++ (p ++ newline ∷ rest)
    → Answers (handle_server fuel s) ls p rest
unfolding handle_server unlines ArePlain
handle_server-Answers zero ls p rest s enough hls hp e = absurd (omega arith)
handle_server-Answers (suc fuel) [] p rest s enough hls hp e =
    let (s', read, left) = read_line-Reads s p rest hp.one_line hp.short e in
    (s', rw (read, hp.at_end) refl, left)
handle_server-Answers (suc fuel) (l ∷ ls) p rest s enough hls hp e =
    let plain : IsPlain l = hls.0 in
    let (s', read, left) =
      read_line-Reads s l (unlines ls ++ (p ++ newline ∷ rest)) plain.one_line plain.short
        (e ∙ append_assoc l (newline ∷ unlines ls) (p ++ newline ∷ rest)) in
    let (s'', answered, left') =
      handle_server-Answers fuel ls p rest s' (omega arith) hls.1 hp left in
    (s'', rw (read, plain.no_prompt, plain.no_bye, answered) refl, left')

-- On a reply of `BYE` the client prints it and leaves.
pub handle_server-exited :
    (fuel : ℕ) (rest : Bytes) (s : Source)
    → 0 < fuel
    → stream s ≡ bye_line ++ newline ∷ rest
    → handle_server fuel s ≡ some (bye_line ∷ [], exited)
unfolding handle_server IsLine is_prompt
handle_server-exited zero rest s enough e = absurd (omega arith)
handle_server-exited (suc fuel) rest s enough e =
    let (s', read, _) =
      read_line-Reads s bye_line rest (omega arith, (omega arith, (omega arith, tt))) (omega arith)
        e in
    rw read refl
