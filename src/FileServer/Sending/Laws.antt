-- ===== src/FileServer/Sending/Laws.antt =====
-- What `sendall` of lab8/src/server.c sends.
use osisp.Prelude.{
  ℕ, zero, suc, ◌+◌, ◌<◌, ◌≤◌, ◌≡◌, refl, ap, arith, [], ◌∷◌, some, false, ◌==◌, length,
  length-drop, drop, take-append-drop,
}
use osisp.Prelude.Bytes.{Bytes}
use osisp.FileServer.Sending.{sendall}

-- Every `send` takes something, and no more than there is.
abbrev pub Takes : (ℕ → Bytes → ℕ) → Type 0
Takes send = (k c : ℕ) (s : Bytes) → (0 < send k (c ∷ s)) × (send k (c ∷ s) ≤ suc (length s))

-- With fuel above the number of bytes, and however few of them each `send` takes, if it takes one or
-- more: the loop ends and has sent all bytes in their order.
pub sendall_lem :
    (send : ℕ → Bytes → ℕ) (fuel k : ℕ) (s : Bytes)
    → Takes send
    → length s < fuel
    → sendall send fuel k s ≡ some s
unfolding sendall
sendall_lem send zero k s takes enough = absurd (omega arith)
sendall_lem send (suc fuel) k [] takes enough = refl
sendall_lem send (suc fuel) k (c ∷ s) takes enough =
    let n : ℕ = send k (c ∷ s) in
    let (some_byte, within) = takes k c s in
    let goes_on : (n == 0) ≡ false = ground arith in
    let rest : sendall send fuel (k + 1) (drop n (c ∷ s)) ≡ some (drop n (c ∷ s)) =
      sendall_lem send fuel (k + 1) (drop n (c ∷ s)) takes (omega (arith, length-drop n (c ∷ s))) in
    rw (goes_on, rest) (ap (λ x. some x) (take-append-drop n (c ∷ s)))
