-- ===== src/FileServer/Sending.antt =====
-- `sendall` of lab8/src/server.c. What each `send` takes of the bytes that are left is a parameter; 0 is
-- an error.
pub mod Laws
use osisp.Prelude.{
  ℕ, zero, suc, ◌+◌, List, [], ◌∷◌, ◌++◌, Option, none, some, ◌==◌, take, drop, if◌then◌else◌,
}
use osisp.Prelude.Bytes.{Bytes}

-- More bytes before those that the rest of the loop sends.
abbrev pub before : Bytes → Option Bytes → Option Bytes
before s none = none
before s (some rest) = some (s ++ rest)

-- The loop on fuel from the call number `k` of `send`: the bytes that were sent.
unfoldable pub sendall : (ℕ → Bytes → ℕ) → ℕ → ℕ → Bytes → Option Bytes
sendall send zero k s = none
sendall send (suc fuel) k [] = some []
sendall send (suc fuel) k (c ∷ s) =
    let n : ℕ = send k (c ∷ s) in
    let rest : Option Bytes = sendall send fuel (k + 1) (drop n (c ∷ s)) in
    if n == 0 then some [] else before (take n (c ∷ s)) rest
