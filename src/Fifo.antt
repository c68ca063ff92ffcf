-- ===== src/Fifo.antt =====
-- The abstract specification of the queues: a list of items, oldest first, of bounded length.
use osisp.Prelude.{ℕ, List, [], ◌∷◌, ◌++◌, Option, none, some, ltb, if◌then◌else◌, length}

-- A client's call, and the replies to a sequence of calls.
pub data Op {ℓ} (A : Type ℓ) : Type ℓ where
  put : A → Op A
  get : Op A

module _ {ℓ} {A : Type ℓ} where
  -- An item is refused when `cap` items are held.
  unfoldable pub push : ℕ → List A → A → List A
  push cap q x = if ltb (length q) cap then q ++ x ∷ [] else q

  unfoldable pub pop : List A → Option A × List A
  pop [] = (none, [])
  pop (x ∷ q) = (some x, q)

  -- What the `get`s of a sequence of calls return.
  unfoldable pub run : ℕ → List A → List (Op A) → List (Option A)
  run cap q [] = []
  run cap q (put x ∷ ops) = run cap (push cap q x) ops
  run cap q (get ∷ ops) = let (out, rest) = pop q in out ∷ run cap rest ops
