-- ===== src/ThreadQueue/Queue/Slots.antt =====
-- What the loops of `queue_expand` and `queue_reduce` do to the slots, and where a busy queue keeps its
-- messages, with the ring's index written out.
use native.Mathlib.Nat.{mod-eq_of_lt}
use osisp.Prelude.{
  ℕ, zero, suc, ◌+◌, ◌-◌, ◌%◌, ◌<◌, ◌≤◌, ◌≡◌, refl, ap, ◌∙◌, arith, List, Option, none, some, ltb,
  leb, ◌&&◌, if◌then◌else◌, get_or, set, length, length-set, read_at-get_or, write_at-set,
  get_or-set_self, get_or-set_ne, dec_lt,
}
use osisp.Prelude.Modulo.{mod-wrapped}
use osisp.Prelude.OptionMonad.{◌>>=◌}
use osisp.ThreadQueue.Queue.{MessageQueue, shift_up, shift_down}
use osisp.ThreadQueue.Queue.Valid.{IsBusy, slot}

-- What is in the slots after a loop: it ran without a fault, and `at p` is in slot `p`.
abbrev pub Moved : Option (List (Option ℕ)) → List (Option ℕ) → (ℕ → Option ℕ) → Type 0
Moved result messages at =
    (messages' : List (Option ℕ)) × (result ≡ some messages')
    × (length messages' ≡ length messages)
    × ((p : ℕ) → get_or messages' p none ≡ at p)

-- `n` rounds of the loop of `queue_expand` from `i` down move the slots `b` to `i - 1` up by one.
pub shift_up-get :
    (n i b : ℕ) (messages : List (Option ℕ))
    → b + n ≡ i
    → i < length messages
    → Moved
        (shift_up n i messages)
        messages
        λ p. if ltb b p && leb p i then get_or messages (p - 1) none else get_or messages p none
unfolding shift_up
shift_up-get zero i b messages h inside = (messages, refl, refl, λ p. ground arith)
shift_up-get (suc n) i b messages h inside =
    let v : Option ℕ = get_or messages (i - 1) none in
    let l : length (set messages i v) ≡ length messages = length-set messages i v in
    let (out, e, l', g) = shift_up-get n (i - 1) b (set messages i v) (omega arith) (omega arith) in
    (
      out,
      rw
          (
            read_at-get_or messages (i - 1) none (omega arith),
            ◌>>=◌,
            write_at-set messages i v inside,
            ◌>>=◌,
          )
          e,
      l' ∙ l,
      λ p. ground (
        arith,
        g p,
        get_or-set_self messages i v none,
        get_or-set_ne messages i p v none,
        get_or-set_ne messages i (p - 1) v none,
      ),
    )

-- `n` rounds of the loop of `queue_reduce` from `i` up move the slots `i` to `t - 1` down by one.
pub shift_down-get :
    (n i t : ℕ) (messages : List (Option ℕ))
    → 0 < i
    → i + n ≡ t
    → t ≤ length messages
    → Moved (shift_down n i messages) messages λ p.
      if leb i (p + 1) && ltb (p + 1) t
      then get_or messages (p + 1) none
      else get_or messages p none
unfolding shift_down
shift_down-get zero i t messages h e inside = (messages, refl, refl, λ p. ground arith)
shift_down-get (suc n) i t messages h et inside =
    let v : Option ℕ = get_or messages i none in
    let l : length (set messages (i - 1) v) ≡ length messages = length-set messages (i - 1) v in
    let (out, e, l', g) =
      shift_down-get n (i + 1) t (set messages (i - 1) v) (omega arith) (omega arith)
        (omega arith) in
    (
      out,
      rw
          (
            read_at-get_or messages i none (omega arith),
            ◌>>=◌,
            write_at-set messages (i - 1) v (omega arith),
            ◌>>=◌,
          )
          e,
      l' ∙ l,
      λ p. ground (
        arith,
        g p,
        get_or-set_self messages (i - 1) v none,
        get_or-set_ne messages (i - 1) p v none,
        get_or-set_ne messages (i - 1) (p + 1) v none,
      ),
    )

-- An index below twice the capacity, brought back into the ring.
abbrev pub wrap : ℕ → ℕ → ℕ
wrap x size = if ltb x size then x else x - size

pub mod-wrap : (x size : ℕ) → x < size + size → x % size ≡ wrap x size
mod-wrap x size h = elim (dec_lt x size) [
  | yes p ↦ ground (arith, mod-eq_of_lt p)
  | no p ↦ ground (arith, mod-wrapped x size (omega arith) h)
]

pub slot-wrap :
    (q : MessageQueue) (j : ℕ)
    → q.head < q.max_len
    → j ≤ q.max_len
    → slot q j ≡ get_or q.messages (wrap (q.head + j) q.max_len) none
slot-wrap q j h lt =
    ap (λ k. get_or q.messages k none) (mod-wrap (q.head + j) q.max_len (omega arith))

pub tail-wrap : (q : MessageQueue) → IsBusy q → q.tail ≡ wrap (q.head + (q.len - 1)) q.max_len
tail-wrap q v =
    v.tail_last ∙ mod-wrap (q.head + (q.len - 1)) q.max_len (omega (arith, v.head_in, v.fits))
