-- ===== src/ShmQueue/Message/Hash.antt =====
-- What `calculate_hash` computes, and that a generated message passes the consumer's check.
use osisp.Prelude.{
  ℕ, zero, suc, ◌+◌, ◌*◌, ◌%◌, ◌^◌, ◌≤◌, ◌<◌, ◌≡◌, refl, arith, List, [], ◌∷◌, ◌==◌, if◌then◌else◌,
  get_or, set, replicate, length, length-set, length-replicate, Bool-cases, inl, inr,
}
use osisp.ShmQueue.Message.{
  Message, max_data_size, hash_from, calculate_hash, fill_from, draw, generate_message,
}

-- The sum of the `n` bytes from index `i`.
unfoldable pub sum_bytes : ℕ → ℕ → List ℕ → ℕ
sum_bytes zero i bytes = 0
sum_bytes (suc n) i bytes = get_or bytes i 0 + sum_bytes n (i + 1) bytes

-- Every element is a byte.
abbrev pub AllBytes : List ℕ → Type 0
AllBytes [] = Unit
AllBytes (x ∷ xs) = (x < 256) × AllBytes xs

pub record IsMessage (m : Message) : Type 0 where
  pub type_byte : m.type < 256
  pub size_byte : m.size < 256
  pub full_length : length m.bytes ≡ max_data_size
  pub all_bytes : AllBytes m.bytes

get_or-byte : (i : ℕ) (xs : List ℕ) → AllBytes xs → get_or xs i 0 < 256
get_or-byte i [] h = omega arith
get_or-byte zero (x ∷ xs) h = h.0
get_or-byte (suc i) (x ∷ xs) h = get_or-byte i xs h.1

set-AllBytes : (xs : List ℕ) (i v : ℕ) → v < 256 → AllBytes xs → AllBytes (set xs i v)
set-AllBytes [] i v hv h = tt
set-AllBytes (x ∷ xs) zero v hv h = (hv, h.1)
set-AllBytes (x ∷ xs) (suc i) v hv h = (h.0, set-AllBytes xs i v hv h.1)

pub replicate-AllBytes : (n : ℕ) → AllBytes (replicate n 0)
replicate-AllBytes zero = tt
replicate-AllBytes (suc n) = (omega arith, replicate-AllBytes n)

sum_bytes-le : (n i : ℕ) (xs : List ℕ) → AllBytes xs → sum_bytes n i xs ≤ n * 255
unfolding sum_bytes
sum_bytes-le zero i xs h = omega arith
sum_bytes-le (suc n) i xs h = omega (arith, get_or-byte i xs h, sum_bytes-le n (i + 1) xs h)

-- The loop adds the bytes modulo 2^16.
hash_from-sum :
    (n i acc : ℕ) (xs : List ℕ)
    → acc < 2 ^ 16
    → hash_from n i acc xs ≡ (acc + sum_bytes n i xs) % 2 ^ 16
unfolding hash_from sum_bytes
hash_from-sum zero i acc xs h = omega arith
hash_from-sum (suc n) i acc xs h =
    omega (arith, hash_from-sum n (i + 1) ((acc + get_or xs i 0) % 2 ^ 16) xs (omega arith))

-- For a well-formed message, `calculate_hash` is the exact sum of the type and of the first `size`
-- data bytes: the uint16_t additions never wrap.
pub calculate_hash-sum :
    (m : Message) → IsMessage m → calculate_hash m ≡ m.type + sum_bytes m.size 0 m.bytes
unfolding calculate_hash
calculate_hash-sum m v = omega (
  arith,
  hash_from-sum m.size 0 ((0 + m.type) % 2 ^ 16) m.bytes (omega arith),
  sum_bytes-le m.size 0 m.bytes v.all_bytes,
)

length-fill_from :
    (rand : ℕ → ℕ) (n i pos : ℕ) (xs : List ℕ) → length (fill_from rand n i pos xs) ≡ length xs
unfolding fill_from
length-fill_from rand zero i pos xs = refl
length-fill_from rand (suc n) i pos xs = omega (
  arith,
  length-fill_from rand n (i + 1) (pos + 1) (set xs i (rand pos % 256)),
  length-set xs i (rand pos % 256),
)

fill_from-AllBytes :
    (rand : ℕ → ℕ) (n i pos : ℕ) (xs : List ℕ) → AllBytes xs → AllBytes (fill_from rand n i pos xs)
unfolding fill_from
fill_from-AllBytes rand zero i pos xs h = h
fill_from-AllBytes rand (suc n) i pos xs h =
    fill_from-AllBytes rand n (i + 1) (pos + 1) _ (set-AllBytes xs i _ (omega arith) h)

generate_bytes :
    (rand : ℕ → ℕ) (n pos : ℕ) (xs : List ℕ)
    → length xs ≡ max_data_size
    → AllBytes xs
    → let out = if n == 0 then replicate max_data_size 0 else fill_from rand n 0 pos xs in
      (length out ≡ max_data_size) × AllBytes out
generate_bytes rand n pos xs hl hb = elim (Bool-cases (n == 0)) [
  | inl e ↦ rw e (length-replicate {A = ℕ} max_data_size 0, replicate-AllBytes max_data_size)
  | inr e ↦
      rw e (omega (arith, length-fill_from rand n 0 pos xs), fill_from-AllBytes rand n 0 pos xs hb)
]

-- Whatever `rand` returns, `generate_message` leaves a well-formed message in the buffer (sizes and
-- bytes in range, the array's length kept) whose stored hash is the hash that the consumer
-- recomputes.
pub generate_message_lem :
    (rand : ℕ → ℕ) (pos : ℕ) (msg : Message)
    → IsMessage msg
    → let m = generate_message rand pos msg in IsMessage m × (calculate_hash m ≡ m.hash)
unfolding generate_message
generate_message_lem rand pos msg v =
    let (l, b) =
      generate_bytes rand (rand (pos + 1) % 256) (pos + 2) msg.bytes v.full_length v.all_bytes in
    (
      record { type_byte = omega arith; size_byte = omega arith; full_length = l; all_bytes = b },
      hash_ignored,
    )
  where
    hash_ignored :
        calculate_hash (generate_message rand pos msg) ≡ calculate_hash (draw rand pos msg)
    hash_ignored = refl
