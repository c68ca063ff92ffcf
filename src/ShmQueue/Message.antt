-- ===== src/ShmQueue/Message.antt =====
-- The messages of lab4/src/message.h and lab4/src/message.c.
-- `rand` is the C library's: a stream of values, read from a position that the caller keeps.
pub mod Hash
use osisp.Prelude.{
  ℕ, zero, suc, ◌+◌, ◌%◌, ◌^◌, List, Bool, if◌then◌else◌, ◌==◌, get_or, set, replicate,
}

abbrev pub max_data_size : ℕ
max_data_size = 256

-- `type` and `size` are uint8_t, `hash` is uint16_t, `bytes` is the array `data` of uint8_t.
pub record Message : Type 0 where
  pub type : ℕ
  pub hash : ℕ
  pub size : ℕ
  pub bytes : List ℕ

unfoldable pub zero_message : Message
zero_message = record { type = 0; hash = 0; size = 0; bytes = replicate max_data_size 0 }

-- The loop of `calculate_hash`: `n` rounds are left, the next index is `i`. uint16_t wraps.
hash_from : ℕ → ℕ → ℕ → List ℕ → ℕ
hash_from zero i hash bytes = hash
hash_from (suc n) i hash bytes = hash_from n (i + 1) ((hash + get_or bytes i 0) % 2 ^ 16) bytes

unfoldable pub calculate_hash : Message → ℕ
unfolding hash_from
calculate_hash msg = hash_from msg.size 0 ((0 + msg.type) % 2 ^ 16) msg.bytes

-- The loop of `generate_message`: the value for index `i` is read at `pos`.
fill_from : (ℕ → ℕ) → ℕ → ℕ → ℕ → List ℕ → List ℕ
fill_from rand zero i pos bytes = bytes
fill_from rand (suc n) i pos bytes =
    fill_from rand n (i + 1) (pos + 1) (set bytes i (rand pos % 256))

-- The message with its type, size and data drawn, its hash cleared.
abbrev pub draw : (ℕ → ℕ) → ℕ → Message → Message
unfolding fill_from
draw rand pos msg =
    let size = rand (pos + 1) % 256 in
    record {
      type = rand pos % 256;
      hash = 0;
      size = size;
      bytes =
          if size == 0
          then replicate max_data_size 0
          else fill_from rand size 0 (pos + 2) msg.bytes;
    }

-- `generate_message` fills `*msg` in place: the bytes past `size` stay what they were.
unfoldable pub generate_message : (ℕ → ℕ) → ℕ → Message → Message
unfolding fill_from calculate_hash
generate_message rand pos msg =
    let drawn = draw rand pos msg in record drawn { hash = calculate_hash drawn }

-- The number of values that a call of `generate_message` takes from `rand`.
abbrev pub drawn_count : (ℕ → ℕ) → ℕ → ℕ
drawn_count rand pos = 2 + rand (pos + 1) % 256
