-- ===== src/RecordEditor/Record.antt =====
-- The records of lab7/src/record.h, their comparison and the globals of lab7/src/editor.c.
use osisp.Prelude.Bytes.{same_bytes, same_bytes_refl}
use osisp.Prelude.{ℕ, ◌≡◌, List, Bool, true, ◌&&◌, ◌==◌, arith}

-- NAME_LEN and ADDR_LEN
abbrev pub name_len : ℕ
name_len = 80

abbrev pub addr_len : ℕ
addr_len = 80

-- The fields are the bytes of the arrays.
pub record FileRecord : Type 0 where
  pub name : List ℕ
  pub address : List ℕ
  pub semester : ℕ

pub record Editor : Type 0 where
  pub orig_rec : FileRecord
  pub work_rec : FileRecord
  pub last_rec_no : ℕ
  pub has_work : Bool

-- `memcmp(&r, &s, sizeof(r)) == 0`
abbrev pub same : FileRecord → FileRecord → Bool
same r s =
    same_bytes r.name s.name && (same_bytes r.address s.address && (r.semester == s.semester))

pub same_refl : (r : FileRecord) → same r r ≡ true
same_refl r =
    let n = same_bytes_refl r.name in let a = same_bytes_refl r.address in ground (arith, n, a)
