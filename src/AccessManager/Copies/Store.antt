-- ===== src/AccessManager/Copies/Store.antt =====
-- The directory of the copies: names with contents.
use osisp.Prelude.{
  ◌≡◌, ◌≢◌, refl, List, [], ◌∷◌, false, Option, none, some, if◌then◌else◌, Bool-cases, inl, inr,
  sym, ap, ◌∙◌,
}
use osisp.Prelude.Bytes.{Bytes, same_bytes, same_bytes_refl, eq_of_same_bytes, same_bytes-ne}

abbrev pub Dir : Type 0
Dir = List (Bytes × Bytes)

unfoldable pub lookup : Bytes → Dir → Option Bytes
lookup name [] = none
lookup name ((other, content) ∷ dir) =
    if same_bytes other name then some content else lookup name dir

-- Every entry of the name goes.
unfoldable pub remove_file : Bytes → Dir → Dir
remove_file name [] = []
remove_file name ((other, content) ∷ dir) =
    let rest : Dir = remove_file name dir in
    if same_bytes other name then rest else (other, content) ∷ rest

-- `fopen(…, "wb")` and writing.
unfoldable pub write_file : Bytes → Bytes → Dir → Dir
unfolding remove_file
write_file name content dir = (name, content) ∷ remove_file name dir

pub lookup-remove_file_self : (name : Bytes) (dir : Dir) → lookup name (remove_file name dir) ≡ none
unfolding lookup remove_file
lookup-remove_file_self name [] = refl
lookup-remove_file_self name ((other, content) ∷ dir) = elim (Bool-cases (same_bytes other name)) [
  | inl e ↦ rw e (lookup-remove_file_self name dir)
  | inr e ↦ rw (e, lookup) (rw e (lookup-remove_file_self name dir))
]

pub lookup-remove_file_ne :
    (name other : Bytes) (dir : Dir)
    → other ≢ name
    → lookup other (remove_file name dir) ≡ lookup other dir
unfolding lookup remove_file
lookup-remove_file_ne name other [] ne = refl
lookup-remove_file_ne name other ((n, content) ∷ dir) ne = elim (Bool-cases (same_bytes n name)) [
  | inl e ↦
      let off : same_bytes n other ≡ false =
        same_bytes-ne n other (λ h. ne (sym h ∙ eq_of_same_bytes n name e)) in
      rw (e, off) (lookup-remove_file_ne name other dir ne)
  | inr e ↦
      rw (e, lookup)
        (ap (λ o. if same_bytes n other then some content else o)
          (lookup-remove_file_ne name other dir ne))
]

pub lookup-write_file_self :
    (name content : Bytes) (dir : Dir) → lookup name (write_file name content dir) ≡ some content
unfolding lookup write_file
lookup-write_file_self name content dir = rw (same_bytes_refl name) refl

pub lookup-write_file_ne :
    (name other content : Bytes) (dir : Dir)
    → other ≢ name
    → lookup other (write_file name content dir) ≡ lookup other dir
unfolding lookup write_file
lookup-write_file_ne name other content dir ne =
    let off : same_bytes name other ≡ false = same_bytes-ne name other (λ h. ne (sym h)) in
    rw off (lookup-remove_file_ne name other dir ne)
