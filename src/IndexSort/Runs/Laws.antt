-- ===== src/IndexSort/Runs/Laws.antt =====
-- Merging sorted runs in pairs sorts the file.
use mathlib.Core.List.{Perm}
use mathlib.Core.List.Perm
use osisp.Prelude.{
  take-append, drop-append, ℕ, zero, suc, ◌+◌, ◌*◌, ◌≤◌, ◌<◌, ◌≡◌, refl, ap, sym, ◌∙◌, subst, List,
  [], ◌∷◌, ◌++◌, append-nil, append_assoc, true, ltb, lt→ltb, some, drop, length, length-append,
  arith,
}
use osisp.IndexSort.Record.{Double, IndexRecord}
use osisp.IndexSort.Merge.{merge_blocks}
use osisp.IndexSort.Merge.Laws.{IsSorted, merged, merge_into-merged, merged-IsSorted, merged-perm}
use osisp.IndexSort.Portion.{Calls, header_size, record_size}
use osisp.IndexSort.Portion.Blocks.{perm-length}
use osisp.IndexSort.Portion.Laws.{AllSucceed}
use osisp.IndexSort.Runs.{RunBoundary, record_at, merge_pass, external_merge}

pub record_at-exact : (at : ℕ) → record_at (header_size + at * record_size) ≡ at
record_at-exact at = omega arith

module _ (d : Double) where
  -- From record index `at` on, the records are the runs one after the other, each in order.
  abbrev pub RunsAt : ℕ → List RunBoundary → List (IndexRecord d) → Type 0
  RunsAt at [] xs = xs ≡ []
  RunsAt at (run ∷ runs) xs =
      (block : List (IndexRecord d)) × (rest : List (IndexRecord d)) × (xs ≡ block ++ rest)
      × (length block ≡ run.nrecords)
      × (run.offset ≡ header_size + at * record_size)
      × IsSorted d block
      × RunsAt (at + run.nrecords) runs rest

  -- Two neighbouring runs behind `pre` become one.
  merge_blocks-at :
      (pre left right rest : List (IndexRecord d)) (at nleft nright : ℕ)
      → length pre ≡ at
      → length left ≡ nleft
      → length right ≡ nright
      → merge_blocks d (pre ++ (left ++ (right ++ rest))) at nleft nright
        ≡ (pre ++ merged d left right) ++ rest
  unfolding merge_blocks
  merge_blocks-at pre left right rest at nleft nright ep el er =
      let whole : pre ++ (left ++ (right ++ rest)) ≡ (pre ++ left) ++ (right ++ rest) =
        sym (append_assoc pre left (right ++ rest)) in
      let behind : drop (at + nleft) (pre ++ (left ++ (right ++ rest))) ≡ right ++ rest =
        ap (drop (at + nleft)) whole
        ∙ drop-append (at + nleft) (pre ++ left) (right ++ rest)
            (omega (arith, length-append pre left)) in
      let after : drop (at + (nleft + nright)) (pre ++ (left ++ (right ++ rest))) ≡ rest =
        ap (drop (at + (nleft + nright))) (whole ∙ sym (append_assoc (pre ++ left) right rest))
        ∙ drop-append (at + (nleft + nright)) ((pre ++ left) ++ right) rest
            (omega (arith, length-append pre left, length-append (pre ++ left) right)) in
      rw
        (
          behind,
          after,
          take-append at pre (left ++ (right ++ rest)) ep,
          drop-append at pre (left ++ (right ++ rest)) ep,
          take-append nleft left (right ++ rest) el,
          take-append nright right rest er,
          merge_into-merged d left right [],
        )
        (sym (append_assoc pre (merged d left right) rest))

module _ (d : Double) (calls : Calls) (ok : AllSucceed calls) where
  -- A pass leaves about half as many runs, of the same records.
  merge_pass-RunsAt :
      (at : ℕ) (runs : List RunBoundary) (pre xs : List (IndexRecord d))
      → length pre ≡ at
      → RunsAt d at runs xs
      → (runs' : List RunBoundary) × (xs' : List (IndexRecord d)) × (merge_pass d calls runs
            (pre ++ xs)
          ≡ some (runs', pre ++ xs'))
        × RunsAt d at runs' xs'
        × Perm xs' xs
        × (length runs' + length runs' ≤ length runs + 1)
  unfolding merge_pass
  merge_pass-RunsAt at [] pre xs ep h = ([], xs, refl, h, Perm.refl xs, omega arith)
  merge_pass-RunsAt at (run ∷ []) pre xs ep h = (run ∷ [], xs, refl, h, Perm.refl xs, omega arith)
  merge_pass-RunsAt at (run ∷ next ∷ runs) pre xs ep
        (left, _, e₁, len₁, off₁, sorted₁, (right, rest, e₂, len₂, off₂, sorted₂, h)) =
      let (runs', xs', e, next_runs, same, fewer) =
        merge_pass-RunsAt (at + (run.nrecords + next.nrecords)) runs (pre ++ block) rest
          (omega (arith, length-append pre block, len))
          (subst (λ a. RunsAt d a runs rest) {x = at + run.nrecords + next.nrecords} (omega arith)
            h) in
      (
        joined ∷ runs',
        block ++ xs',
        rw (ok.opens_ok, ok.maps_ok, ok.syncs_ok, step, e)
            (ap (λ f. some (joined ∷ runs', f)) (append_assoc pre block xs')),
        (block, xs', refl, len, off₁, merged-IsSorted d left right sorted₁ sorted₂, next_runs),
        subst (Perm (block ++ xs')) (append_assoc left right rest ∙ sym whole)
            (Perm.append (merged-perm d left right) same),
        omega (arith, fewer),
      )
    where
      block : List (IndexRecord d)
      block = merged d left right

      joined : RunBoundary
      joined = record { offset = run.offset; nrecords = run.nrecords + next.nrecords }

      len : length block ≡ run.nrecords + next.nrecords
      len = omega (arith, perm-length (merged-perm d left right), length-append left right)

      whole : xs ≡ left ++ (right ++ rest)
      whole = e₁ ∙ ap (λ l. left ++ l) e₂

      step :
          merge_blocks d (pre ++ xs) (record_at run.offset) run.nrecords next.nrecords
          ≡ (pre ++ block) ++ rest
      step =
          rw (whole, off₁, record_at-exact at)
            (merge_blocks-at d pre left right rest at run.nrecords next.nrecords ep len₁ len₂)

  -- Runs that follow each other from the start of the file on are merged into one ordered file of
  -- the same records; the loop ends with fuel above the number of runs.
  pub external_merge_lem :
      (fuel : ℕ) (runs : List RunBoundary) (file : List (IndexRecord d))
      → length runs < fuel
      → RunsAt d 0 runs file
      → (file' : List (IndexRecord d)) × (external_merge d calls fuel runs file ≡ some file')
        × IsSorted d file'
        × Perm file' file
  unfolding external_merge
  external_merge_lem zero runs file hf h = absurd (omega arith)
  external_merge_lem (suc fuel) [] file hf h =
      (file, refl, subst (IsSorted d) (sym h) tt, Perm.refl file)
  external_merge_lem (suc fuel) (run ∷ []) file hf (block, rest, e, len, off, sorted, none_left) = (
    file,
    refl,
    subst (IsSorted d) (sym (e ∙ ap (λ r. block ++ r) none_left ∙ append-nil block)) sorted,
    Perm.refl file,
  )
  external_merge_lem (suc fuel) (run ∷ next ∷ runs) file hf h =
      let (runs', file', e, at, same, fewer) =
        merge_pass-RunsAt 0 (run ∷ next ∷ runs) [] file refl h in
      let (file'', ends, sorted, same') =
        external_merge_lem fuel runs' file' (omega (arith, fewer)) at in
      let more : ltb 1 (length (run ∷ next ∷ runs)) ≡ true = lt→ltb _ _ (omega arith) in
      (file'', rw (more, e) ends, sorted, Perm.trans same' same)

-- A new run behind the others.
pub RunsAt-snoc :
    (d : Double) (at : ℕ) (runs : List RunBoundary) (offset : ℕ) (xs block : List (IndexRecord d))
    → RunsAt d at runs xs
    → offset ≡ header_size + (at + length xs) * record_size
    → IsSorted d block
    → RunsAt d at (runs ++ record { offset = offset; nrecords = length block } ∷ []) (xs ++ block)
RunsAt-snoc d at [] offset xs block h eo sorted = (
  block,
  [],
  ap (λ l. l ++ block) h ∙ sym (append-nil block),
  refl,
  eo ∙ ap (λ l. header_size + (at + length l) * record_size) h ∙ omega arith,
  sorted,
  refl,
)
RunsAt-snoc d at (run ∷ runs) offset xs block (first, rest, e, len, off, s, h) eo sorted = (
  first,
  rest ++ block,
  ap (λ l. l ++ block) e ∙ append_assoc first rest block,
  len,
  off,
  s,
  RunsAt-snoc d (at + run.nrecords) runs offset rest block h
      (eo
        ∙ ap (λ l. header_size + (at + l) * record_size) (ap length e ∙ length-append first rest)
        ∙ omega (arith, len))
      sorted,
)
