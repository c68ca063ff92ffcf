-- ===== src/IndexSort/Program/Laws.antt =====
-- The loop over the portions of the file makes it sorted runs.
use mathlib.Core.List.{Perm}
use mathlib.Core.List.Perm
use osisp.Prelude.{
  take-append, drop-append, ℕ, zero, suc, ◌+◌, ◌-◌, ◌*◌, ◌/◌, ◌%◌, ◌^◌, ◌≤◌, ◌<◌, ◌≡◌, refl, ap,
  sym, ◌∙◌, subst, List, [], ◌∷◌, ◌++◌, append-nil, append_assoc, true, false, ltb, lt→ltb, some,
  take, drop, length, length-append, length-take, length-drop, take-append-drop, arith,
}
use Prim.Native.Nat.{min}
use osisp.IndexSort.Record.{Double, IndexRecord}
use osisp.IndexSort.Merge.Laws.{IsSorted}
use osisp.IndexSort.Portion.{Qsort, Calls, process_portion, header_size, record_size}
use osisp.IndexSort.Portion.Blocks.{perm-length}
use osisp.IndexSort.Portion.Laws.{AllSucceed, process_portion_lem}
use osisp.IndexSort.Runs.{RunBoundary}
use osisp.IndexSort.Runs.Laws.{RunsAt, RunsAt-snoc, record_at-exact}
use osisp.IndexSort.Program.{portion_size, with_portion, sort_portions}

lt_two_pow : (k : ℕ) → k < 2 ^ k
lt_two_pow zero = omega arith
lt_two_pow (suc k) = omega (arith, lt_two_pow k)

with_portion-parts :
    {A : Type 0} (pre chunk rest records : List A) (at : ℕ)
    → length pre ≡ at
    → with_portion (pre ++ (chunk ++ rest)) at (length chunk) records ≡ (pre ++ records) ++ rest
with_portion-parts pre chunk rest records at ep =
    let before : take at (pre ++ (chunk ++ rest)) ≡ pre = take-append at pre (chunk ++ rest) ep in
    let after : drop (at + length chunk) (pre ++ (chunk ++ rest)) ≡ rest =
      ap (drop (at + length chunk)) (sym (append_assoc pre chunk rest))
      ∙ drop-append (at + length chunk) (pre ++ chunk) rest
          (omega (arith, length-append pre chunk)) in
    rw (before, after) (sym (append_assoc pre records rest))

-- One more full portion.
next_bound : (l m full at n : ℕ) → m ≡ l + 1 → l * full ≤ at → n ≡ full → m * full ≤ at + n
next_bound l m full at n em h en =
    let e : m * full ≡ l * full + full = ap (λ m. m * full) em ∙ omega arith in omega (arith, e)

module _ (d : Double) (q : Qsort d) (calls : Calls) (ok : AllSucceed calls)
    (threads memsize st_size max_runs : ℕ) (ht : 0 < threads) where
  -- One portion: its records are sorted in place and a run is added.
  sort_portions-step :
      (fuel k size at : ℕ) (runs : List RunBoundary) (pre chunk rest : List (IndexRecord d))
      → length pre ≡ at
      → length chunk ≡ 2 ^ k * size
      → portion_size memsize st_size (header_size + at * record_size) ≡ length chunk * record_size
      → header_size + at * record_size < st_size
      → length runs < max_runs
      → (records : List (IndexRecord d)) × (sort_portions d q calls threads memsize st_size max_runs
            (suc fuel)
            (2 ^ k)
            (header_size + at * record_size)
            runs
            (pre ++ (chunk ++ rest))
          ≡ sort_portions d q calls threads memsize st_size max_runs fuel 1
              (header_size + (at + length chunk) * record_size)
              (runs
                ++ record { offset = header_size + at * record_size; nrecords = length chunk } ∷ [])
              ((pre ++ records) ++ rest))
        × IsSorted d records
        × Perm records chunk
  unfolding sort_portions
  sort_portions-step fuel k size at runs pre chunk rest ep ec eb inside room =
      let (p, e, sorted, same, count, one) =
        process_portion_lem d q calls (2 ^ k) k threads size (7 + at * record_size) chunk ok ht
          (lt_two_pow k) ec in
      let inside' : ltb (header_size + at * record_size) st_size ≡ true = lt→ltb _ _ inside in
      let room' : ltb (length runs) max_runs ≡ true = lt→ltb _ _ room in
      let whole_records : length chunk * record_size % record_size ≡ 0 = omega arith in
      let count' : length chunk * record_size / record_size ≡ length chunk = omega arith in
      let portion : take (length chunk) (drop at (pre ++ (chunk ++ rest))) ≡ chunk =
        ap (take (length chunk)) (drop-append at pre (chunk ++ rest) ep)
        ∙ take-append (length chunk) chunk rest refl in
      let next_offset : header_size + at * record_size + length chunk * record_size
          ≡ header_size + (at + length chunk) * record_size =
        omega arith in
      let e' : process_portion d q calls (2 ^ k) (2 ^ k) threads chunk
            (header_size + at * record_size) (length chunk * record_size)
          ≡ some p =
        subst
          (λ o.
            process_portion d q calls (2 ^ k) (2 ^ k) threads chunk o (length chunk * record_size)
            ≡ some p)
          {x = suc (7 + at * record_size)} (omega arith) e in
      (
        p.records,
        rw
            (
              inside',
              eb,
              whole_records,
              count',
              record_at-exact at,
              portion,
              e',
              count,
              one,
              room',
              next_offset,
              with_portion-parts pre chunk rest p.records at ep,
            )
            (ground arith),
        sorted,
        same,
      )

  -- From a prefix that is sorted runs the loop goes on to the end of the file: the portions are of
  -- `full` records, but for the last, and `runs` has room for all of them.
  pub sort_portions-covers :
      (full total : ℕ)
      → 0 < full
      → memsize ≡ full * record_size
      → st_size ≡ header_size + total * record_size
      → ((n : ℕ) → n * full < total → n < max_runs)
      → (fuel k size at : ℕ) (runs : List RunBoundary) (pre todo : List (IndexRecord d))
      → length pre ≡ at
      → at + length todo ≡ total
      → length todo < fuel
      → min full (length todo) ≡ 2 ^ k * size
      → (0 < length todo → length runs * full ≤ at)
      → RunsAt d 0 runs pre
      → (runs' : List RunBoundary) × (file' : List (IndexRecord d)) × (sort_portions d q calls
            threads memsize st_size max_runs fuel
            (2 ^ k)
            (header_size + at * record_size)
            runs
            (pre ++ todo)
          ≡ some (runs', file'))
        × RunsAt d 0 runs' file'
        × Perm file' (pre ++ todo)
  unfolding sort_portions
  sort_portions-covers full total hf hm hs room zero k size at runs pre todo ep et hl hd hr h =
      absurd (omega arith)
  sort_portions-covers full total hf hm hs room (suc fuel) k size at runs pre [] ep et hl hd hr h =
      let at_end : ltb (header_size + at * record_size) st_size ≡ false = ground arith in
      (runs, pre, rw (at_end, append-nil pre) refl, h, rw (append-nil pre) (Perm.refl pre))
  sort_portions-covers full total hf hm hs room (suc fuel) k size at runs pre (x ∷ xs) ep et hl hd
        hr h =
      let chunk : List (IndexRecord d) = take full (x ∷ xs) in
      let rest : List (IndexRecord d) = drop full (x ∷ xs) in
      let parts : chunk ++ rest ≡ x ∷ xs = take-append-drop full (x ∷ xs) in
      let in_chunk : length chunk ≡ min full (suc (length xs)) = length-take full (x ∷ xs) in
      let in_rest : length rest ≡ suc (length xs) - full = length-drop full (x ∷ xs) in
      let bytes : portion_size memsize st_size (header_size + at * record_size)
          ≡ length chunk * record_size =
        ground (arith, in_chunk, hm, hs) in
      let (records, e, sorted, same) =
        sort_portions-step fuel k size at runs pre chunk rest ep (in_chunk ∙ hd) bytes
          (omega (arith, hs)) (room (length runs) (omega (arith, hr (omega arith)))) in
      let count : length records ≡ length chunk = perm-length same in
      let run : RunBoundary = record {
        offset = header_size + at * record_size;
        nrecords = length chunk;
      } in
      let more_runs : length (runs ++ run ∷ []) ≡ length runs + 1 = length-append runs (run ∷ []) in
      let (runs', file', e', at', same') =
        sort_portions-covers full total hf hm hs room fuel 0 (min full (length rest))
          (at + length chunk) (runs ++ run ∷ []) (pre ++ records) rest
          (omega (arith, length-append pre records, count)) (omega (arith, in_chunk, in_rest))
          (omega (arith, in_rest)) (omega arith)
          (λ left.
            next_bound (length runs) _ full at (length chunk) more_runs (hr (omega arith))
              (omega (arith, in_chunk, in_rest)))
          (subst
            (λ n.
              RunsAt d 0
                (runs ++ record { offset = header_size + at * record_size; nrecords = n } ∷ [])
                (pre ++ records))
            count
            (RunsAt-snoc d 0 runs (header_size + at * record_size) pre records h (omega (arith, ep))
              sorted)) in
      (
        runs',
        file',
        ap
              (λ l.
                sort_portions d q calls threads memsize st_size max_runs (suc fuel) (2 ^ k)
                  (header_size + at * record_size) runs (pre ++ l))
              (sym parts)
            ∙ e
            ∙ e',
        at',
        Perm.trans same' (
            subst (Perm ((pre ++ records) ++ rest)) (ap (λ l. pre ++ l) parts) (
              rw (append_assoc pre records rest)
                (Perm.append_left pre (Perm.append_right rest same)))),
      )
