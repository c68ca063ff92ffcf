-- ===== src/IndexSort/Workers/Laws.antt =====
-- When all threads have left, every region has been worked on exactly once, whatever the order.
use osisp.Prelude.{
  ℕ, suc, ◌+◌, ◌*◌, ◌<◌, ◌≤◌, ◌≡◌, ◌≢◌, refl, ap, sym, ◌∙◌, arith, ◌⊎◌, inl, inr, dec_lt,
  ℕ_discrete,
}
use osisp.Prelude.Family.{update}
use osisp.IndexSort.Workers.{
  Worker, asking, working, left, Shared, Step, take_block, leave, work, start, Reach, here, later,
}

-- Between two neighbouring multiples there is no third.
same_multiple : (c c' e : ℕ) → c' * suc e ≤ c * suc e → c * suc e < c' * suc e + suc e → c ≡ c'
same_multiple c c' e low high = elim (dec_lt c c') [
  | yes p ↦ absurd (grind arith)
  | no p ↦ elim (dec_lt c' c) [ yes r ↦ absurd (grind arith) | no r ↦ omega arith ]
]

-- The block belongs to one of the first threads.
abbrev IsHeld : ℕ → (ℕ → Worker) → ℕ → Type 0
IsHeld threads worker b = (i : ℕ) × (i < threads) × (worker i ≡ working b)

-- A change at a thread that does not have the block leaves it with its thread.
update-IsHeld :
    (threads : ℕ) (worker : ℕ → Worker) (b i : ℕ) (w : Worker)
    → worker i ≢ working b
    → IsHeld threads worker b
    → IsHeld threads (update worker i w) b
update-IsHeld threads worker b i w other (j, lt, e) = (j, lt, ground arith)

module _ {B : Type 0} (job : B → B) (block_count extra threads : ℕ) where
  record Inv (before : ℕ → B) (s : Shared B) : Type 0 where
    aligned : (c : ℕ) × (s.next_block ≡ c * suc extra)
    taken :
        (c : ℕ)
        → c * suc extra < s.next_block
        → (s.region (c * suc extra) ≡ job (before (c * suc extra)))
          ⊎ IsHeld threads s.worker (c * suc extra)
    held : (i b : ℕ) → s.worker i ≡ working b → (b < s.next_block) × (s.region b ≡ before b)
    unique : (i j b : ℕ) → s.worker i ≡ working b → s.worker j ≡ working b → i ≡ j
    untaken : (b : ℕ) → s.next_block ≤ b → s.region b ≡ before b
    finished : (i : ℕ) → s.worker i ≡ left → block_count ≤ s.next_block + extra

  start-Inv : (before : ℕ → B) → Inv before (start job block_count extra threads before)
  start-Inv before = record {
    aligned = (0, omega arith);
    taken = λ c h. absurd (omega arith);
    held = λ i b e. cc;
    unique = λ i j b e f. cc;
    untaken = λ b h. refl;
    finished = λ i e. cc;
  }

  Step-Inv :
      {before : ℕ → B} {s t : Shared B}
      → Step job block_count extra threads s t
      → Inv before s
      → Inv before t
  Step-Inv {before} {s} (take_block i lt ask more) v = record {
    aligned = (v.aligned.0 + 1, omega (arith, v.aligned.1));
    taken = λ c h. taken_after c h (dec_lt (c * suc extra) s.next_block);
    held = λ j b e. ground (arith, v.held j b, v.untaken b);
    unique = λ j k b e f. ground (arith, v.unique j k b, v.held j b, v.held k b);
    untaken = λ b h. v.untaken b (omega arith);
    finished = λ j e. ground (arith, v.finished j);
  }
    where
      Done : (ℕ → Worker) → ℕ → Type 0
      Done w b = (s.region b ≡ job (before b)) ⊎ IsHeld threads w b

      kept : (b : ℕ) → Done s.worker b → Done (update s.worker i (working s.next_block)) b
      kept b (inl e) = inl e
      kept b (inr h) = inr (update-IsHeld threads s.worker b i _ (λ e. cc (ask, e)) h)

      taken_after :
          (c : ℕ)
          → c * suc extra < s.next_block + suc extra
          → Dec (c * suc extra < s.next_block)
          → Done (update s.worker i (working s.next_block)) (c * suc extra)
      taken_after c h (yes p) = kept (c * suc extra) (v.taken c p)
      taken_after c h (no p) =
          let (c', e) = v.aligned in
          let same : c ≡ c' = same_multiple c c' extra (omega arith) (omega arith) in
          let block : c * suc extra ≡ s.next_block = ap (λ k. k * suc extra) same ∙ sym e in
          inr (i, lt, ground arith)
  Step-Inv {before} {s} (leave i lt ask none_left) v = record {
    aligned = v.aligned;
    taken = λ c h. left_after c (v.taken c h);
    held = λ j b e. ground (arith, v.held j b);
    unique = λ j k b e f. ground (arith, v.unique j k b);
    untaken = v.untaken;
    finished = λ j e. ground (arith, v.finished j);
  }
    where
      left_after :
          (c : ℕ)
          → (s.region (c * suc extra) ≡ job (before (c * suc extra)))
            ⊎ IsHeld threads s.worker (c * suc extra)
          → (s.region (c * suc extra) ≡ job (before (c * suc extra)))
            ⊎ IsHeld threads (update s.worker i left) (c * suc extra)
      left_after c (inl e) = inl e
      left_after c (inr h) =
          inr (update-IsHeld threads s.worker (c * suc extra) i left (λ e. cc (ask, e)) h)
  Step-Inv {before} {s} (work i b lt busy) v = record {
    aligned = v.aligned;
    taken = λ c h. work_after c (v.taken c h);
    held = λ j b' e. ground (arith, v.held j b', v.unique i j b);
    unique = λ j k b' e f. ground (arith, v.unique j k b');
    untaken = λ b' h. ground (arith, v.untaken b', v.held i b);
    finished = λ j e. ground (arith, v.finished j);
  }
    where
      Done : (ℕ → B) → (ℕ → Worker) → ℕ → Type 0
      Done r w b' = (r b' ≡ job (before b')) ⊎ IsHeld threads w b'

      by_block :
          (b' : ℕ)
          → Dec (b ≡ b')
          → Done s.region s.worker b'
          → Done (update s.region b (job (s.region b))) (update s.worker i asking) b'
      by_block b' (yes e) d = inl (ground (arith, v.held i b))
      by_block b' (no ne) (inl e) = inl (ground arith)
      by_block b' (no ne) (inr h) =
          inr (update-IsHeld threads s.worker b' i asking (λ e. ground arith) h)

      work_after :
          (c : ℕ)
          → Done s.region s.worker (c * suc extra)
          → Done (update s.region b (job (s.region b))) (update s.worker i asking) (c * suc extra)
      work_after c d = by_block (c * suc extra) (ℕ_discrete b (c * suc extra)) d

  Reach-Inv :
      {before : ℕ → B} {s : Shared B}
      → Reach job block_count extra threads (start job block_count extra threads before) s
      → Inv before s
  Reach-Inv {before} here = start-Inv before
  Reach-Inv (later r st) = Step-Inv st (Reach-Inv r)

  -- With one thread or more, in every order of steps: when all threads have left, each block (each
  -- pair of blocks, for the merge) within the block count has been worked on exactly once, from the
  -- records that it had at the start. The result does not depend on the schedule.
  pub all_blocks_done :
      {before : ℕ → B} {s : Shared B}
      → 0 < threads
      → Reach job block_count extra threads (start job block_count extra threads before) s
      → ((i : ℕ) → i < threads → s.worker i ≡ left)
      → (c : ℕ) → c * suc extra + extra < block_count
      → s.region (c * suc extra) ≡ job (before (c * suc extra))
  all_blocks_done {before} {s} some_thread r gone c inside = by_thread (v.taken c below)
    where
      v : Inv before s
      v = Reach-Inv r

      below : c * suc extra < s.next_block
      below = omega (arith, v.finished 0 (gone 0 some_thread))

      by_thread :
          (s.region (c * suc extra) ≡ job (before (c * suc extra)))
            ⊎ IsHeld threads s.worker (c * suc extra)
          → s.region (c * suc extra) ≡ job (before (c * suc extra))
      by_thread (inl e) = e
      by_thread (inr (i, lt, e)) = cc (gone i lt, e)

-- Without a thread there is no step.
zero_threads_stuck :
    {B : Type 0} {job : B → B} {block_count extra : ℕ} {s t : Shared B}
    → Step job block_count extra 0 s t
    → ⊥
zero_threads_stuck (take_block i lt e h) = omega arith
zero_threads_stuck (leave i lt e h) = omega arith
zero_threads_stuck (work i b lt e) = omega arith

-- With a thread count of 0, which `main` accepts, no block is ever worked on.
pub no_threads_no_work :
    {B : Type 0} (job : B → B) (block_count extra : ℕ) {before : ℕ → B} {s : Shared B}
    → Reach job block_count extra 0 (start job block_count extra 0 before) s
    → (b : ℕ) → s.region b ≡ before b
no_threads_no_work job block_count extra here b = refl
no_threads_no_work job block_count extra (later r st) b = absurd (zero_threads_stuck st)
