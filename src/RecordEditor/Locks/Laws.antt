-- ===== src/RecordEditor/Locks/Laws.antt =====
-- No editor overwrites a change that it has not seen.
use osisp.Prelude.{ℕ, ◌≡◌, ◌≢◌, refl, ◌⊎◌, inl, inr, sym, ◌∙◌, subst, ℕ_discrete, arith}
use osisp.Prelude.Family.{update}
use osisp.RecordEditor.Record.{FileRecord}
use osisp.RecordEditor.Locks.{
  Phase, locked, checked, written, System, Holds, Step, get, put_unchanged, put_changed, lock_rec,
  reread_same, reread_changed, unlock_retry, write_rec, unlock_done, opened, Reach, here, later,
}

record Inv (s : System) : Type 0 where
  alone : (i j r : ℕ) → Holds (s.editor i) r → Holds (s.editor j) r → i ≡ j
  fresh :
      (i rec : ℕ) (orig work : FileRecord) → s.editor i ≡ checked rec orig work → s.file rec ≡ orig

opened-Inv : (file : ℕ → FileRecord) → Inv (opened file)
opened-Inv file = record { alone = λ i j r h k. absurd h; fresh = λ i rec orig work e. cc e }

-- Who holds a lock after one editor has moved: that editor in its new phase, or one of the others.
held_after :
    (editor : ℕ → Phase) (i j r : ℕ) (p : Phase)
    → Holds (update editor i p j) r
    → ((i ≡ j) × Holds p r) ⊎ ((i ≢ j) × Holds (editor j) r)
held_after editor i j r p h = elim (ℕ_discrete i j) [
  | yes e ↦
      let moved : update editor i p j ≡ p = ground arith in inl (e, subst (λ q. Holds q r) moved h)
  | no ne ↦
      let stays : update editor i p j ≡ editor j = ground arith in
      inr (ne, subst (λ q. Holds q r) stays h)
]

-- A step that takes no new lock.
update-alone :
    (editor : ℕ → Phase) (i : ℕ) (p : Phase)
    → ((r : ℕ) → Holds p r → Holds (editor i) r)
    → ((i j r : ℕ) → Holds (editor i) r → Holds (editor j) r → i ≡ j)
    → (j k r : ℕ) → Holds (update editor i p j) r
    → Holds (update editor i p k) r
    → j ≡ k
update-alone editor i p keeps alone j k r hj hk =
    by_holder (held_after editor i j r p hj) (held_after editor i k r p hk)
  where
    by_holder :
        ((i ≡ j) × Holds p r) ⊎ ((i ≢ j) × Holds (editor j) r)
        → ((i ≡ k) × Holds p r) ⊎ ((i ≢ k) × Holds (editor k) r)
        → j ≡ k
    by_holder (inl (e, _)) (inl (e', _)) = sym e ∙ e'
    by_holder (inl (e, h)) (inr (_, h')) = sym e ∙ alone i k r (keeps r h) h'
    by_holder (inr (_, h)) (inl (e', h')) = alone j i r h (keeps r h') ∙ e'
    by_holder (inr (_, h)) (inr (_, h')) = alone j k r h h'

-- A step that takes a free lock.
lock-alone :
    (editor : ℕ → Phase) (i rec : ℕ) (orig work : FileRecord)
    → ((j : ℕ) → Holds (editor j) rec → ⊥)
    → ((i j r : ℕ) → Holds (editor i) r → Holds (editor j) r → i ≡ j)
    → (j k r : ℕ) → Holds (update editor i (locked rec orig work) j) r
    → Holds (update editor i (locked rec orig work) k) r
    → j ≡ k
lock-alone editor i rec orig work free alone j k r hj hk =
    by_holder (held_after editor i j r _ hj) (held_after editor i k r _ hk)
  where
    none_holds : (j : ℕ) → rec ≡ r → Holds (editor j) r → ⊥
    none_holds j e h = free j (subst (Holds (editor j)) (sym e) h)

    by_holder :
        ((i ≡ j) × (rec ≡ r)) ⊎ ((i ≢ j) × Holds (editor j) r)
        → ((i ≡ k) × (rec ≡ r)) ⊎ ((i ≢ k) × Holds (editor k) r)
        → j ≡ k
    by_holder (inl (e, _)) (inl (e', _)) = sym e ∙ e'
    by_holder (inl (_, h)) (inr (_, h')) = absurd (none_holds k h h')
    by_holder (inr (_, h)) (inl (_, h')) = absurd (none_holds j h' h)
    by_holder (inr (_, h)) (inr (_, h')) = alone j k r h h'

-- A step that does not write and does not end in `checked`.
update-fresh :
    (file : ℕ → FileRecord) (editor : ℕ → Phase) (i : ℕ) (p : Phase)
    → ((rec : ℕ) (orig work : FileRecord) → p ≢ checked rec orig work)
    → ((j rec : ℕ) (orig work : FileRecord) → editor j ≡ checked rec orig work → file rec ≡ orig)
    → (j rec : ℕ) (orig work : FileRecord) → update editor i p j ≡ checked rec orig work
    → file rec ≡ orig
update-fresh file editor i p unchecked fresh j rec orig work e = elim (ℕ_discrete i j) [
  | yes same ↦
      let moved : p ≡ checked rec orig work = ground (arith, e) in
      absurd (unchecked rec orig work moved)
  | no ne ↦
      let stays : editor j ≡ checked rec orig work = ground (arith, e) in
      fresh j rec orig work stays
]

-- The editor's phase tells what it holds.
Holds-of_eq : {p q : Phase} (r : ℕ) → p ≡ q → Holds q r → Holds p r
Holds-of_eq r e h = subst (λ p. Holds p r) (sym e) h

-- A write under the lock leaves the records of the other checked editors alone.
write-fresh :
    (file : ℕ → FileRecord) (editor : ℕ → Phase) (i rec : ℕ) (orig work : FileRecord)
    → editor i ≡ checked rec orig work
    → ((i j r : ℕ) → Holds (editor i) r → Holds (editor j) r → i ≡ j)
    → ((j rec : ℕ) (orig work : FileRecord) → editor j ≡ checked rec orig work → file rec ≡ orig)
    → (j rec' : ℕ) (orig' work' : FileRecord)
    → update editor i (written rec) j ≡ checked rec' orig' work'
    → update file rec work rec' ≡ orig'
write-fresh file editor i rec orig work e alone fresh j rec' orig' work' e' =
    elim (ℕ_discrete i j) [
      | yes same ↦
          let moved : written rec ≡ checked rec' orig' work' = ground (arith, e') in cc moved
      | no ne ↦
          let stays : editor j ≡ checked rec' orig' work' = ground (arith, e') in
          elim (ℕ_discrete rec rec') [
            | yes same ↦
                absurd
                  (ne (alone i j rec (Holds-of_eq rec e refl) (Holds-of_eq rec stays (sym same))))
            | no other ↦
                let kept : update file rec work rec' ≡ file rec' = ground arith in
                kept ∙ fresh j rec' orig' work' stays
          ]
    ]

Step-Inv : {s t : System} → Step s t → Inv s → Inv t
Step-Inv {s} (get i r work menu) v = record {
  alone = update-alone s.editor i _ (λ r h. absurd h) v.alone;
  fresh = update-fresh s.file s.editor i _ (λ rec orig work e. cc e) v.fresh;
}
Step-Inv {s} (put_unchanged i rec orig e) v = record {
  alone = update-alone s.editor i _ (λ r h. absurd h) v.alone;
  fresh = update-fresh s.file s.editor i _ (λ rec orig work e. cc e) v.fresh;
}
Step-Inv {s} (put_changed i rec orig work e changed) v = record {
  alone = update-alone s.editor i _ (λ r h. absurd h) v.alone;
  fresh = update-fresh s.file s.editor i _ (λ rec orig work e. cc e) v.fresh;
}
Step-Inv {s} (lock_rec i rec orig work e free) v = record {
  alone = lock-alone s.editor i rec orig work free v.alone;
  fresh = update-fresh s.file s.editor i _ (λ rec orig work e. cc e) v.fresh;
}
Step-Inv {s} (reread_same i rec orig work e current) v = record {
  alone = update-alone s.editor i _ (λ r h. Holds-of_eq r e h) v.alone;
  fresh = λ j rec' orig' work' e'. ground (arith, v.fresh j rec' orig' work');
}
Step-Inv {s} (reread_changed i rec orig work e changed) v = record {
  alone = update-alone s.editor i _ (λ r h. Holds-of_eq r e h) v.alone;
  fresh = update-fresh s.file s.editor i _ (λ rec orig work e. cc e) v.fresh;
}
Step-Inv {s} (unlock_retry i rec current e) v = record {
  alone = update-alone s.editor i _ (λ r h. absurd h) v.alone;
  fresh = update-fresh s.file s.editor i _ (λ rec orig work e. cc e) v.fresh;
}
Step-Inv {s} (write_rec i rec orig work e) v = record {
  alone = update-alone s.editor i _ (λ r h. Holds-of_eq r e h) v.alone;
  fresh = write-fresh s.file s.editor i rec orig work e v.alone v.fresh;
}
Step-Inv {s} (unlock_done i rec e) v = record {
  alone = update-alone s.editor i _ (λ r h. absurd h) v.alone;
  fresh = update-fresh s.file s.editor i _ (λ rec orig work e. cc e) v.fresh;
}

Reach-Inv : {file : ℕ → FileRecord} {s : System} → Reach (opened file) s → Inv s
Reach-Inv {file} here = opened-Inv file
Reach-Inv (later r st) = Step-Inv st (Reach-Inv r)

-- However the editors' steps interleave: an editor that is about to write finds the record as it
-- fetched it or last saw it, and no other editor holds a lock of the record. So a write never
-- replaces a change that its editor has not seen.
pub no_lost_update :
    {file : ℕ → FileRecord} {s : System}
    → Reach (opened file) s
    → (i rec : ℕ) (orig work : FileRecord) → s.editor i ≡ checked rec orig work
    → (s.file rec ≡ orig) × ((j : ℕ) → Holds (s.editor j) rec → i ≡ j)
no_lost_update r i rec orig work e =
    let v = Reach-Inv r in
    (v.fresh i rec orig work e, λ j h. v.alone i j rec (Holds-of_eq rec e refl) h)
