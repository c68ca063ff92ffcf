-- ===== src/RecordEditor/Put/Conflict.antt =====
-- What becomes of the edits in `do_put` of lab7/src/editor.c when another process has changed the record.
use osisp.Prelude.{
  ℕ, zero, suc, ◌+◌, ◌<◌, ◌≡◌, refl, ap, sym, ◌∙◌, List, [], ◌∷◌, Bool, true, false, not, Option,
  none, some, length, set, get_or, read_at, read_at-get_or, if◌then◌else◌, arith, ◌⊎◌, inl, inr,
  Bool-cases,
}
use osisp.Prelude.Bytes.{eq_of_same_bytes}
use osisp.RecordEditor.Record.{FileRecord, Editor, same, same_refl}
use osisp.RecordEditor.Put.{Report, reread_error, updated, put_from, do_put}

set-get_or :
    (file : List FileRecord) (i : ℕ) (d : FileRecord)
    → i < length file
    → set file i (get_or file i d) ≡ file
set-get_or [] i d h = refl
set-get_or (r ∷ file) zero d h = refl
set-get_or (r ∷ file) (suc i) d h = ap (◌∷◌ r) (set-get_or file i d (omega arith))

-- The record as it is now.
abbrev stored : List FileRecord → Editor → FileRecord
stored file e = get_or file e.last_rec_no e.orig_rec

-- One attempt.
put_from-same :
    (fuel : ℕ) (others : ℕ → List FileRecord → List FileRecord) (k : ℕ) (file : List FileRecord)
    (e : Editor)
    → e.last_rec_no < length (others k file)
    → same (stored (others k file) e) e.orig_rec ≡ true
    → put_from (suc fuel) others k file e
      ≡ some (updated, set (others k file) e.last_rec_no e.work_rec, record e { has_work = false })
unfolding put_from
put_from-same fuel others k file e h s =
    rw (read_at-get_or (others k file) e.last_rec_no e.orig_rec h, s) refl

put_from-conflict :
    (fuel : ℕ) (others : ℕ → List FileRecord → List FileRecord) (k : ℕ) (file : List FileRecord)
    (e : Editor)
    → e.last_rec_no < length (others k file)
    → same (stored (others k file) e) e.orig_rec ≡ false
    → put_from (suc fuel) others k file e
      ≡ put_from fuel others
          (k + 1)
          (others k file)
          (record e { orig_rec = stored (others k file) e; work_rec = stored (others k file) e })
unfolding put_from
put_from-conflict fuel others k file e h s =
    rw (read_at-get_or (others k file) e.last_rec_no e.orig_rec h, s) refl

choose_last :
    {R : Type 0} (b c : Bool) (first second last : R)
    → b ≡ true
    → c ≡ false
    → (if not b then first else if c then second else last) ≡ last
choose_last true false first second last hb hc = refl
choose_last true true first second last hb hc = cc hc
choose_last false c first second last hb hc = cc hb

do_put-put_from :
    (fuel : ℕ) (others : ℕ → List FileRecord → List FileRecord) (file : List FileRecord)
    (e : Editor)
    → e.has_work ≡ true
    → same e.orig_rec e.work_rec ≡ false
    → do_put fuel others file e ≡ put_from fuel others 0 file e
unfolding do_put
do_put-put_from fuel others file e w n =
    choose_last e.has_work (same e.orig_rec e.work_rec) _ _ (put_from fuel others 0 file e) w n

default_irrelevant :
    (file : List FileRecord) (i : ℕ) (d d' : FileRecord)
    → i < length file
    → get_or file i d ≡ get_or file i d'
default_irrelevant [] i d d' h = absurd (omega arith)
default_irrelevant (r ∷ file) zero d d' h = refl
default_irrelevant (r ∷ file) (suc i) d d' h = default_irrelevant file i d d' (omega arith)

-- With pending edits of a record that other processes have changed when the first lock is granted:
-- if the record is still the changed one at the second lock, `do_put` reports the update and leaves
-- the file exactly as the other processes made it. The edits are lost.
pub do_put_discards :
    (fuel : ℕ) (others : ℕ → List FileRecord → List FileRecord) (file : List FileRecord)
    (e : Editor)
    → e.has_work ≡ true
    → same e.orig_rec e.work_rec ≡ false
    → e.last_rec_no < length (others 0 file)
    → same (stored (others 0 file) e) e.orig_rec ≡ false
    → e.last_rec_no < length (others 1 (others 0 file))
    → stored (others 1 (others 0 file)) e ≡ stored (others 0 file) e
    → do_put (suc (suc fuel)) others file e
      ≡ some (
        updated,
        others 1 (others 0 file),
        record e {
          orig_rec = stored (others 0 file) e;
          work_rec = stored (others 0 file) e;
          has_work = false;
        },
      )
do_put_discards fuel others file e w n h s h' kept =
    let seen : FileRecord = stored (others 0 file) e in
    let now : List FileRecord = others 1 (others 0 file) in
    let unchanged : get_or now e.last_rec_no seen ≡ seen =
      default_irrelevant now e.last_rec_no seen e.orig_rec h' ∙ kept in
    do_put-put_from (suc (suc fuel)) others file e w n
    ∙ put_from-conflict (suc fuel) others 0 file e h s
    ∙ put_from-same fuel others 1 (others 0 file) (record e { orig_rec = seen; work_rec = seen }) h'
        (ap (λ r. same r seen) unchanged ∙ same_refl seen)
    ∙ ap (λ f. some (updated, f, record e { orig_rec = seen; work_rec = seen; has_work = false }))
        (ap (set now e.last_rec_no) (sym kept) ∙ set-get_or now e.last_rec_no e.orig_rec h')

-- The file when the other processes have written before `n` attempts from the `k`-th on.
abbrev pub written_by :
    (ℕ → List FileRecord → List FileRecord) → ℕ → ℕ → List FileRecord → List FileRecord
written_by others zero k file = file
written_by others (suc n) k file = written_by others n (k + 1) (others k file)

-- No result within the fuel, or the file is what the other processes have made of it.
abbrev pub WritesNothing :
    (ℕ → List FileRecord → List FileRecord)
    → ℕ
    → List FileRecord
    → Option (Report × List FileRecord × Editor)
    → Type 0
WritesNothing others k file result =
    (result ≡ none)
    ⊎ ((report : Report) × (e' : Editor) × (n : ℕ) × (result
          ≡ some (report, written_by others n k file, e')))

eq_of_same : (r s : FileRecord) → same r s ≡ true → r ≡ s
eq_of_same r s h =
    let n : r.name ≡ s.name = eq_of_same_bytes r.name s.name (ground arith) in
    let a : r.address ≡ s.address = eq_of_same_bytes r.address s.address (ground arith) in
    let m : r.semester ≡ s.semester = ground arith in
    λ i. record { name = n i; address = a i; semester = m i }

set-read_at :
    (file : List FileRecord) (i : ℕ) (r : FileRecord)
    → read_at file i ≡ some r
    → set file i r ≡ file
set-read_at [] i r h = refl
set-read_at (x ∷ file) zero r h = cc h
set-read_at (x ∷ file) (suc i) r h = ap (◌∷◌ x) (set-read_at file i r h)

read-cases : (o : Option FileRecord) → (o ≡ none) ⊎ ((r : FileRecord) × (o ≡ some r))
read-cases none = inl refl
read-cases (some r) = inr (r, refl)

-- One attempt before the others.
one_more :
    (others : ℕ → List FileRecord → List FileRecord) (k : ℕ) (file : List FileRecord)
    (result : Option (Report × List FileRecord × Editor))
    → WritesNothing others (k + 1) (others k file) result
    → WritesNothing others k file result
one_more others k file result (inl e) = inl e
one_more others k file result (inr (report, e', n, e)) = inr (report, e', suc n, e)

-- An editor whose copies agree writes nothing new.
put_from-agree :
    (fuel : ℕ) (others : ℕ → List FileRecord → List FileRecord) (k : ℕ) (file : List FileRecord)
    (e : Editor)
    → e.orig_rec ≡ e.work_rec
    → WritesNothing others k file (put_from fuel others k file e)
unfolding put_from
put_from-agree zero others k file e agree = inl refl
put_from-agree (suc fuel) others k file e agree =
    elim (read-cases (read_at (others k file) e.last_rec_no)) [
      | inl failed ↦ rw failed (inr (reread_error, e, 1, refl))
      | inr (current, found) ↦ elim (Bool-cases (same current e.orig_rec)) [
        | inl unchanged ↦
            let held : read_at (others k file) e.last_rec_no ≡ some e.work_rec =
              found ∙ ap (λ r. some r) (eq_of_same current e.orig_rec unchanged ∙ agree) in
            rw (found, unchanged)
              (inr (
                updated,
                record e { has_work = false },
                1,
                ap (λ f. some (updated, f, record e { has_work = false }))
                    (set-read_at (others k file) e.last_rec_no e.work_rec held),
              ))
        | inr changed ↦
            rw (found, changed)
              (one_more others k file
                (put_from fuel others (k + 1) (others k file)
                  (record e { orig_rec = current; work_rec = current }))
                (put_from-agree fuel others (k + 1) (others k file)
                  (record e { orig_rec = current; work_rec = current }) refl))
      ]
    ]

-- With pending edits of a record that other processes have changed when the first lock is granted, in
-- every number of attempts and whatever the other processes do at each: `do_put` has no result
-- yet, or the file that it leaves is exactly what the other processes have made of it. The edits
-- never reach the file, whatever is reported.
pub do_put_loses_edits :
    (fuel : ℕ) (others : ℕ → List FileRecord → List FileRecord) (file : List FileRecord)
    (e : Editor)
    → e.has_work ≡ true
    → same e.orig_rec e.work_rec ≡ false
    → e.last_rec_no < length (others 0 file)
    → same (stored (others 0 file) e) e.orig_rec ≡ false
    → WritesNothing others 0 file (do_put fuel others file e)
unfolding put_from
do_put_loses_edits zero others file e w n h s = inl (do_put-put_from zero others file e w n)
do_put_loses_edits (suc fuel) others file e w n h s =
    let seen : FileRecord = stored (others 0 file) e in
    let first : do_put (suc fuel) others file e
        ≡ put_from fuel others 1 (others 0 file) (record e { orig_rec = seen; work_rec = seen }) =
      do_put-put_from (suc fuel) others file e w n ∙ put_from-conflict fuel others 0 file e h s in
    rw first (
      one_more others 0 file
        (put_from fuel others 1 (others 0 file) (record e { orig_rec = seen; work_rec = seen }))
        (put_from-agree fuel others 1 (others 0 file)
          (record e { orig_rec = seen; work_rec = seen }) refl))
