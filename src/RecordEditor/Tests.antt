-- ===== src/RecordEditor/Tests.antt =====
-- Tests of lab7/src.
use osisp.Prelude.{
  ℕ, zero, suc, ◌-◌, ◌≡◌, ◌≢◌, ap, subst, refl, ◌⊎◌, List, [], ◌∷◌, true, false, some, set,
  replicate, arith,
}
use osisp.Prelude.Int.{ℤ, pos}
use osisp.RecordEditor.Record.{FileRecord, Editor, name_len, addr_len}
use osisp.RecordEditor.Get.{skip_line, do_get}
use osisp.RecordEditor.Get.Fields.{IsText, IsSemester, do_get_lem}
use osisp.RecordEditor.Put.{updated, do_put}
use osisp.RecordEditor.Put.Conflict.{WritesNothing, do_put_discards, do_put_loses_edits}
use osisp.Prelude.Family.{update}
use osisp.RecordEditor.Locks.{
  idle, pending, saving, locked, checked, System, Holds, get, put_changed, lock_rec, reread_same,
  opened, Reach, here, later,
}
use osisp.RecordEditor.Locks.Laws.{no_lost_update}

abbrev student : ℕ → FileRecord
student semester = record { name = 65 ∷ 0 ∷ []; address = 66 ∷ 0 ∷ []; semester = semester }

abbrev students : List FileRecord
students = student 1 ∷ student 2 ∷ []

-- Record 1 with the semester changed from 2 to 3.
abbrev pending_edits : Editor
pending_edits = record {
  orig_rec = student 2;
  work_rec = student 3;
  last_rec_no = 1;
  has_work = true;
}

abbrev nobody : ℕ → List FileRecord → List FileRecord
nobody k file = file

-- Another editor saves semester 9 before the first lock.
abbrev somebody : ℕ → List FileRecord → List FileRecord
somebody zero file = set file 1 (student 9)
somebody (suc k) file = file

-- The edits of an editor alone are written.
do_put_alone :
    do_put 1 nobody students pending_edits
    ≡ some (updated, student 1 ∷ student 3 ∷ [], record pending_edits { has_work = false })
unfolding do_put
do_put_alone = refl

do_put_after_conflict :
    do_put 2 somebody students pending_edits
    ≡ some (
      updated,
      student 1 ∷ student 9 ∷ [],
      record pending_edits { orig_rec = student 9; work_rec = student 9; has_work = false },
    )
do_put_after_conflict =
    do_put_discards 0 somebody students pending_edits refl refl (omega arith) refl (omega arith)
      refl

do_put_loses_edits_example :
    WritesNothing somebody 0 students (do_put 7 somebody students pending_edits)
do_put_loses_edits_example =
    do_put_loses_edits 7 somebody students pending_edits refl refl (omega arith) refl

-- A digit.
abbrev digit : List ℕ → ℤ × List ℕ
digit [] = (pos 0, [])
digit (c ∷ cs) = (pos (c - 48), cs)

-- A line end, the name C, the old address and the semester 4.
abbrev answers : List ℕ
answers = 10 ∷ 67 ∷ 10 ∷ 10 ∷ 52 ∷ 10 ∷ []

do_get_lem_example :
    (e' : Editor) × (rest : List ℕ) × (do_get digit students (some (pos 1)) answers pending_edits
      ≡ some (e', rest))
    × (e'.orig_rec ≡ student 2)
    × (e'.last_rec_no ≡ 1)
    × (e'.has_work ≡ true)
    × ((e'.work_rec.name ≡ 65 ∷ 0 ∷ []) ⊎ IsText name_len e'.work_rec.name)
    × ((e'.work_rec.address ≡ 66 ∷ 0 ∷ []) ⊎ IsText addr_len e'.work_rec.address)
    × ((e'.work_rec.semester ≡ 2) ⊎ IsSemester e'.work_rec.semester)
unfolding skip_line
do_get_lem_example =
    do_get_lem digit students 1 (student 2) answers (67 ∷ 10 ∷ 10 ∷ 52 ∷ 10 ∷ []) pending_edits refl
      refl

get_record_one :
    do_get digit students (some (pos 1)) answers pending_edits
    ≡ some (
      record {
        orig_rec = student 2;
        work_rec = record { name = 67 ∷ replicate 79 0; address = 66 ∷ 0 ∷ []; semester = 4 };
        last_rec_no = 1;
        has_work = true;
      },
      [],
    )
unfolding do_get
get_record_one = refl

abbrev class_file : ℕ → FileRecord
class_file r = student r

differ : student 0 ≢ student 9
differ e = omega (arith, ap (λ r. r.semester) e)

-- Both editors have fetched record 0; editor 0 has the lock and has read the record again.
abbrev fetched_twice : System
fetched_twice = record {
  file = class_file;
  editor =
      update
        (update
          (update
            (update (update (λ i. idle) 0 (pending 0 (student 0) (student 9))) 1
              (pending 0 (student 0) (student 7)))
            0 (saving 0 (student 0) (student 9)))
          0 (locked 0 (student 0) (student 9)))
        0 (checked 0 (student 0) (student 9));
}

nobody-Holds :
    (j : ℕ)
    → Holds
        (update
          (update
            (update (λ i. idle) 0 (pending 0 (student 0) (student 9)))
            1
            (pending 0 (student 0) (student 7)))
          0
          (saving 0 (student 0) (student 9))
          j)
        0
    → ⊥
nobody-Holds zero h = h
nobody-Holds (suc zero) h = h
nobody-Holds (suc (suc j)) h =
    let elsewhere : update
          (update (update (λ i. idle) 0 (pending 0 (student 0) (student 9))) 1
            (pending 0 (student 0) (student 7)))
          0 (saving 0 (student 0) (student 9)) (suc (suc j))
        ≡ idle =
      ground arith in
    subst (λ p. Holds p 0) elsewhere h

fetched_twice_reached : Reach (opened class_file) fetched_twice
fetched_twice_reached =
    later
      (later
        (later (later (later here (get 0 0 (student 9) tt)) (get 1 0 (student 7) tt))
          (put_changed 0 0 (student 0) (student 9) refl differ))
        (lock_rec 0 0 (student 0) (student 9) refl nobody-Holds))
      (reread_same 0 0 (student 0) (student 9) refl refl)

no_lost_update_example :
    (student 0 ≡ student 0) × ((j : ℕ) → Holds (fetched_twice.editor j) 0 → 0 ≡ j)
no_lost_update_example = no_lost_update fetched_twice_reached 0 0 (student 0) (student 9) refl
