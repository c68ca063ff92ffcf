-- ===== src/RecordEditor/Put.antt =====
-- `do_put` of lab7/src/editor.c. The file is the list of its records. While the editor waits for the
-- write lock other processes may write: `others k` is what they make of the file before the lock
-- of the `k`-th attempt is granted. The lock calls and the write succeed.
pub mod Conflict
use osisp.Prelude.{
  ℕ, zero, suc, ◌+◌, List, Bool, false, not, Option, none, some, set, read_at, if◌then◌else◌,
}
use osisp.RecordEditor.Record.{FileRecord, Editor, same}

-- What `do_put` reports.
pub data Report : Type 0 where
  no_pending_edits no_changes reread_error updated : Report

-- A `read` that fails, or gives a record.
abbrev on_read : {R : Type 0} → Option FileRecord → R → (FileRecord → R) → R
on_read none failed k = failed
on_read (some current) failed k = k current

-- The `retry` loop, on fuel.
unfoldable pub put_from :
    ℕ
    → (ℕ → List FileRecord → List FileRecord)
    → ℕ
    → List FileRecord
    → Editor
    → Option (Report × List FileRecord × Editor)
put_from zero others k file e = none
put_from (suc fuel) others k file e =
    on_read (read_at (others k file) e.last_rec_no) (some (reread_error, others k file, e))
      (λ current.
        if not (same current e.orig_rec)
        then put_from fuel others (k + 1) (others k file)
            (record e { orig_rec = current; work_rec = current })
        else some
            (updated, set (others k file) e.last_rec_no e.work_rec, record e { has_work = false }))

unfoldable pub do_put :
    ℕ
    → (ℕ → List FileRecord → List FileRecord)
    → List FileRecord
    → Editor
    → Option (Report × List FileRecord × Editor)
unfolding put_from
do_put fuel others file e =
    if not e.has_work
    then some (no_pending_edits, file, e)
    else if same e.orig_rec e.work_rec
    then some (no_changes, file, record e { has_work = false })
    else put_from fuel others 0 file e
