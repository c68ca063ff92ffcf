-- ===== src/RecordEditor/Locks.antt =====
-- Several editors of lab7/src/editor.c on one file, as a step relation: `do_get` without its dialogue,
-- and the calls of `do_put` that touch the file or its locks. Whole records are read and written at once.
pub mod Laws
use osisp.Prelude.{ℕ, ◌≡◌, ◌≢◌}
use osisp.Prelude.Family.{update}
use osisp.RecordEditor.Record.{FileRecord}

-- Where an editor stands: `rec` is `last_rec_no`, `orig` and `work` the two copies.
pub data Phase : Type 0 where
  -- no pending edits
  idle : Phase
  -- a fetched record and its edited copy, at the menu
  pending : (rec : ℕ) (orig work : FileRecord) → Phase
  -- in `do_put`, about to call `lock_rec`, which waits
  saving : (rec : ℕ) (orig work : FileRecord) → Phase
  -- with the lock, about to read the record again
  locked : (rec : ℕ) (orig work : FileRecord) → Phase
  -- the record is as it was fetched: about to write
  checked : (rec : ℕ) (orig work : FileRecord) → Phase
  -- after the conflict, about to unlock and retry
  conflict : (rec : ℕ) (current : FileRecord) → Phase
  -- after the write, about to unlock
  written : (rec : ℕ) → Phase

pub record System : Type 0 where
  pub file : ℕ → FileRecord
  pub editor : ℕ → Phase

-- The editor holds the write lock of the record.
abbrev pub Holds : Phase → ℕ → Type 0
Holds (locked rec orig work) r = rec ≡ r
Holds (checked rec orig work) r = rec ≡ r
Holds (conflict rec current) r = rec ≡ r
Holds (written rec) r = rec ≡ r
Holds _ r = ⊥

-- `F_WRLCK` is granted to an editor when no other holds a lock on the bytes.
abbrev pub IsFree : System → ℕ → Type 0
IsFree s r = (j : ℕ) → Holds (s.editor j) r → ⊥

-- Between two commands.
abbrev pub AtMenu : Phase → Type 0
AtMenu idle = Unit
AtMenu (pending rec orig work) = Unit
AtMenu _ = ⊥

pub data Step (s : System) : System → Type 0 where
  -- `do_get`, which replaces pending edits.
  get :
      (i r : ℕ) (work : FileRecord)
      → AtMenu (s.editor i)
      → Step s (record s { editor = update s.editor i (pending r (s.file r) work) })
  put_unchanged :
      (i rec : ℕ) (orig : FileRecord)
      → s.editor i ≡ pending rec orig orig
      → Step s (record s { editor = update s.editor i idle })
  put_changed :
      (i rec : ℕ) (orig work : FileRecord)
      → s.editor i ≡ pending rec orig work
      → orig ≢ work
      → Step s (record s { editor = update s.editor i (saving rec orig work) })
  lock_rec :
      (i rec : ℕ) (orig work : FileRecord)
      → s.editor i ≡ saving rec orig work
      → IsFree s rec
      → Step s (record s { editor = update s.editor i (locked rec orig work) })
  reread_same :
      (i rec : ℕ) (orig work : FileRecord)
      → s.editor i ≡ locked rec orig work
      → s.file rec ≡ orig
      → Step s (record s { editor = update s.editor i (checked rec orig work) })
  reread_changed :
      (i rec : ℕ) (orig work : FileRecord)
      → s.editor i ≡ locked rec orig work
      → s.file rec ≢ orig
      → Step s (record s { editor = update s.editor i (conflict rec (s.file rec)) })
  -- `unlock_rec`, `retry = 1`
  unlock_retry :
      (i rec : ℕ) (current : FileRecord)
      → s.editor i ≡ conflict rec current
      → Step s (record s { editor = update s.editor i (saving rec current current) })
  write_rec :
      (i rec : ℕ) (orig work : FileRecord)
      → s.editor i ≡ checked rec orig work
      → Step s
          (record s { file = update s.file rec work; editor = update s.editor i (written rec) })
  unlock_done :
      (i rec : ℕ) → s.editor i ≡ written rec → Step s (record s { editor = update s.editor i idle })

abbrev pub opened : (ℕ → FileRecord) → System
opened file = record { file = file; editor = λ i. idle }

pub data Reach (s : System) : System → Type 0 where
  here : Reach s s
  later : {t u : System} → Reach s t → Step t u → Reach s u
