-- ===== src/IndexSort/Workers.antt =====
-- The threads of lab6/src/sort_index.c: `thread_sort` and `thread_merge` take block numbers from
-- `g_next_block` under a mutex and work on their regions of the array in any order.
-- `thread_sort` takes one block at a time and `thread_merge` two, here `suc extra`; a region is what
-- the thread that took the number works on. The barriers only hold threads back, so leaving them
-- out allows more orders of steps.
pub mod Laws
use osisp.Prelude.{ℕ, suc, ◌+◌, ◌<◌, ◌≤◌, ◌≡◌}
use osisp.Prelude.Family.{update}

-- Asking for the next block, working on a block, or out of the loop.
pub data Worker : Type 0 where
  asking : Worker
  working : ℕ → Worker
  left : Worker

pub record Shared (B : Type 0) : Type 0 where
  pub next_block : ℕ
  pub region : ℕ → B
  pub worker : ℕ → Worker

-- `job` is what a thread does to a region: `qsort`, or `merge_blocks` on its two halves.
module _ {B : Type 0} (job : B → B) (block_count extra threads : ℕ) where
  pub data Step (s : Shared B) : Shared B → Type 0 where
    take_block :
        (i : ℕ)
        → i < threads
        → s.worker i ≡ asking
        → s.next_block + extra < block_count
        → Step s (record s {
          next_block = s.next_block + suc extra;
          worker = update s.worker i (working s.next_block);
        })
    leave :
        (i : ℕ)
        → i < threads
        → s.worker i ≡ asking
        → block_count ≤ s.next_block + extra
        → Step s (record s { worker = update s.worker i left })
    work :
        (i b : ℕ)
        → i < threads
        → s.worker i ≡ working b
        → Step s (record s {
          region = update s.region b (job (s.region b));
          worker = update s.worker i asking;
        })

  -- `g_next_block = 0`, and each thread is created.
  abbrev pub start : (ℕ → B) → Shared B
  start region = record { next_block = 0; region = region; worker = λ i. asking }

  pub data Reach (s : Shared B) : Shared B → Type 0 where
    here : Reach s s
    later : {t u : Shared B} → Reach s t → Step t u → Reach s u
