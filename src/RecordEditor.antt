-- ===== src/RecordEditor.antt =====
-- The record editor of lab7/src: editor.c and record.h.
pub mod Record
pub mod Get
pub mod Put
pub mod Loop
pub mod Locks
pub mod Generate
mod Tests
