-- ===== src/IndexSort.antt =====
-- The sorting of the index file in lab6/src: Record (index.h), Merge, Workers, Portion and Runs (sort_index.c).
pub mod Record
pub mod Merge
pub mod Workers
pub mod Portion
pub mod Runs
pub mod Program
mod Tests
pub mod Generate
