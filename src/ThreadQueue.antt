-- ===== src/ThreadQueue.antt =====
-- lab5: producer and consumer threads over a queue that grows and shrinks (lab5/5.1/src).
pub mod Queue
pub mod Message
pub mod Pool
pub mod Threads
mod Tests
