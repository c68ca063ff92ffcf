-- ===== src/ShmQueue.antt =====
-- lab4: producer and consumer processes over a queue in shared memory (lab4/src).
pub mod Message
pub mod Ring
pub mod System
pub mod Processes
mod Tests
