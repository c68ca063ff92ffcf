-- ===== src/AccessManager.antt =====
-- The program runner of Access_manager: main.c and access_manager.c.
pub mod Arguments
pub mod Copies
pub mod Main
mod Tests
