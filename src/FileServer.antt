-- ===== src/FileServer.antt =====
-- The file server of lab8/src/server.c: paths and the commands of a client.
pub mod Path
pub mod Sending
pub mod Listing
pub mod Client
mod Tests
