-- ===== src/Handler.antt =====
-- handler/handler.go: the session of the command line client.
pub mod Batch
pub mod Session
mod Tests
mod Witnesses
