-- ===== src/Metacmd.antt =====
-- metacmd/: the backslash commands.
mod Tests
mod Witnesses
pub mod Args
pub mod Options
pub mod Exec
pub mod Transact
pub mod Format
pub mod Names
pub mod Variables
pub mod Describe
