-- ===== src/Stmt.antt =====
-- stmt/: the statement buffer.
pub mod Rune
pub mod Scan
pub mod Quote
pub mod Variable
pub mod Command
pub mod Splice
pub mod Prefix
pub mod Buffer
pub mod Next
pub mod Params
mod Tests
mod Witnesses
