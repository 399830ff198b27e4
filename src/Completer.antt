-- ===== src/Completer.antt =====
-- drivers/completer/completer.go: completion of the line.
mod Tests
mod Witnesses
pub mod Casing
pub mod Commands
pub mod Words
pub mod Pattern
pub mod Options
pub mod Identifier
pub mod Names
pub mod Sources
pub mod Files
pub mod Ladder
pub mod Complete
