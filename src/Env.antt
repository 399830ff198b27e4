-- ===== src/Env.antt =====
-- env/types.go: the print settings and the variables.
pub mod Parse
pub mod Settings
pub mod Variables
mod Tests
mod Witnesses
