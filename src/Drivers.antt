-- ===== src/Drivers.antt =====
-- drivers/: what the driver table says of a statement.
pub mod Kind
pub mod Batch
mod Wrapped
mod Tests
mod Witnesses
