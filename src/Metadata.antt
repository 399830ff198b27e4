-- ===== src/Metadata.antt =====
-- drivers/metadata/metadata.go: the model of a database's objects.
pub mod Filter
pub mod Privileges
pub mod Results
mod Tests
mod Witnesses
