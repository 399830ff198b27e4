-- ===== src/InformationSchema.antt =====
-- drivers/metadata/informationschema/metadata.go: the metadata read from the tables of information_schema.
mod Tests
mod Witnesses
pub mod Conditions
pub mod Defaults
pub mod Statements
pub mod Rows
pub mod Summaries
