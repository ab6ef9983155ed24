-- ===== src/Sql.antt =====
-- crates/magna-sql: fragments of SQL with parameters, and the builders that make them.
pub mod Fragment
pub mod Pieces
pub mod Numbering
pub mod Builders
pub mod Quoting
mod Samples
