-- ===== src/Sql.antt =====
-- src/sql/: queries over the resources.
pub mod Types
pub mod Executor
pub mod Export
