-- ===== src/Schema.antt =====
-- src/schema/: the metadata of the tables, inferred from the data and declared by the user.
pub mod Types
pub mod Relations
pub mod Validation
pub mod Merge
pub mod Infer
