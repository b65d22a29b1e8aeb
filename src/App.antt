-- ===== src/App.antt =====
-- src/app.rs: the state that the handlers share.
pub mod SchemaStore
pub mod Metrics
pub mod Action
pub mod FileSystem
pub mod State
