-- ===== src/Storage.antt =====
-- storage/: resources by their ids, and what a resource must satisfy.
pub mod Index
pub mod Cache
pub mod Io
pub mod Loading
pub mod Admission
pub mod Management
pub mod Validation
