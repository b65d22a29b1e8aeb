-- ===== src/Query.antt =====
-- query/: the parameters of a collection request, and what they do to a JSON array.
pub mod Types
pub mod Parser
pub mod Evaluator
pub mod Sort
pub mod Pagination
