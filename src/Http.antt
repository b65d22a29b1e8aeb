-- ===== src/Http.antt =====
-- http/: the handlers.
pub mod Items
pub mod Embed
