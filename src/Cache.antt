-- ===== src/Cache.antt =====
-- crates/krystallos-cache: the read-ahead buffer in front of a file handle.
pub mod Window
pub mod ReadAhead
mod Tests
