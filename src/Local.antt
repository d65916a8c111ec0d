-- ===== src/Local.antt =====
-- crates/krystallos-local: a directory of this machine as a backend.
pub mod Driver
pub mod Files
pub mod Backend
mod Tests
