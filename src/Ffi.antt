-- ===== src/Ffi.antt =====
-- crates/krystallos-ffi: the facade that the Kotlin side calls.
pub mod Error
pub mod Types
pub mod Call
pub mod File
pub mod Session
mod Tests
