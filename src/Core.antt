-- ===== src/Core.antt =====
-- crates/krystallos-core: what every backend shares.
pub mod Error
pub mod VfsPath
pub mod FileHandle
pub mod Entry
pub mod Endpoint
pub mod Registry
pub mod Run
pub mod Backend
