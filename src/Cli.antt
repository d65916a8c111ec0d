-- ===== src/Cli.antt =====
-- crates/krystallos-cli: the command line.
pub mod Format
pub mod Transfer
pub mod Upload
pub mod Commands
pub mod Main
mod Tests
