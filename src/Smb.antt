-- ===== src/Smb.antt =====
-- crates/krystallos-smb: the SMB2/3 backend.
pub mod Libsmb2
pub mod SmbPath
pub mod Errors
pub mod OpenFiles
pub mod Operations
pub mod Copying
pub mod Actor
pub mod RemoteFile
pub mod Driver
pub mod Connection
pub mod Backend
pub mod Network
pub mod Tests
