-- ===== src/Core/Backend.antt =====
-- crates/krystallos-core/src/capabilities.rs, and the trait `StorageBackend` of backend.rs: a record
-- of calls in a world `W`. The trait object of a file is a `FileHandle` over that world.
use krystallos.Common.{ℕ, List, Bool, true, false, Text}
use krystallos.Core.Entry.{Metadata, Entry}
use krystallos.Core.VfsPath.{VfsPath}
use krystallos.Core.FileHandle.{OpenMode, FileHandle}
use krystallos.Core.Run.{Run}

pub record Capabilities : Type 0 where
  pub random_read : Bool
  pub random_write : Bool
  pub atomic_rename : Bool
  pub can_set_len : Bool
  pub durable_flush : Bool
  pub modification_times : Bool

abbrev pub full : Capabilities
full = record {
  random_read = true;
  random_write = true;
  atomic_rename = true;
  can_set_len = true;
  durable_flush = true;
  modification_times = true;
}

abbrev pub minimal : Capabilities
minimal = record {
  random_read = true;
  random_write = true;
  atomic_rename = false;
  can_set_len = true;
  durable_flush = false;
  modification_times = false;
}

pub record StorageBackend (W : Type 0) : Type 0 where
  pub endpoint : Text
  pub capabilities : Capabilities
  pub list_entries : VfsPath → Run W (List Entry)
  pub stat : VfsPath → Run W Metadata
  pub open_file : VfsPath → OpenMode → Run W (FileHandle W)
  pub remove_file : VfsPath → Run W (Unit {0})
  pub remove_dir : VfsPath → Run W (Unit {0})
  pub rename : VfsPath → VfsPath → Run W (Unit {0})
  pub copy : VfsPath → VfsPath → Run W ℕ
  pub mkdir : VfsPath → Run W (Unit {0})
  pub shutdown : Run W (Unit {0})
