-- ===== src/Core/Entry.antt =====
-- crates/krystallos-core/src/entry.rs: what a listing says of an entry.
pub mod Sorting
use krystallos.Common.{ℕ, Option, none, Bool, true, false, Text, ℤ}

pub data EntryKind : Type 0 where
  file directory symlink other : EntryKind

abbrev pub is_dir_kind : EntryKind → Bool
is_dir_kind directory = true
is_dir_kind _ = false

abbrev pub is_file_kind : EntryKind → Bool
is_file_kind file = true
is_file_kind _ = false

-- A `SystemTime`: whole seconds from the epoch, rounded down, and the nanoseconds beyond them, below a second.
pub record SystemTime : Type 0 where
  pub secs : ℤ
  pub nanos : ℕ

pub record Metadata : Type 0 where
  pub kind : EntryKind
  pub len : ℕ
  pub modified : Option SystemTime
  pub created : Option SystemTime
  pub accessed : Option SystemTime
  pub read_only : Bool

abbrev pub file_metadata : ℕ → Metadata
file_metadata len = record {
  kind = file;
  len = len;
  modified = none;
  created = none;
  accessed = none;
  read_only = false;
}

abbrev pub directory_metadata : Metadata
directory_metadata = record {
  kind = directory;
  len = 0;
  modified = none;
  created = none;
  accessed = none;
  read_only = false;
}

pub record Entry : Type 0 where
  pub name : Text
  pub metadata : Metadata

abbrev pub is_dir : Entry → Bool
is_dir e = is_dir_kind e.metadata.kind
