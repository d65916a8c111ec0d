-- ===== src/Local/Files.antt =====
-- What crates/krystallos-local calls of `std::fs` and `std::io`: functions over the state of the file
-- system and its open files, which the backend takes as a parameter. A path is its text.
use krystallos.Common.{ℕ, List, Option, Bool, Text}
use krystallos.Core.Error.{IoKind}
use krystallos.Core.Entry.{SystemTime}

-- `std::io::ErrorKind`, as far as `map_io` tells the kinds apart, and the error itself.
pub data IoError : Type 0 where
  not_found permission_denied already_exists not_a_directory is_a_directory directory_not_empty :
      IoError
  other : IoKind → IoError

pub data Io (A : Type 0) : Type 0 where
  done : A → Io A
  failed : IoError → Io A

-- `std::fs::Metadata`, as it is read.
pub record FileMetadata : Type 0 where
  pub is_symlink : Bool
  pub is_dir : Bool
  pub is_file : Bool
  pub len : ℕ
  pub modified : Option SystemTime
  pub created : Option SystemTime
  pub accessed : Option SystemTime
  pub read_only : Bool

-- `std::fs::OpenOptions`.
pub record OpenOptions : Type 0 where
  pub read : Bool
  pub write : Bool
  pub create : Bool
  pub create_new : Bool
  pub truncate : Bool

-- A file is known by the number that `open` gives it. `read_dir` has an item for each entry: the name
-- and the path, or the error of the iterator.
pub record FileSystem (W : Type 0) : Type 0 where
  pub canonicalize : Text → W → Io Text × W
  pub metadata : Text → W → Io FileMetadata × W
  pub symlink_metadata : Text → W → Io FileMetadata × W
  pub read_dir : Text → W → Io (List (Io (Text × Text))) × W
  pub open_with : OpenOptions → Text → W → Io ℕ × W
  pub file_metadata : ℕ → W → Io FileMetadata × W
  pub drop_file : ℕ → W → W
  pub remove_file : Text → W → Io (Unit {0}) × W
  pub remove_dir : Text → W → Io (Unit {0}) × W
  pub rename : Text → Text → W → Io (Unit {0}) × W
  pub create_dir : Text → W → Io (Unit {0}) × W
  pub copy_bytes : ℕ → ℕ → W → Io ℕ × W
  pub pread : ℕ → ℕ → ℕ → W → Io (List ℕ) × W
  pub pwrite : ℕ → List ℕ → ℕ → W → Io ℕ × W
  pub file_set_len : ℕ → ℕ → W → Io (Unit {0}) × W
  pub sync_all : ℕ → W → Io (Unit {0}) × W
