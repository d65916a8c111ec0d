-- ===== src/Local/Backend.antt =====
-- crates/krystallos-local/src/backend.rs: `LocalBackend` and `LocalFileHandle`, over the file system
-- of Files.
pub mod Resolve
pub mod Listing
use krystallos.Common.{ℕ, List, [], ◌∷◌, ◌++◌, Bool, true, false, if◌then◌else◌, Text, codes}
use krystallos.Core.Error
use krystallos.Core.Error.{Error, Result, ok, err, IoKind, other_kind}
use krystallos.Core.Entry.{EntryKind, file, directory, symlink, other, Metadata, Entry}
use krystallos.Core.Entry.Sorting.{sort_entries}
use krystallos.Core.VfsPath.{VfsPath, segments}
use krystallos.Core.FileHandle.{OpenMode, FileHandle}
use krystallos.Core.Backend.{StorageBackend, full}
use krystallos.Core.Endpoint.{Endpoint}
use krystallos.Core.Registry.{BackendDriver}
use krystallos.Core.Run.{Run, ◌>>=◌, after, return, throw, lift}
use krystallos.Local.Files
use krystallos.Local.Files.{IoError, Io, done, failed, FileMetadata, OpenOptions, FileSystem}
use krystallos.Local.Driver.{parse_root, uri_for}

-- `Error::Io`: the error as it is, where `IoKind` has one kind for all those that are not told apart there.
abbrev pub io_error : IoError → Error
io_error (Files.other k) = Error.io k
io_error _ = Error.io other_kind

unfoldable pub map_io : VfsPath → IoError → Error
map_io p Files.not_found = Error.not_found p.raw
map_io p Files.permission_denied = Error.permission_denied p.raw
map_io p Files.already_exists = Error.already_exists p.raw
map_io p Files.not_a_directory = Error.not_a_directory p.raw
map_io p Files.is_a_directory = Error.is_a_directory p.raw
map_io p Files.directory_not_empty = Error.directory_not_empty p.raw
map_io p (Files.other k) = Error.io k

-- `map_err`, behind a call of the file system.
abbrev pub mapped : {A W : Type 0} → (IoError → Error) → Io A × W → Result A × W
mapped f (done a, w) = (ok a, w)
mapped f (failed e, w) = (err (f e), w)

abbrev pub at_path : {A W : Type 0} → VfsPath → (W → Io A × W) → Run W A
at_path p call w = mapped (map_io p) (call w)

abbrev pub plain : {A W : Type 0} → (W → Io A × W) → Run W A
plain call w = mapped io_error (call w)

abbrev pub kind_from : FileMetadata → EntryKind
kind_from m =
    if m.is_symlink
    then symlink
    else if m.is_dir
    then directory
    else if m.is_file
    then file
    else other

unfoldable pub to_metadata : FileMetadata → Metadata
to_metadata m = record {
  kind = kind_from m;
  len = m.len;
  modified = m.modified;
  created = m.created;
  accessed = m.accessed;
  read_only = m.read_only;
}

-- `LocalBackend`; the root is known by its text.
pub record LocalBackend : Type 0 where
  pub root : Text
  pub endpoint : Text

abbrev pub backend_at : Text → LocalBackend
backend_at root = record { root = root; endpoint = uri_for root }

-- The segments behind `root`, each with the platform's separator in front.
abbrev pub behind : ℕ → List Text → Text
behind separator [] = []
behind separator (s ∷ ss) = separator ∷ (s ++ behind separator ss)

unfoldable pub resolve : ℕ → LocalBackend → VfsPath → Text
resolve separator b p = b.root ++ behind separator (segments p)

abbrev pub options_of : OpenMode → OpenOptions
options_of m = record {
  read = m.read;
  write = m.write;
  create = m.create;
  create_new = m.create_new;
  truncate = m.truncate;
}

module _ {W : Type 0} (fs : FileSystem W) where
  -- `LocalFileHandle`: a file, and its size when it was opened. Closing it is left to its drop.
  abbrev pub file_handle : ℕ → ℕ → FileHandle W
  file_handle f size = record {
    read_at = λ w offset n. plain (fs.pread f n offset) w;
    write_at = λ w offset buf. plain (fs.pwrite f buf offset) w;
    set_len = λ w n. plain (fs.file_set_len f n) w;
    flush = λ w. plain (fs.sync_all f) w;
    close = λ w. (ok tt, w);
    len = λ w. size;
  }

  -- An entry whose metadata cannot be had is passed over.
  abbrev pub looked :
      (List Entry → Run W (List Entry))
      → List Entry
      → Text
      → Io FileMetadata × W
      → Result (List Entry) × W
  looked again out name (done m, w) =
      again (out ++ record { name = name; metadata = to_metadata m } ∷ []) w
  looked again out name (failed e, w) = again out w

  unfoldable pub read_items : VfsPath → List (Io (Text × Text)) → List Entry → Run W (List Entry)
  read_items p [] out w = (ok out, w)
  read_items p (failed e ∷ rest) out w = (err (map_io p e), w)
  read_items p (done (name, full_path) ∷ rest) out w =
      looked (read_items p rest) out name (fs.symlink_metadata full_path w)

  abbrev pub sorted : List Entry → Run W (List Entry)
  sorted out = return (sort_entries out)

module _ {W : Type 0} (fs : FileSystem W) (separator : ℕ) (b : LocalBackend) where
  unfoldable pub list_entries : VfsPath → Run W (List Entry)
  list_entries p = do
    items ← at_path p (fs.read_dir (resolve separator b p))
    out ← read_items fs p items []
    sorted fs out

  unfoldable pub stat : VfsPath → Run W Metadata
  stat p = do m ← at_path p (fs.metadata (resolve separator b p)); return (to_metadata m)

  abbrev pub sized : ℕ → Result FileMetadata × W → Result (FileHandle W) × W
  sized f (ok m, w) = (ok (file_handle fs f m.len), w)
  sized f (err e, w) = (err e, fs.drop_file f w)

  unfoldable pub open_file : VfsPath → OpenMode → Run W (FileHandle W)
  open_file p mode = do
    f ← at_path p (fs.open_with (options_of mode) (resolve separator b p))
    λ w. sized f (at_path p (fs.file_metadata f) w)

  unfoldable pub remove_file : VfsPath → Run W (Unit {0})
  remove_file p = at_path p (fs.remove_file (resolve separator b p))

  unfoldable pub remove_dir : VfsPath → Run W (Unit {0})
  remove_dir p = at_path p (fs.remove_dir (resolve separator b p))

  unfoldable pub rename : VfsPath → VfsPath → Run W (Unit {0})
  rename from to = at_path from (fs.rename (resolve separator b from) (resolve separator b to))

  -- The destination is dropped first, then the source.
  abbrev pub dropped : {A : Type 0} → ℕ → Result A × W → Result A × W
  dropped f (r, w) = (r, fs.drop_file f w)

  abbrev pub copied_to : VfsPath → ℕ → Result ℕ × W → Result ℕ × W
  copied_to to input (err e, w) = dropped input (err e, w)
  copied_to to input (ok out, w) =
      dropped input (dropped out (at_path to (fs.copy_bytes input out) w))

  unfoldable pub copy : VfsPath → VfsPath → Run W ℕ
  copy from to = do
    input ← at_path from (
        fs.open_with
          (record {
            read = true;
            write = false;
            create = false;
            create_new = false;
            truncate = false;
          })
          (resolve separator b from))
    λ w. copied_to to input (
        at_path to
          (fs.open_with
            (record {
              read = false;
              write = true;
              create = false;
              create_new = true;
              truncate = false;
            })
            (resolve separator b to))
          w)

  unfoldable pub mkdir : VfsPath → Run W (Unit {0})
  mkdir p = at_path p (fs.create_dir (resolve separator b p))

  -- `impl StorageBackend for LocalBackend`.
  abbrev pub local_backend : StorageBackend W
  local_backend = record {
    endpoint = b.endpoint;
    capabilities = full;
    list_entries = list_entries;
    stat = stat;
    open_file = open_file;
    remove_file = remove_file;
    remove_dir = remove_dir;
    rename = rename;
    copy = copy;
    mkdir = mkdir;
    shutdown = λ w. (ok tt, w);
  }

module _ {W : Type 0} (fs : FileSystem W) (windows : Bool) (separator : ℕ) where
  abbrev pub canonical_error : Text → IoError → Error
  canonical_error requested Files.not_found = Error.not_found requested
  canonical_error requested e = io_error e

  abbrev pub directory_at : Text → FileMetadata → Result LocalBackend
  directory_at root m = if m.is_dir then ok (backend_at root) else err (Error.not_a_directory root)

  -- `LocalDriver::connect`.
  unfoldable pub connect : Endpoint → Run W LocalBackend
  connect e = do
    requested ← lift (parse_root windows e.authority_and_path)
    root ← λ w. mapped (canonical_error requested) (fs.canonicalize requested w)
    m ← plain (fs.metadata root)
    lift (directory_at root m)

  abbrev pub boxed : Result LocalBackend × W → Result (StorageBackend W) × W
  boxed (err e, w) = (err e, w)
  boxed (ok b, w) = (ok (local_backend fs separator b), w)

  -- `impl BackendDriver for LocalDriver`; the credentials and the options are not looked at.
  abbrev pub local_driver : BackendDriver W (StorageBackend W)
  local_driver = record {
    scheme = codes "file";
    description = codes "Local filesystem";
    connect = λ w e c options. boxed (connect e w);
  }
