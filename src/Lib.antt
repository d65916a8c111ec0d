-- ===== src/Lib.antt =====
-- Krystallos: storage backends behind one interface, with a read-ahead cache and an SMB2/3 client.
--
-- The parts, and the files that model them:
-- * Core.Error (crates/krystallos-core/src/error.rs): `Error` as a data type, with its texts;
--   fallible code returns the `Result` of this module.
-- * Core.VfsPath (crates/krystallos-core/src/path.rs): `VfsPath::new`, `root`, `is_root`,
--   `segments`, `file_name`, `parent`, `join` and `to_uri`. A text is the list of its UTF-8 bytes;
--   the separators are ASCII, so cutting bytes is cutting characters. `Split` has `str::split`,
--   `Normal` the normal form that the type documents, `Segments` the paths as lists of segments,
--   `Escape` what `..` does, `Join` and `Parts` the operations on paths.
-- * Core.FileHandle (crates/krystallos-core/src/backend.rs): `OpenMode`, the trait `FileHandle` as
--   a record of functions over a state, and `read_exact_at`. `Contract` says what `read_at`
--   documents of a file that nobody changes, `Memory` is a handle that keeps it.
-- * Core.Entry (crates/krystallos-core/src/entry.rs): what a listing says of an entry.
-- * Core.Endpoint, Core.Registry (crates/krystallos-core/src/registry.rs): `Endpoint::parse`, the
--   options and credentials of a connection, and the registry of drivers, over drivers that run in
--   any world.
-- * Core.Run, Core.Backend (crates/krystallos-core/src/capabilities.rs, backend.rs): calls that run
--   in a world, `Capabilities`, and the trait `StorageBackend` as a record of such calls.
-- * Cache.Window, Cache.ReadAhead (crates/krystallos-cache/src/lib.rs): `Window` and
--   `ReadAhead<H>`, which is again a `FileHandle`. `Fill` and `Serve` follow a read through them;
--   `Race` takes the fetches of many readers one round at a time, in any order (`Edits` with
--   changes between them, `Stale` with a write that a fetch is in flight across), and `Writes`
--   follows a write.
-- * Smb.SmbPath, Smb.Errors (crates/krystallos-smb/src/path.rs, error.rs): paths for libsmb2, and
--   the classification of its failures by status, message and return value. `Status` lists what each
--   status that libsmb2 names means to a caller.
-- * Smb.OpenFiles, Smb.Operations, Smb.Copying, Smb.Actor (crates/krystallos-smb/src/actor.rs): the
--   table of open files, the operations of the session thread, `copy_file`, and the thread.
-- * Smb.Driver (crates/krystallos-smb/src/backend.rs): `ParsedEndpoint`, and the configuration that
--   `SmbDriver::connect` builds of an endpoint, credentials and options.
-- * Smb.Connection, Smb.Backend (crates/krystallos-smb/src/actor.rs, backend.rs): the connect and
--   the end of a session, and `SmbBackend` with its driver, over a world that holds sessions and
--   files by number. `Ledger` counts the contexts, `Secrets` follows the password, `Opened` the way
--   to an open file, and `Gone` and `Shut` what a shutdown leaves.
-- * Smb.Network (crates/krystallos-sys-smb2/src/network.rs, lib.rs): the start of the sockets, and
--   the probe of the link.
-- * Smb.RemoteFile (crates/krystallos-smb/src/file.rs and the `Session` of src/actor.rs): a file
--   whose every call is a command for the session thread.
-- * Local.Driver, Local.Backend (crates/krystallos-local/src/driver.rs, backend.rs): `file://`
--   endpoints, and a directory as a backend, over the calls of the file system in Local.Files.
--   `Uri` and `Resolve` follow a root and a path into the file system, `Listing` a directory.
-- * Ffi.Error, Ffi.Types, Ffi.Call, Ffi.File, Ffi.Session (crates/krystallos-ffi/src/error.rs,
--   types.rs, lib.rs): the facade that the Kotlin side calls, over any backend and any handle.
-- * Cli.Format, Cli.Transfer, Cli.Upload, Cli.Commands, Cli.Main
--   (crates/krystallos-cli/src/format.rs, commands.rs, main.rs): the lines that are printed, the
--   loop of `cat` and `get` with the `ReadHandle` that it reads, the loop of `put`, and the
--   subcommands with the registry. `Whole`, `Stored`, `Printed` and `Uploaded` follow the bytes;
--   `OverSmb` and `PutOverSmb` put the command line and the SMB backend together, with a terminal
--   that stands beside the sessions (`Hosted`).
--
-- How they interact: a `RemoteFile` sends a command to its session; `Actor.dispatch` runs it on the
-- context and the table of open files; `Operations` calls libsmb2 and `Errors` classifies what
-- fails. A `RemoteFile` is a `FileHandle`, so `ReadAhead` wraps it, and `read_exact_at` reads
-- through both. The registry hands a URI to a driver, which connects to a `StorageBackend`; the
-- facade and the command line call that backend, and reach a file by its handle.
--
-- libsmb2 is a parameter (Smb.Libsmb2): a record of functions over the state of a context. What a
-- theorem relies on of it is a hypothesis that its statement names (`Preads` for `smb2_pread`,
-- `Stores` for a handle that is written, `Moves` for both ways, `Chunked` for a COPYCHUNK
-- request). The `errno` values and the `open` flags of the platform are records; those that the
-- source spells out for windows are given. The file system of the local backend and the terminal
-- and files of the command line are records of calls too, in the same way.
--
-- State is passed explicitly. A command waits for its reply and one thread runs all of them, so a
-- session is the list of the commands in the order of the channel. A buffer to fill is the length
-- asked for, and the bytes that come back. Integers are natural numbers; additions on `u64` that
-- can overflow are taken modulo 2^64 (`add_u64`), a conversion to `usize` modulo a parameter. Names that
-- libsmb2 or the system reports, and the root of the local backend, are taken behind the
-- `to_string_lossy` that the code applies to them. A `SystemTime` counts its seconds from the epoch,
-- before which they are negative.
--
-- Fuel: `fill_loop`, `read_exact_loop` and `through_loop` have a round for each byte that is
-- wanted, and `write_loop` one for each byte that it writes; a round that goes on moves a byte at
-- least. The server-side copy has its size and the first chunk, since a round moves a byte or
-- shrinks the chunk. The loops of `cat`, `get` and `put` take their fuel as an argument: more
-- rounds than the file has bytes are enough, and `none` is fuel that ran out.
--
-- Not modelled: a session of krystallos-smb that is given up without a shutdown, and a panic of its
-- thread; in krystallos-cli the parsing of arguments, the progress line, the statistics of the
-- debug variable and `human_bytes`, which goes by floating point. The FFI bindings are generated.
-- libsmb2, its bindings, the channels, threads and locks are not this program's code.
pub mod Common
pub mod Core
pub mod Cache
pub mod Smb
pub mod Local
pub mod Ffi
pub mod Cli
