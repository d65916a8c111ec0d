-- ===== src/Cli/Commands/Printed.antt =====
-- What `cat` prints is the file, through the read-ahead handle or without it.
use krystallos.Common.{ℕ, ◌≤◌, ◌<◌, List, ◌++◌, ◌≡◌, false, Text, length, u64_mod}
use krystallos.Core.Error.{Error, ok}
use krystallos.Core.VfsPath.{VfsPath, new}
use krystallos.Core.Entry.{Metadata, is_dir_kind}
use krystallos.Core.FileHandle.{FileHandle, read_mode}
use krystallos.Core.FileHandle.Contract.{Serves}
use krystallos.Core.Run.{◌>>=◌, lift}
use krystallos.Core.Backend.{StorageBackend}
use krystallos.Core.Registry.{BackendRegistry, Credentials, ConnectionOptions, connect_with}
use krystallos.Cache.ReadAhead.{read_ahead}
use krystallos.Cli.Transfer.Whole.{Appends}
use krystallos.Cli.Commands.{Host, started, stream, open_for_read, with_backend, cat}
use krystallos.Cli.Commands.Streamed.{Leads, Keeps, Printed, shut-Printed, stream-Printed}

-- How a command comes to the handle that it reads: the endpoint is connected to, the path is valid, it
-- names what is no directory, and that opens. The world is `w` in front of all this and `w'` behind it.
pub record Opens {W : Type 0} (registry : BackendRegistry W (StorageBackend W))
    (creds : Credentials) (options : ConnectionOptions) (uri path : Text) (w : W)
    (backend : StorageBackend W) (h : FileHandle W) (w' : W) : Type 0 where
  pub connected : W
  pub looked : W
  pub vfs_path : VfsPath
  pub metadata : Metadata
  pub connects : connect_with registry w uri creds options ≡ (ok backend, connected)
  pub names : new path ≡ ok vfs_path
  pub stats : backend.stat vfs_path connected ≡ (ok metadata, looked)
  pub no_directory : is_dir_kind metadata.kind ≡ false
  pub opens : backend.open_file vfs_path read_mode looked ≡ (ok h, w')

-- `cat` with a shutdown behind which another view of what was written holds.
pub cat-shut-Printed :
    {W : Type 0} (host : Host W) (registry : BackendRegistry W (StorageBackend W))
    (creds : Credentials) (options : ConnectionOptions) (Holds : W → List ℕ → Type 0)
    (Written Final : W → List ℕ → Type 0) (Allowed : Error → Type 0) (uri path : Text) (w w' : W)
    (backend : StorageBackend W) (h : FileHandle W)
    → Opens registry creds options uri path w backend h w'
    → Serves h Holds Allowed
    → Appends h host.write_out Holds Written Allowed
    → Keeps Written Allowed host.flush_out
    → Keeps Written Allowed h.close
    → Leads Written Final Allowed backend.shutdown
    → (usize_mod read_ahead chunk fuel : ℕ) (file before : List ℕ) → u64_mod ≤ usize_mod
    → 0 < chunk
    → length file < u64_mod
    → length file < fuel
    → Holds w' file
    → Written w' before
    → Printed Final Allowed
        (before ++ file)
        (cat host registry creds options usize_mod read_ahead chunk fuel uri path w)
unfolding cat with_backend open_for_read
cat-shut-Printed host registry creds options Holds Written Final Allowed uri path w w' backend h o
      serves sink flushes closes shuts usize_mod read_ahead chunk fuel file before wide pos sized
      enough q v =
    rw o.connects (
      shut-Printed backend Written Final Allowed (before ++ file)
        (started (λ h'. stream usize_mod read_ahead chunk h' host.write_out host.flush_out fuel)
          ((lift (new path) >>= open_for_read backend) o.connected))
        shuts
        (rw o.names (
          rw o.stats (
            rw o.no_directory (
              rw o.opens (
                stream-Printed h usize_mod host.write_out Holds Written Allowed serves sink wide
                  host.flush_out read_ahead chunk fuel file before w' flushes closes pos sized
                  enough q v))))))

-- With more rounds than the file has bytes `cat` ends; where it succeeds, standard output has exactly the
-- file behind what was there, with read-ahead of any size or none, for any chunk of a byte at least and
-- however short the reads; it fails only by an error of a call. The file opens, its handle keeps the
-- contract of `read_at`, the terminal that of `write_all`, flush, close and shutdown leave alone what was
-- written, and sizes and a `usize` fit in 64 bits.
pub cat-Printed :
    {W : Type 0} (host : Host W) (registry : BackendRegistry W (StorageBackend W))
    (creds : Credentials) (options : ConnectionOptions) (Holds : W → List ℕ → Type 0)
    (Written : W → List ℕ → Type 0) (Allowed : Error → Type 0) (uri path : Text) (w w' : W)
    (backend : StorageBackend W) (h : FileHandle W)
    → Opens registry creds options uri path w backend h w'
    → Serves h Holds Allowed
    → Appends h host.write_out Holds Written Allowed
    → Keeps Written Allowed host.flush_out
    → Keeps Written Allowed h.close
    → Keeps Written Allowed backend.shutdown
    → (usize_mod read_ahead chunk fuel : ℕ) (file before : List ℕ) → u64_mod ≤ usize_mod
    → 0 < chunk
    → length file < u64_mod
    → length file < fuel
    → Holds w' file
    → Written w' before
    → Printed Written Allowed
        (before ++ file)
        (cat host registry creds options usize_mod read_ahead chunk fuel uri path w)
cat-Printed host registry creds options Holds Written Allowed uri path w w' backend h o serves sink
      flushes closes shuts usize_mod read_ahead chunk fuel file before wide pos sized enough q v =
    cat-shut-Printed host registry creds options Holds Written Written Allowed uri path w w' backend
      h o serves sink flushes closes shuts usize_mod read_ahead chunk fuel file before wide pos
      sized enough q v
