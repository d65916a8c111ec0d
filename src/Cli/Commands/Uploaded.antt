-- ===== src/Cli/Commands/Uploaded.antt =====
-- What `put` stores is the file that it was given.
use krystallos.Common.{ℕ, ◌<◌, List, [], ◌≡◌, inl, Option, none, some, arith, Text, length, u64_mod}
use krystallos.Core.Error.{Error, Result, ok, err}
use krystallos.Core.VfsPath.{VfsPath, new}
use krystallos.Core.FileHandle.{FileHandle, write_mode, with_truncate}
use krystallos.Core.FileHandle.Contract.{Returns}
use krystallos.Core.Run.{after}
use krystallos.Core.Backend.{StorageBackend}
use krystallos.Core.Registry.{BackendRegistry, Credentials, ConnectionOptions, connect_with}
use krystallos.Cli.Upload.{chunk_size, put_loop}
use krystallos.Cli.Upload.Contract.{Uploads, Failure}
use krystallos.Cli.Upload.Stored.{Stored, put_loop-Stored}
use krystallos.Cli.Commands.{Host, started, uploaded, open_for_write, with_backend, put}
use krystallos.Cli.Commands.Streamed.{Leads, Keeps, Printed, shut-Printed}

-- How `put` comes to its source and to the file that it writes: both open, and the world is `w` in front
-- of all this and `w'` behind it.
pub record Prepares {W : Type 0} (host : Host W) (registry : BackendRegistry W (StorageBackend W))
    (creds : Credentials) (options : ConnectionOptions) (uri path src : Text) (w : W)
    (backend : StorageBackend W) (f : ℕ) (h : FileHandle W) (w' : W) : Type 0 where
  pub connected : W
  pub sourced : W
  pub measured : W
  pub vfs_path : VfsPath
  pub total : ℕ
  pub connects : connect_with registry w uri creds options ≡ (ok backend, connected)
  pub names : new path ≡ ok vfs_path
  pub sources : host.open_source src connected ≡ (ok f, sourced)
  pub measures : host.source_len f sourced ≡ (ok total, measured)
  pub opens : backend.open_file vfs_path (with_truncate write_mode) measured ≡ (ok h, w')

module _ {W : Type 0} (Content Closed : W → List ℕ → Type 0) (Allowed : Error → Type 0)
    (h : FileHandle W) (source : List ℕ) where
  closed-Printed :
      (out : Result (Unit {0}) × W)
      → Leads Content Closed Allowed h.close
      → Returns (λ _. Content out.1 source) Allowed out.0
      → Printed Closed (Failure Allowed) source (some (after (λ _. h.close) out))
  closed-Printed (err e, w) closes p = inl p
  closed-Printed (ok u, w) closes p = ends (h.close w) (closes w source p)
    where
      ends :
          (out : Result (Unit {0}) × W)
          → Returns (λ _. Closed out.1 source) Allowed out.0
          → Printed Closed (Failure Allowed) source (some out)
      ends (err e, w') p = inl p
      ends (ok u, w') p = p

  uploaded-Printed :
      (out : Option (Result ℕ × W))
      → Keeps Content Allowed h.flush
      → Leads Content Closed Allowed h.close
      → Stored Content Allowed source out
      → Printed Closed (Failure Allowed) source (uploaded h out)
  uploaded-Printed none flushes closes p = p
  uploaded-Printed (some (err e, w)) flushes closes p = p
  uploaded-Printed (some (ok n, w)) flushes closes p =
      closed-Printed (h.flush w) closes (flushes w source p.1)

widened :
    {W : Type 0} (Content : W → List ℕ → Type 0) (Allowed : Error → Type 0) (content : List ℕ)
    (out : Result (Unit {0}) × W)
    → Returns (λ _. Content out.1 content) Allowed out.0
    → Returns (λ _. Content out.1 content) (Failure Allowed) out.0
widened Content Allowed content (err e, w) p = inl p
widened Content Allowed content (ok u, w) p = p

weakened :
    {W : Type 0} (Before After : W → List ℕ → Type 0) (Allowed : Error → Type 0)
    (call : W → Result (Unit {0}) × W)
    → Leads Before After Allowed call
    → Leads Before After (Failure Allowed) call
weakened Before After Allowed call leads w content c =
    widened After Allowed content (call w) (leads w content c)

-- `put` with a close and a shutdown behind which other views of what is stored hold.
pub put-shut-Stores :
    {W : Type 0} (host : Host W) (registry : BackendRegistry W (StorageBackend W))
    (creds : Credentials) (options : ConnectionOptions) (Left : W → List ℕ → Type 0)
    (Content Closed Final : W → List ℕ → Type 0) (Allowed : Error → Type 0) (uri path src : Text)
    (w w' : W) (backend : StorageBackend W) (f : ℕ) (h : FileHandle W)
    → Prepares host registry creds options uri path src w backend f h w'
    → Uploads (host.read_source f) h Left Content Allowed
    → Keeps Content Allowed h.flush
    → Leads Content Closed Allowed h.close
    → Leads Closed Final Allowed backend.shutdown
    → (fuel : ℕ) (source : List ℕ) → length source < u64_mod
    → length source < fuel
    → Content w' []
    → Left w' source
    → Printed Final (Failure Allowed) source (put host registry creds options fuel uri path src w)
unfolding put with_backend open_for_write
put-shut-Stores host registry creds options Left Content Closed Final Allowed uri path src w w'
      backend f h o contract flushes closes shuts fuel source sized enough c l =
    rw o.connects (
      shut-Printed backend Closed Final (Failure Allowed) source
        (started
          (λ opened w''.
            uploaded opened.1 (put_loop (host.read_source opened.0) opened.1 chunk_size fuel 0 w''))
          (open_for_write host registry creds options backend path src o.connected))
        (weakened Closed Final Allowed backend.shutdown shuts)
        (rw (o.names) (
          rw (o.sources) (
            rw (o.measures) (
              rw (o.opens) (
                uploaded-Printed Content Closed Allowed h source
                  (put_loop (host.read_source f) h chunk_size fuel 0 w') flushes closes
                  (put_loop-Stored (host.read_source f) h Left Content Allowed contract chunk_size
                    fuel source w' (omega arith) sized enough c l)))))))

-- With more rounds than the source has bytes `put` ends; where it succeeds, the file that it opened
-- empty holds the source, however short the reads and the writes; it fails by an error of a call, or
-- because a write takes no byte. Source and file open, the file is truncated by that, both keep the contract
-- of `Uploads`, flush, close and shutdown leave the content alone, and sizes fit in 64 bits.
pub put-Stores :
    {W : Type 0} (host : Host W) (registry : BackendRegistry W (StorageBackend W))
    (creds : Credentials) (options : ConnectionOptions) (Left : W → List ℕ → Type 0)
    (Content : W → List ℕ → Type 0) (Allowed : Error → Type 0) (uri path src : Text) (w w' : W)
    (backend : StorageBackend W) (f : ℕ) (h : FileHandle W)
    → Prepares host registry creds options uri path src w backend f h w'
    → Uploads (host.read_source f) h Left Content Allowed
    → Keeps Content Allowed h.flush
    → Keeps Content Allowed h.close
    → Keeps Content Allowed backend.shutdown
    → (fuel : ℕ) (source : List ℕ) → length source < u64_mod
    → length source < fuel
    → Content w' []
    → Left w' source
    → Printed Content (Failure Allowed) source (put host registry creds options fuel uri path src w)
put-Stores host registry creds options Left Content Allowed uri path src w w' backend f h o contract
      flushes closes shuts fuel source sized enough c l =
    put-shut-Stores host registry creds options Left Content Content Content Allowed uri path src w
      w' backend f h o contract flushes closes shuts fuel source sized enough c l
