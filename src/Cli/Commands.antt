-- ===== src/Cli/Commands.antt =====
-- crates/krystallos-cli/src/commands.rs: the subcommands. The terminal and the local files that they
-- use are a parameter, its errors turned into `Error` by `From`. The progress line, which only a terminal
-- sees, and the statistics of the debug variable are left out. Giving up a handle makes no call of its trait.
pub mod Streamed
pub mod Printed
pub mod Uploaded
use krystallos.Common.{
  ℕ, zero, suc, List, [], ◌∷◌, ◌++◌, Option, none, some, Bool, true, false, if◌then◌else◌, Text,
}
use krystallos.Core.Error.{Result, ok, err, is_a_directory}
use krystallos.Core.VfsPath.{VfsPath, new}
use krystallos.Core.Entry.{SystemTime, Metadata, Entry, is_dir_kind}
use krystallos.Core.FileHandle.{FileHandle, read_mode, write_mode, with_truncate}
use krystallos.Core.Run.{Run, ◌>>=◌, ◌>>◌, return, throw, lift}
use krystallos.Core.Backend.{StorageBackend}
use krystallos.Core.Registry.{BackendRegistry, Credentials, ConnectionOptions, connect_with}
use krystallos.Cli.Format.{entry_line, metadata_block}
use krystallos.Cli.Transfer.{
  ReadHandle, to_plain, wrapped, unwrapped, beside, close, read_handle, transfer_loop,
}
use krystallos.Cli.Upload.{chunk_size, put_loop}

-- Standard output, and the local files by the number that opening them gives.
pub record Host (W : Type 0) : Type 0 where
  pub print : Text → Run W (Unit {0})
  pub write_out : List ℕ → Run W (Unit {0})
  pub flush_out : Run W (Unit {0})
  pub create_file : Text → Run W ℕ
  pub write_file : ℕ → List ℕ → Run W (Unit {0})
  pub flush_file : ℕ → Run W (Unit {0})
  pub open_source : Text → Run W ℕ
  pub source_len : ℕ → Run W ℕ
  pub read_source : ℕ → ℕ → Run W (List ℕ)
  pub rfc3339 : SystemTime → Text

-- A command's work; `none` is fuel of one of its loops that ran out.
abbrev pub Work : Type 0 → Type 0
Work W = W → Option (Result (Unit {0}) × W)

module _ {W : Type 0} where
  abbrev pub settled : Result (Unit {0}) → Result (Unit {0}) × W → Result (Unit {0}) × W
  settled (err e) (r, w) = (err e, w)
  settled (ok u) (r, w) = (r, w)

  -- `finish`, which every command comes to that has connected.
  unfoldable pub finish :
      StorageBackend W → Option (Result (Unit {0}) × W) → Option (Result (Unit {0}) × W)
  finish backend none = none
  finish backend (some (outcome, w)) = some (settled outcome (backend.shutdown w))

  -- What a command has around its work.
  abbrev pub worked :
      (StorageBackend W → Work W) → Result (StorageBackend W) × W → Option (Result (Unit {0}) × W)
  worked work (err e, w) = some (err e, w)
  worked work (ok backend, w) = finish backend (work backend w)

  abbrev pub once : Run W (Unit {0}) → Work W
  once call w = some (call w)

  -- The `?` of a step in front of work that has a loop.
  abbrev pub started : {A : Type 0} → (A → Work W) → Result A × W → Option (Result (Unit {0}) × W)
  started next (err e, w) = some (err e, w)
  started next (ok a, w) = next a w

  abbrev pub out_of : Result (Unit {0}) × ReadHandle W → Result (Unit {0}) × W
  out_of (r, s) = (r, unwrapped s)

  -- What follows the loop of `cat` and of `get`.
  abbrev pub transferred :
      Run (ReadHandle W) (Unit {0})
      → Option (Result ℕ × ReadHandle W)
      → Option (Result (Unit {0}) × W)
  transferred next none = none
  transferred next (some (err e, s)) = some (err e, unwrapped s)
  transferred next (some (ok n, s)) = some (out_of (next s))

  -- What follows the loop of `put`.
  abbrev pub uploaded : FileHandle W → Option (Result ℕ × W) → Option (Result (Unit {0}) × W)
  uploaded h none = none
  uploaded h (some (err e, w)) = some (err e, w)
  uploaded h (some (ok n, w)) = some ((h.flush >> h.close) w)

  abbrev pub file_only : VfsPath → Metadata → Run W (Unit {0})
  file_only path m = if is_dir_kind m.kind then throw (is_a_directory path.raw) else return tt

  -- `open_for_read`, less its last step, which `wrapped` is.
  unfoldable pub open_for_read : StorageBackend W → VfsPath → Run W (FileHandle W)
  open_for_read backend path = do
    m ← backend.stat path
    u ← file_only path m
    backend.open_file path read_mode

  -- The loop of `cat` and of `get`, with what follows it.
  unfoldable pub stream :
      ℕ → ℕ → ℕ → FileHandle W → (List ℕ → Run W (Unit {0})) → Run W (Unit {0}) → ℕ → Work W
  unfolding transfer_loop close
  stream usize_mod read_ahead chunk h write flush_it fuel w =
      transferred (beside flush_it >> close h usize_mod) (
        transfer_loop (read_handle h usize_mod) (λ bytes. beside (write bytes)) chunk fuel 0
          (wrapped read_ahead w))

  pub with_backend :
      BackendRegistry W (StorageBackend W)
      → Credentials
      → ConnectionOptions
      → Text
      → (StorageBackend W → Work W)
      → Work W
  unfolding finish
  with_backend registry creds options uri work w =
      worked work (connect_with registry w uri creds options)

module _ {W : Type 0} (host : Host W) (registry : BackendRegistry W (StorageBackend W))
    (creds : Credentials) (options : ConnectionOptions) where
  abbrev pub print_entries : List Entry → Run W (Unit {0})
  print_entries [] = return tt
  print_entries (e ∷ es) = host.print (entry_line host.rfc3339 e ++ b'\n' ∷ []) >> print_entries es

  unfoldable pub ls : Text → Text → Work W
  unfolding with_backend entry_line
  ls uri path = with_backend registry creds options uri (λ backend. once (do
    p ← lift (new path)
    entries ← backend.list_entries p
    u ← print_entries entries
    host.flush_out))

  unfoldable pub stat : Text → Text → Work W
  unfolding with_backend metadata_block
  stat uri path = with_backend registry creds options uri (λ backend. once (do
    p ← lift (new path)
    m ← backend.stat p
    u ← host.print (metadata_block host.rfc3339 p.raw m)
    host.flush_out))

  unfoldable pub cat : ℕ → ℕ → ℕ → ℕ → Text → Text → Work W
  unfolding with_backend open_for_read stream
  cat usize_mod read_ahead chunk fuel uri path =
      with_backend registry creds options uri (λ backend w.
        started (λ h. stream usize_mod read_ahead chunk h host.write_out host.flush_out fuel)
          ((lift (new path) >>= open_for_read backend) w))

  unfoldable pub get : ℕ → ℕ → ℕ → ℕ → Text → Text → Text → Work W
  unfolding with_backend open_for_read stream
  get usize_mod read_ahead chunk fuel uri path dest =
      with_backend registry creds options uri (λ backend w.
        started
          (λ h w'.
            started
              (λ f.
                stream usize_mod read_ahead chunk h (host.write_file f) (host.flush_file f) fuel)
              (host.create_file dest w'))
          ((lift (new path) >>= open_for_read backend) w))

  -- The source, and the file that it goes to.
  unfoldable pub open_for_write : StorageBackend W → Text → Text → Run W (ℕ × FileHandle W)
  open_for_write backend path src = do
    p ← lift (new path)
    f ← host.open_source src
    total ← host.source_len f
    h ← backend.open_file p (with_truncate write_mode)
    return (f, h)

  unfoldable pub put : ℕ → Text → Text → Text → Work W
  unfolding with_backend open_for_write put_loop
  put fuel uri path src = with_backend registry creds options uri (λ backend w.
      started
        (λ opened w'.
          uploaded opened.1 (put_loop (host.read_source opened.0) opened.1 chunk_size fuel 0 w'))
        (open_for_write backend path src w))

  unfoldable pub mkdir : Text → Text → Work W
  unfolding with_backend
  mkdir uri path =
      with_backend registry creds options uri (λ backend. once (lift (new path) >>= backend.mkdir))

  unfoldable pub rm : Text → Text → Work W
  unfolding with_backend
  rm uri path =
      with_backend registry creds options uri
        (λ backend. once (lift (new path) >>= backend.remove_file))

  unfoldable pub rmdir : Text → Text → Work W
  unfolding with_backend
  rmdir uri path =
      with_backend registry creds options uri
        (λ backend. once (lift (new path) >>= backend.remove_dir))

  unfoldable pub mv : Text → Text → Text → Work W
  unfolding with_backend
  mv uri from to = with_backend registry creds options uri (λ backend.
      once (do source ← lift (new from); target ← lift (new to); backend.rename source target))
