-- ===== src/Cli/Main/OverSmb.antt =====
-- `krystallos cat smb://…`, from the arguments to standard output: the registry, the SMB driver, the session
-- thread, the remote file, the read-ahead and the copy loop together.
use krystallos.Common.{ℕ, List, ◌++◌, ◌≡◌, refl, ◌≤◌, ◌<◌, ◌^◌, Text, codes, length, u64_mod}
use krystallos.Core.Error.{Error, ok}
use krystallos.Core.VfsPath.{VfsPath, new}
use krystallos.Core.Backend.{StorageBackend}
use krystallos.Core.Registry.{BackendDriver}
use krystallos.Smb.Libsmb2.{Libsmb2}
use krystallos.Smb.Errors.{Errno}
use krystallos.Smb.Operations.{OpenFlags, metadata_from_stat, size_of}
use krystallos.Smb.RemoteFile.{Session}
use krystallos.Smb.Connection.{Connector, session_on}
use krystallos.Smb.Backend.{World, put, smb_file, smb_backend, smb_driver}
use krystallos.Smb.Backend.Reads.{FileHolds, smb_file-Serves, put-same}
use krystallos.Smb.Backend.Opened.{
  HasFile, stat-HasFile, open_file-HasFile, with_new_file-FileHolds, with_new_session,
  with_new_file, new_file, with_handle,
}
use krystallos.Cli.Commands.{Host}
use krystallos.Cli.Commands.Streamed.{Printed}
use krystallos.Cli.Commands.Printed.{Opens, cat-shut-Printed}
use krystallos.Cli.Main.{Cli, cat, dispatch, registry, run, credentials_of, options_of}
use krystallos.Cli.Main.Reached.{Reached, config, connect_with-Reached}
use krystallos.Cli.Main.Hosted.{
  hosted, Documented, Shown, alive_after, smb_file-Appends, on_outside-Keeps, smb_file-close-Keeps,
  shutdown-Leads,
}

-- The arguments name a share that can be reached, and on it a file with these bytes; in front of all
-- this the world is `w`, and behind the connect the process beside the sessions is `g`.
pub record Names {C G : Type 0} (x : Connector C G) (f : Libsmb2 C) (errno : Errno) (o : OpenFlags)
    (HoldsAt : C → ℕ → List ℕ → Type 0) (cli : Cli) (w : World C G) (g : G) (file : List ℕ)
    : Type 0 where
  pub uri : Text
  pub path : Text
  pub vfs_path : VfsPath
  pub context : C
  pub asks : cli.command ≡ cat uri path
  pub reached : Reached x f errno cli uri w.outside context g
  pub names : new path ≡ ok vfs_path
  pub has_file : HasFile f o HoldsAt vfs_path context file
  pub readable : 0 < x.max_read_size context
  pub word : x.max_read_size context < 2 ^ 32

module _ {C G : Type 0} (x : Connector C G) (f : Libsmb2 C) (errno : Errno) (o : OpenFlags)
    (HoldsAt : C → ℕ → List ℕ → Type 0) {cli : Cli} {w : World C G} {g : G} {file : List ℕ}
    (v : Names x f errno o HoldsAt cli w g file) where
  abbrev session : Session C
  session = session_on x f errno v.context

  abbrev connected : World C G
  connected = with_new_session x f errno o w v.context g

  abbrev looked : World C G
  looked = record connected {
    sessions =
        put connected.sessions w.next_session
          (record session { actor = record session.actor { ctx = v.has_file.looked } });
  }

  -- The world in which the file is open.
  abbrev opened : World C G
  opened =
      with_new_file x f errno o looked w.next_session
        (new_file x f errno o v.vfs_path session v.has_file.handle
          (size_of f errno (f.fstat v.has_file.opened v.has_file.handle)).0)
        (with_handle x f errno o session v.has_file.handle
          (f.fstat v.has_file.opened v.has_file.handle).1)

  names-Opens :
      (local : BackendDriver (World C G) (StorageBackend (World C G)))
      → local.scheme ≡ codes "file"
      → Opens
          (registry local (smb_driver x f errno o))
          (credentials_of cli)
          (options_of cli)
          v.uri
          v.path
          w
          (smb_backend x f errno o (config x f errno o v.reached).config_label w.next_session)
          (smb_file f errno o w.next_session w.next_file)
          opened
  unfolding metadata_from_stat
  names-Opens local is_file = record {
    connected = connected;
    looked = looked;
    vfs_path = v.vfs_path;
    metadata = metadata_from_stat v.has_file.st;
    connects = connect_with-Reached x f errno o v.reached local is_file w refl;
    names = v.names;
    stats =
        stat-HasFile x f errno o HoldsAt v.vfs_path connected w.next_session session file v.has_file
          (put-same w.sessions w.next_session session) refl;
    no_directory = v.has_file.no_directory;
    opens =
        open_file-HasFile x f errno o HoldsAt v.vfs_path looked w.next_session session file
          v.has_file (put-same connected.sessions w.next_session _) refl;
  }

-- `krystallos cat` of a file on an SMB share, whatever the case of the scheme, the read-ahead, the chunk, the
-- negotiated read size and the short reads of the server, ends, with more rounds of its loop than the file
-- has bytes. Where it succeeds, standard output has exactly the file behind what was there; it fails only by
-- an error of `smb2_pread`, of `smb2_close` or of the terminal, so that it succeeds if those do not fail.
-- The share can be reached and has the file, terminal and libsmb2 do as documented, and sizes and a
-- `usize` fit in 64 bits.
pub run-OverSmb :
    {C G : Type 0} (x : Connector C G) (f : Libsmb2 C) (errno : Errno) (o : OpenFlags)
    (terminal : Host G) (HoldsAt : C → ℕ → List ℕ → Type 0) (Out : G → List ℕ → Type 0)
    (Allowed : Error → Type 0)
    → Documented x f errno o terminal HoldsAt Out Allowed
    → (local : BackendDriver (World C G) (StorageBackend (World C G))) → local.scheme ≡ codes "file"
    → (cli : Cli) (w : World C G) (g : G) (file : List ℕ) → Names x f errno o HoldsAt cli w g file
    → (usize_mod fuel : ℕ) (before : List ℕ) → u64_mod ≤ usize_mod
    → 0 < cli.chunk
    → length file < u64_mod
    → length file < fuel
    → Out g before
    → Printed
        (λ w'. Out w'.outside)
        Allowed
        (before ++ file)
        (run (hosted terminal) (registry local (smb_driver x f errno o)) usize_mod fuel cli w)
unfolding run dispatch
run-OverSmb x f errno o terminal HoldsAt Out Allowed documented local is_file cli w g file v
      usize_mod fuel before wide pos sized enough shown =
    simp v.asks (
      cat-shut-Printed (hosted terminal) (registry local (smb_driver x f errno o))
        (credentials_of cli) (options_of cli) (FileHolds HoldsAt w.next_session w.next_file)
        (Shown Out w.next_session) (λ w'. Out w'.outside) Allowed v.uri v.path w
        (opened x f errno o HoldsAt v)
        (smb_backend x f errno o (config x f errno o v.reached).config_label w.next_session)
        (smb_file f errno o w.next_session w.next_file)
        (names-Opens x f errno o HoldsAt v local is_file)
        (smb_file-Serves f errno o HoldsAt Allowed documented.preads w.next_session w.next_file)
        (smb_file-Appends x f errno o terminal HoldsAt Out Allowed documented w.next_session
          w.next_file)
        (on_outside-Keeps x f errno o terminal HoldsAt Out Allowed documented w.next_session
          terminal.flush_out documented.flushes)
        (smb_file-close-Keeps x f errno o terminal HoldsAt Out Allowed documented w.next_session
          w.next_file)
        (shutdown-Leads x f errno o terminal HoldsAt Out Allowed documented w.next_session)
        usize_mod cli.read_ahead cli.chunk fuel file before wide pos sized enough
        (with_new_file-FileHolds x f errno o HoldsAt v.vfs_path (looked x f errno o HoldsAt v)
          w.next_session (session x f errno o HoldsAt v) file v.has_file refl v.readable v.word _)
        (shown, alive_after (looked x f errno o HoldsAt v) w.next_session _ refl))
