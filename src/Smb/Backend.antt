-- ===== src/Smb/Backend.antt =====
-- crates/krystallos-smb/src/backend.rs and the forwarding methods of the `Session` of src/actor.rs:
-- `SmbBackend` and `SmbDriver`, over a world that holds the sessions and the files by number. A session
-- that is given up without a shutdown is left out, and so is the line for the debug variable.
pub mod Reads
pub mod Opened
pub mod Created
pub mod Gone
pub mod Shut
pub mod Secrets
use krystallos.Common.{
  ℕ, suc, List, [], ◌∷◌, Option, none, some, Bool, true, false, ◌==◌, if◌then◌else◌, Text, codes,
}
use krystallos.Core.Error.{Error, Result, ok, err, connection_lost}
use krystallos.Core.Entry.{Metadata, Entry}
use krystallos.Core.VfsPath.{VfsPath}
use krystallos.Core.FileHandle.{OpenMode, FileHandle}
use krystallos.Core.Run.{Run}
use krystallos.Core.Backend.{StorageBackend, full}
use krystallos.Core.Endpoint.{Endpoint}
use krystallos.Core.Registry.{BackendDriver, Credentials, ConnectionOptions}
use krystallos.Smb.Libsmb2.{Libsmb2}
use krystallos.Smb.Errors.{Errno}
use krystallos.Smb.Operations.{OpenFlags}
use krystallos.Smb.Actor
use krystallos.Smb.Actor.{Reply, entries, metadata}
use krystallos.Smb.Driver.{ConnectConfig, connect_config}
use krystallos.Smb.RemoteFile.{
  Session, SmbInfo, session_info, RemoteFile, call, unit_of, count_of, no_reply_reason, open_remote,
  remote_read, remote_write, remote_set_len, remote_flush, remote_close,
}
use krystallos.Smb.Connection.{Connector, connect_session, end_session}

-- `outside` is the process beside the sessions.
pub record World (C G : Type 0) : Type 0 where
  pub outside : G
  pub sessions : ℕ → Session C
  pub next_session : ℕ
  pub files : ℕ → RemoteFile
  pub next_file : ℕ

abbrev pub put : {A : Type 0} → (ℕ → A) → ℕ → A → ℕ → A
put f n a m = if m == n then a else f m

abbrev pub entries_of : Reply → Result (List Entry)
entries_of (entries r) = r
entries_of _ = err (connection_lost no_reply_reason)

abbrev pub metadata_of : Reply → Result Metadata
metadata_of (metadata r) = r
metadata_of _ = err (connection_lost no_reply_reason)

module _ {C G : Type 0} where
  abbrev pub with_session {ℓ} : {A : Type ℓ} → World C G → ℕ → A × Session C → A × World C G
  with_session w n (a, s) = (a, record w { sessions = put w.sessions n s })

  abbrev pub with_remote {ℓ} :
      {A : Type ℓ} → World C G → ℕ → ℕ → A × (RemoteFile × Session C) → A × World C G
  with_remote w n k (a, (r, s)) =
      (a, record w { sessions = put w.sessions n s; files = put w.files k r })

module _ {C G : Type 0} (f : Libsmb2 C) (errno : Errno) (o : OpenFlags) where
  -- A command for the session `n`.
  abbrev pub ask : {A : Type 0} → (Reply → Result A) → Actor.Command → ℕ → Run (World C G) A
  ask read command n w = with_session w n (call f errno o read command (w.sessions n))

  -- The calls of `Session` that are a command.
  unfoldable pub list_entries : ℕ → VfsPath → Run (World C G) (List Entry)
  list_entries n path = ask entries_of (Actor.list_entries path) n

  unfoldable pub stat : ℕ → VfsPath → Run (World C G) Metadata
  stat n path = ask metadata_of (Actor.stat path) n

  unfoldable pub mkdir : ℕ → VfsPath → Run (World C G) (Unit {0})
  mkdir n path = ask unit_of (Actor.mkdir path) n

  unfoldable pub remove_file : ℕ → VfsPath → Run (World C G) (Unit {0})
  remove_file n path = ask unit_of (Actor.remove_file path) n

  unfoldable pub remove_dir : ℕ → VfsPath → Run (World C G) (Unit {0})
  remove_dir n path = ask unit_of (Actor.remove_dir path) n

  unfoldable pub rename : ℕ → VfsPath → VfsPath → Run (World C G) (Unit {0})
  rename n from to = ask unit_of (Actor.rename from to) n

  unfoldable pub copy : ℕ → VfsPath → VfsPath → Run (World C G) ℕ
  copy n from to = ask count_of (Actor.copy from to) n

  -- A call of the file `k`, which stands on the session `n`.
  abbrev pub on_file :
      {A : Type 0}
      → (RemoteFile × Session C → Result A × (RemoteFile × Session C))
      → ℕ
      → ℕ
      → Run (World C G) A
  on_file do_it n k w = with_remote w n k (do_it (w.files k, w.sessions n))

  abbrev pub smb_file : ℕ → ℕ → FileHandle (World C G)
  smb_file n k = record {
    read_at = λ w offset len. on_file (λ p. remote_read f errno o p offset len) n k w;
    write_at = λ w offset content. on_file (λ p. remote_write f errno o p offset content) n k w;
    set_len = λ w len. on_file (λ p. remote_set_len f errno o p len) n k w;
    flush = on_file (remote_flush f errno o) n k;
    close = on_file (remote_close f errno o) n k;
    len = λ w. (w.files k).len;
  }

  abbrev pub filed :
      ℕ → World C G → Result RemoteFile × Session C → Result (FileHandle (World C G)) × World C G
  filed n w (err e, s) = (err e, record w { sessions = put w.sessions n s })
  filed n w (ok r, s) = (
    ok (smb_file n w.next_file),
    record w {
      sessions = put w.sessions n s;
      files = put w.files w.next_file r;
      next_file = suc w.next_file;
    },
  )

  unfoldable pub open_file : ℕ → VfsPath → OpenMode → Run (World C G) (FileHandle (World C G))
  open_file n path mode w = filed n w (open_remote f errno o (w.sessions n) path mode)

-- `SmbBackend::info`.
abbrev pub info : {C G : Type 0} → ℕ → World C G → SmbInfo
info n w = session_info (w.sessions n)

module _ {C G : Type 0} (x : Connector C G) (f : Libsmb2 C) (errno : Errno) (o : OpenFlags) where
  abbrev pub ended : ℕ → World C G → Session C × G → Result (Unit {0}) × World C G
  ended n w (s, g) = (ok tt, record w { outside = g; sessions = put w.sessions n s })

  unfoldable pub shutdown : ℕ → Run (World C G) (Unit {0})
  shutdown n w = ended n w (end_session x f errno o (w.sessions n) w.outside)

  -- `impl StorageBackend for SmbBackend`, on the session `n`.
  abbrev pub smb_backend : Text → ℕ → StorageBackend (World C G)
  smb_backend label n = record {
    endpoint = label;
    capabilities = full;
    list_entries = list_entries f errno o n;
    stat = stat f errno o n;
    open_file = open_file f errno o n;
    remove_file = remove_file f errno o n;
    remove_dir = remove_dir f errno o n;
    rename = rename f errno o n;
    copy = copy f errno o n;
    mkdir = mkdir f errno o n;
    shutdown = shutdown n;
  }

  abbrev pub connected :
      Text → World C G → Result (Session C) × G → Result (StorageBackend (World C G)) × World C G
  connected label w (err e, g) = (err e, record w { outside = g })
  connected label w (ok s, g) = (
    ok (smb_backend label w.next_session),
    record w {
      outside = g;
      sessions = put w.sessions w.next_session s;
      next_session = suc w.next_session;
    },
  )

  abbrev pub connect_to : Result ConnectConfig → Run (World C G) (StorageBackend (World C G))
  connect_to (err e) w = (err e, w)
  connect_to (ok config) w =
      connected config.config_label w (connect_session x f errno config w.outside)

  -- `SmbDriver::connect`.
  unfoldable pub connect :
      Endpoint → Credentials → ConnectionOptions → Run (World C G) (StorageBackend (World C G))
  connect e c options = connect_to (connect_config e c options)

  abbrev pub smb_driver : BackendDriver (World C G) (StorageBackend (World C G))
  smb_driver = record {
    scheme = codes "smb";
    description = codes "SMB2/3 share";
    connect = λ w e c options. connect e c options w;
  }
