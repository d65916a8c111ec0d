-- ===== src/Smb/Connection.antt =====
-- crates/krystallos-smb/src/actor.rs: `SmbContext::connect` and its `Drop`, and `Session::connect`, with
-- the network start of crates/krystallos-sys-smb2/src/network.rs. A panic of the thread is left out.
pub mod Ledger
pub mod Reaches
pub mod Secrets
use krystallos.Common.{
  ℕ, zero, List, [], ◌∷◌, ◌++◌, ◌==◌, Option, none, some, Bool, true, false, if◌then◌else◌, Text,
  codes, ℤ, pos, negsuc, decimal,
}
use krystallos.Core.Error.{Error, Result, ok, err, ◌>>=◌, backend, IoKind, io}
use krystallos.Smb.Libsmb2.{Libsmb2}
use krystallos.Smb.SmbPath.{cstring}
use krystallos.Smb.Errors.{Errno}
use krystallos.Smb.Operations.{OpenFlags, context_error}
use krystallos.Smb.OpenFiles.{no_files}
use krystallos.Smb.Actor.{Actor, Command, actor_thread, close_all}
use krystallos.Smb.Driver.{ConnectConfig}
use krystallos.Smb.RemoteFile.{Session}

-- The calls of libsmb2 that make, set up and end a context, and the start of a thread and of the
-- sockets, over the state `G` of the process beside the contexts.
pub record Connector (C G : Type 0) : Type 0 where
  pub start_sockets : G → Option Text × G
  pub spawn : G → Option IoKind × G
  pub init_context : G → Option C × G
  pub destroy_context : C → G → G
  pub set_user : Text → C → C
  pub set_password : Text → C → C
  pub set_domain : Text → C → C
  pub set_seal : Bool → C → C
  pub set_timeout : ℕ → C → C
  pub connect_share : Text → Text → Option Text → C → ℤ × C
  pub disconnect_share : C → C
  pub max_read_size : C → ℕ
  pub max_write_size : C → ℕ
  pub dialect : C → ℕ

abbrev pub no_context_reason : Text
no_context_reason = codes "libsmb2 could not allocate a session context"

-- The texts of a configuration, as C strings.
pub record Strings : Type 0 where
  pub user : Option Text
  pub password : Option Text
  pub domain : Option Text
  pub server : Text
  pub share : Text

-- `as_deref().map(cstring).transpose()`.
abbrev pub optional_cstring : Option Text → Result (Option Text)
optional_cstring none = ok none
optional_cstring (some s) = cstring s >>= λ t. ok (some t)

unfoldable pub strings_of : ConnectConfig → Result Strings
strings_of config = do
  user ← optional_cstring config.config_user
  password ← optional_cstring config.config_password
  domain ← optional_cstring config.config_domain
  server ← cstring config.config_server
  share ← cstring config.config_share
  ok (record { user = user; password = password; domain = domain; server = server; share = share })

module _ {C G : Type 0} (x : Connector C G) (f : Libsmb2 C) (errno : Errno) where
  -- `Drop for SmbContext`.
  unfoldable pub drop_context : C → G → G
  drop_context c g = x.destroy_context (x.disconnect_share c) g

  abbrev pub where_given : (Text → C → C) → Option Text → C → C
  where_given set none c = c
  where_given set (some s) c = set s c

  -- What is set before the handshake.
  unfoldable pub configured : ConnectConfig → Strings → C → C
  configured config s c = x.set_timeout config.timeout_secs (
      x.set_seal config.seal (
        where_given x.set_domain s.domain
          (where_given x.set_password s.password (where_given x.set_user s.user c))))

  -- An error drops the context.
  abbrev pub shaken : ConnectConfig → G → ℤ × C → Result C × G
  shaken config g (pos zero, c) = (ok c, g)
  shaken config g (rc, c) = (err (context_error f errno c rc config.config_label), drop_context c g)

  abbrev pub handshake : ConnectConfig → C → G → Result Strings → Result C × G
  handshake config c g (err e) = (err e, drop_context c g)
  handshake config c g (ok s) =
      shaken config g (x.connect_share s.server s.share s.user (configured config s c))

  abbrev pub allocated : ConnectConfig → Option C × G → Result C × G
  allocated config (none, g) = (err (backend no_context_reason), g)
  allocated config (some c, g) = handshake config c g (strings_of config)

  abbrev pub networked : ConnectConfig → Option Text × G → Result C × G
  networked config (some message, g) = (err (backend message), g)
  networked config (none, g) = allocated config (x.init_context g)

  -- `SmbContext::connect`.
  unfoldable pub connect_context : ConnectConfig → G → Result C × G
  connect_context config g = networked config (x.start_sockets g)

  abbrev pub session_on : C → Session C
  session_on c = record {
    actor = record { ctx = c; files = no_files };
    alive = true;
    max_read_size = x.max_read_size c;
    max_write_size = x.max_write_size c;
    dialect = x.dialect c;
  }

  abbrev pub reported : Result C × G → Result (Session C) × G
  reported (err e, g) = (err e, g)
  reported (ok c, g) = (ok (session_on c), g)

  abbrev pub spawned : ConnectConfig → Option IoKind × G → Result (Session C) × G
  spawned config (some kind, g) = (err (io kind), g)
  spawned config (none, g) = reported (connect_context config g)

  -- `Session::connect`.
  unfoldable pub connect_session : ConnectConfig → G → Result (Session C) × G
  connect_session config g = spawned config (x.spawn g)

module _ {C G : Type 0} (x : Connector C G) (f : Libsmb2 C) (errno : Errno) (o : OpenFlags) where
  -- The end of the thread: it closes the handles, and drops the context.
  abbrev pub finished : Actor C → G → G
  finished a g = drop_context x f errno a.ctx g

  -- The thread as a whole, with the commands that reach it.
  abbrev pub served : List Command → Result C × G → G
  served commands (err e, g) = g
  served commands (ok c, g) = finished (actor_thread f errno o c commands) g

  unfoldable pub thread_of : ConnectConfig → List Command → G → G
  thread_of config commands g = served commands (connect_context x f errno config g)

  -- `Session::shutdown`: the reply of the command comes before the handles are closed; the join waits
  -- for the end of the thread.
  unfoldable pub end_session : Session C → G → Session C × G
  end_session s g =
      if s.alive
      then (
        record s { actor = close_all f errno o s.actor; alive = false },
        finished (close_all f errno o s.actor) g,
      )
      else (s, g)
