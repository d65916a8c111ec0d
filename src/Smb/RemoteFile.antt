-- ===== src/Smb/RemoteFile.antt =====
-- crates/krystallos-smb/src/file.rs and the `Session` of src/actor.rs: a file on a session, as a
-- `FileHandle` whose every call is a command for the session thread.
pub mod Reads
pub mod Closing
pub mod Alive
pub mod Stores
pub mod Writes
use krystallos.Common
use krystallos.Common.{
  ℕ, List, [], ◌++◌, ◌%◌, ◌^◌, min, max, Bool, true, false, ◌==◌, if◌then◌else◌, Text, codes,
  length, null, add_u64,
}
use krystallos.Core.Error.{Error, Result, ok, err, backend, connection_lost}
use krystallos.Core.FileHandle.{FileHandle, OpenMode}
use krystallos.Core.VfsPath.{VfsPath}
use krystallos.Smb.Libsmb2.{Libsmb2}
use krystallos.Smb.Errors.{Errno}
use krystallos.Smb.Operations.{OpenFlags}
use krystallos.Smb.Actor.{
  Command, Reply, Actor, dispatch, close_all, read_at, write_at, set_len, flush, close, open_path,
  shutdown, unit, count, handle, bytes, stopped,
}

-- The session as its callers see it; the thread is gone once `alive` is false.
pub record Session (C : Type 0) : Type 0 where
  pub actor : Actor C
  pub alive : Bool
  pub max_read_size : ℕ
  pub max_write_size : ℕ
  pub dialect : ℕ

-- What a session negotiated.
pub record SmbInfo : Type 0 where
  pub dialect : ℕ
  pub max_read_size : ℕ
  pub max_write_size : ℕ

abbrev pub session_info : {C : Type 0} → Session C → SmbInfo
session_info s = record {
  dialect = s.dialect;
  max_read_size = s.max_read_size;
  max_write_size = s.max_write_size;
}

pub record RemoteFile : Type 0 where
  pub id : ℕ
  pub len : ℕ
  pub closed : Bool
  pub path : VfsPath

abbrev pub exited_reason : Text
exited_reason = codes "the SMB session thread has exited"

abbrev pub no_reply_reason : Text
no_reply_reason = codes "the SMB session ended without replying"

-- The reply that the sender of a command waits for.
abbrev pub bytes_of : Reply → Result (List ℕ)
bytes_of (bytes r) = r
bytes_of _ = err (connection_lost no_reply_reason)

abbrev pub count_of : Reply → Result ℕ
count_of (count r) = r
count_of _ = err (connection_lost no_reply_reason)

abbrev pub unit_of : Reply → Result (Unit {0})
unit_of (unit r) = r
unit_of _ = err (connection_lost no_reply_reason)

abbrev pub handle_of : Reply → Result (ℕ × ℕ)
handle_of (handle r) = r
handle_of _ = err (connection_lost no_reply_reason)

abbrev pub closed_error : RemoteFile → Error
closed_error r = backend (r.path.raw ++ codes " is already closed")

module _ {C : Type 0} (f : Libsmb2 C) (errno : Errno) (o : OpenFlags) where
  abbrev pub replied {ℓ} :
      {A : Type ℓ} → (Reply → Result A) → Session C → Reply × Actor C → Result A × Session C
  replied read s (reply, a) = (read reply, record s { actor = a })

  -- `Session::call`: a command that cannot be sent is a lost connection.
  unfoldable pub call {ℓ} :
      {A : Type ℓ} → (Reply → Result A) → Command → Session C → Result A × Session C
  call read command s =
      if s.alive
      then replied read s (dispatch f errno o command s.actor)
      else (err (connection_lost exited_reason), s)

  -- The reply of a shutdown comes before the handles are closed; the join waits for that.
  unfoldable pub shutdown_session : Session C → Result (Unit {0}) × Session C
  shutdown_session s =
      if s.alive
      then (ok tt, record s { actor = close_all f errno o s.actor; alive = false })
      else (ok tt, s)

  abbrev pub opened_file : VfsPath → Result (ℕ × ℕ) × Session C → Result RemoteFile × Session C
  opened_file path (err e, s) = (err e, s)
  opened_file path (ok (id, len), s) =
      (ok (record { id = id; len = len; closed = false; path = path }), s)

  unfoldable pub open_remote : Session C → VfsPath → OpenMode → Result RemoteFile × Session C
  open_remote s path mode = opened_file path (call handle_of (open_path path mode) s)

  abbrev pub Remote : Type 0
  Remote = RemoteFile × Session C

  abbrev pub filled : RemoteFile → ℕ → Result (List ℕ) × Session C → Result (List ℕ) × Remote
  filled r n (err e, s) = (err e, (r, s))
  filled r n (ok content, s) = (ok (Common.take (min (length content) n) content), (r, s))

  unfoldable pub remote_read : Remote → ℕ → ℕ → Result (List ℕ) × Remote
  remote_read (r, s) offset n =
      if n == 0
      then (ok [], (r, s))
      else if r.closed
      then (err (closed_error r), (r, s))
      else filled r n (call bytes_of (read_at r.id offset (min n s.max_read_size % 2 ^ 32)) s)

  abbrev pub extended : RemoteFile → ℕ → Result ℕ × Session C → Result ℕ × Remote
  extended r offset (err e, s) = (err e, (r, s))
  extended r offset (ok written, s) =
      (ok written, (record r { len = max r.len (add_u64 offset written) }, s))

  unfoldable pub remote_write : Remote → ℕ → List ℕ → Result ℕ × Remote
  remote_write (r, s) offset buf =
      if null buf
      then (ok 0, (r, s))
      else if r.closed
      then (err (closed_error r), (r, s))
      else extended r offset (
          call count_of (write_at r.id offset (Common.take (min (length buf) s.max_write_size) buf))
            s)

  abbrev pub resized : RemoteFile → ℕ → Result (Unit {0}) × Session C → Result (Unit {0}) × Remote
  resized r n (err e, s) = (err e, (r, s))
  resized r n (ok u, s) = (ok u, (record r { len = n }, s))

  unfoldable pub remote_set_len : Remote → ℕ → Result (Unit {0}) × Remote
  remote_set_len (r, s) n =
      if r.closed
      then (err (closed_error r), (r, s))
      else resized r n (call unit_of (set_len r.id n) s)

  abbrev pub with_file {ℓ} : {A : Type ℓ} → RemoteFile → A × Session C → A × Remote
  with_file r (a, s) = (a, (r, s))

  unfoldable pub remote_flush : Remote → Result (Unit {0}) × Remote
  remote_flush (r, s) =
      if r.closed then (err (closed_error r), (r, s)) else with_file r (call unit_of (flush r.id) s)

  -- The swap of `closed` lets one caller through.
  unfoldable pub remote_close : Remote → Result (Unit {0}) × Remote
  remote_close (r, s) =
      if r.closed
      then (ok tt, (r, s))
      else with_file (record r { closed = true }) (call unit_of (close r.id) s)

  -- `Drop`: the close is queued and its reply is dropped (`close_detached`).
  unfoldable pub remote_drop : Remote → Session C
  remote_drop (r, s) = if r.closed then s else (call unit_of (close r.id) s).1

  -- `impl FileHandle for RemoteFile`.
  abbrev pub remote_file : FileHandle Remote
  remote_file = record {
    read_at = remote_read;
    write_at = remote_write;
    set_len = remote_set_len;
    flush = remote_flush;
    close = remote_close;
    len = λ p. p.0.len;
  }
