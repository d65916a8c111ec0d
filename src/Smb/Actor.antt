-- ===== src/Smb/Actor.antt =====
-- crates/krystallos-smb/src/actor.rs: the session thread. A command waits for its reply, so a session
-- is the list of the commands that the channel delivers, in order.
pub mod Handles
use krystallos.Common.{ℕ, List, [], ◌∷◌, Option, none, some, Text, ℤ}
use krystallos.Core.Error.{Error, Result, ok, err}
use krystallos.Core.Entry.{Metadata, Entry}
use krystallos.Core.FileHandle.{OpenMode}
use krystallos.Core.VfsPath.{VfsPath}
use krystallos.Smb.Libsmb2.{Libsmb2}
use krystallos.Smb.Errors.{Errno}
use krystallos.Smb.OpenFiles.{OpenFiles, no_files}
use krystallos.Smb.Operations
use krystallos.Smb.Operations.{OpenFlags}
use krystallos.Smb.Copying

-- A command, less the channel for its reply.
pub data Command : Type 0 where
  list_entries : VfsPath → Command
  stat : VfsPath → Command
  mkdir : VfsPath → Command
  remove_file : VfsPath → Command
  remove_dir : VfsPath → Command
  rename : VfsPath → VfsPath → Command
  copy : VfsPath → VfsPath → Command
  open_path : VfsPath → OpenMode → Command
  close : ℕ → Command
  read_at : ℕ → ℕ → ℕ → Command
  write_at : ℕ → ℕ → List ℕ → Command
  set_len : ℕ → ℕ → Command
  flush : ℕ → Command
  shutdown : Command

-- `unfinished` stands for a copy whose fuel ran out.
pub data Reply : Type 0 where
  entries : Result (List Entry) → Reply
  metadata : Result Metadata → Reply
  unit : Result (Unit {0}) → Reply
  count : Result ℕ → Reply
  handle : Result (ℕ × ℕ) → Reply
  bytes : Result (List ℕ) → Reply
  stopped : Reply
  unfinished : Reply

pub record Actor (C : Type 0) : Type 0 where
  pub ctx : C
  pub files : OpenFiles

module _ {C : Type 0} where
  -- A reply of an operation that leaves the table of handles alone.
  abbrev pub keep {ℓ} : {A : Type ℓ} → (A → Reply) → OpenFiles → A × C → Reply × Actor C
  keep reply files (a, c) = (reply a, record { ctx = c; files = files })

  abbrev pub change {ℓ} : {A : Type ℓ} → (A → Reply) → A × (OpenFiles × C) → Reply × Actor C
  change reply (a, (files, c)) = (reply a, record { ctx = c; files = files })

  abbrev pub keep_copy : Actor C → Option (Result ℕ × C) → Reply × Actor C
  keep_copy s none = (unfinished, s)
  keep_copy s (some out) = keep count s.files out

module _ {C : Type 0} (f : Libsmb2 C) (errno : Errno) (o : OpenFlags) where
  -- One arm of the `match command` for each command.
  unfoldable pub dispatch : Command → Actor C → Reply × Actor C
  dispatch (list_entries path) s = keep entries s.files (Operations.list_dir f errno s.ctx path)
  dispatch (stat path) s = keep metadata s.files (Operations.stat_path f errno s.ctx path)
  dispatch (mkdir path) s = keep unit s.files (Operations.mkdir f errno s.ctx path)
  dispatch (remove_file path) s = keep unit s.files (Operations.remove_file f errno s.ctx path)
  dispatch (remove_dir path) s = keep unit s.files (Operations.remove_dir f errno s.ctx path)
  dispatch (rename from to) s = keep unit s.files (Operations.rename f errno s.ctx from to)
  dispatch (copy from to) s = keep_copy s (Copying.copy_file f errno o s.ctx from to)
  dispatch (open_path path mode) s =
      change handle (Operations.open_file f errno o s.ctx s.files path mode)
  dispatch (close id) s = change unit (Operations.close_file f errno s.ctx s.files id)
  dispatch (read_at id offset len) s =
      keep bytes s.files (Operations.read_at f errno s.ctx s.files id offset len)
  dispatch (write_at id offset content) s =
      keep count s.files (Operations.write_at f errno s.ctx s.files id offset content)
  dispatch (set_len id len) s = keep unit s.files (Operations.set_len f errno s.ctx s.files id len)
  dispatch (flush id) s = keep unit s.files (Operations.flush f errno s.ctx s.files id)
  dispatch shutdown s = (stopped, s)

  -- `OpenFiles::close_all`: `drain`, and a close of each handle.
  unfoldable pub close_handles : List (ℕ × ℕ) → C → C
  close_handles [] c = c
  close_handles ((id, fh) ∷ rest) c = close_handles rest (f.close c fh).1

  unfoldable pub close_all : Actor C → Actor C
  close_all s = record {
    ctx = close_handles s.files.handles s.ctx;
    files = record { handles = []; next_id = s.files.next_id };
  }

  -- `while let Ok(command) = rx.recv()`: the loop ends with the channel, or at a shutdown; what is
  -- still queued behind that is dropped.
  unfoldable pub serve : List Command → Actor C → Actor C
  serve [] s = s
  serve (shutdown ∷ rest) s = (dispatch shutdown s).1
  serve (command ∷ rest) s = serve rest (dispatch command s).1

  -- The thread behind a connect that succeeded, up to the drop of the context.
  unfoldable pub actor_thread : C → List Command → Actor C
  actor_thread c commands = close_all (serve commands (record { ctx = c; files = no_files }))
