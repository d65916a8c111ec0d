-- ===== src/Cli/Main/PutOverSmb.antt =====
-- `krystallos put smb://…`, from the arguments to the file that the server keeps.
use krystallos.Common.{ℕ, List, ◌≡◌, refl, ap, ◌<◌, ◌^◌, Text, codes, length, drop, u64_mod}
use krystallos.Core.Error.{Error, ok}
use krystallos.Core.VfsPath.{VfsPath, new}
use krystallos.Core.FileHandle.{write_mode, with_truncate}
use krystallos.Core.FileHandle.Contract.{IsRead, Returns}
use krystallos.Core.Backend.{StorageBackend}
use krystallos.Core.Registry.{BackendDriver}
use krystallos.Smb.Libsmb2.{Libsmb2}
use krystallos.Smb.Errors.{Errno}
use krystallos.Smb.Operations.{OpenFlags, size_of}
use krystallos.Smb.RemoteFile.{Session}
use krystallos.Smb.RemoteFile.Stores.{Stores}
use krystallos.Smb.Connection.{Connector, session_on}
use krystallos.Smb.Backend.{World, smb_file, smb_backend, smb_driver}
use krystallos.Smb.Backend.Reads.{put-same}
use krystallos.Smb.Backend.Opened.{with_new_session, with_new_file, new_file, with_handle}
use krystallos.Smb.Backend.Created.{
  Creates, FileTakes, SessionKept, ShareKeeps, open_file-Creates, with_new_file-FileTakes,
  smb_file-stores, smb_file-flushes, smb_file-closes, shutdown-keeps,
}
use krystallos.Cli.Upload.Contract.{Uploads, Failure}
use krystallos.Cli.Commands.{Host}
use krystallos.Cli.Commands.Streamed.{Printed}
use krystallos.Cli.Commands.Uploaded.{Prepares, put-shut-Stores}
use krystallos.Cli.Main.{Cli, put, dispatch, registry, run, credentials_of, options_of}
use krystallos.Cli.Main.Reached.{Reached, config, connect_with-Reached}
use krystallos.Cli.Main.Hosted.{hosted}

-- What libsmb2 and the local file that is uploaded document: that of a handle which takes bytes, and that
-- reading the file, of which `rest` is left, gives some of it, and nothing only at its end.
pub record Uploading {C G : Type 0} (f : Libsmb2 C) (errno : Errno) (terminal : Host G)
    (HoldsAt : C → ℕ → List ℕ → Type 0) (Kept : C → List ℕ → Type 0)
    (Left : ℕ → G → List ℕ → Type 0) (Allowed : Error → Type 0) : Type 0 where
  pub stores : Stores f errno HoldsAt Kept Allowed
  pub supplies :
      (n : ℕ) (g : G) (rest : List ℕ) (len : ℕ)
      → Left n g rest
      → Returns
          (λ (bytes : List ℕ).
            IsRead rest 0 len bytes
            × Left n (terminal.read_source n len g).1 (drop (length bytes) rest))
          Allowed
          (terminal.read_source n len g).0

-- The arguments name a share that can be reached, a path that opens on it for writing, with nothing in
-- the file then, and a local file that opens. In front of all this the world is `w`, behind it the process
-- beside the sessions is `measured`, and the local file has the number `source`.
pub record Targets {C G : Type 0} (x : Connector C G) (f : Libsmb2 C) (errno : Errno)
    (o : OpenFlags) (terminal : Host G) (HoldsAt : C → ℕ → List ℕ → Type 0) (cli : Cli)
    (w : World C G) (source : ℕ) (measured : G) : Type 0 where
  pub uri : Text
  pub path : Text
  pub src : Text
  pub vfs_path : VfsPath
  pub context : C
  pub reached_g : G
  pub sourced : G
  pub total : ℕ
  pub asks : cli.command ≡ put uri path src
  pub reached : Reached x f errno cli uri w.outside context reached_g
  pub names : new path ≡ ok vfs_path
  pub sources : terminal.open_source src reached_g ≡ (ok source, sourced)
  pub measures : terminal.source_len source sourced ≡ (ok total, measured)
  pub creates : Creates f o HoldsAt vfs_path (with_truncate write_mode) context
  pub word : x.max_write_size context < 2 ^ 32

module _ {C G : Type 0} (x : Connector C G) (f : Libsmb2 C) (errno : Errno) (o : OpenFlags)
    (terminal : Host G) (HoldsAt : C → ℕ → List ℕ → Type 0) {cli : Cli} {w : World C G} {source : ℕ}
    {measured : G} (v : Targets x f errno o terminal HoldsAt cli w source measured) where
  abbrev connected : World C G
  connected = with_new_session x f errno o w v.context v.reached_g

  abbrev session : Session C
  session = session_on x f errno v.context

  -- The world in which the file is open.
  abbrev opened : World C G
  opened =
      with_new_file x f errno o (record connected { outside = measured }) w.next_session
        (new_file x f errno o v.vfs_path session v.creates.handle
          (size_of f errno (f.fstat v.creates.opened v.creates.handle)).0)
        (with_handle x f errno o session v.creates.handle
          (f.fstat v.creates.opened v.creates.handle).1)

  targets-Prepares :
      (local : BackendDriver (World C G) (StorageBackend (World C G)))
      → local.scheme ≡ codes "file"
      → Prepares
          (hosted terminal)
          (registry local (smb_driver x f errno o))
          (credentials_of cli)
          (options_of cli)
          v.uri
          v.path
          v.src
          w
          (smb_backend x f errno o (config x f errno o v.reached).config_label w.next_session)
          source
          (smb_file f errno o w.next_session w.next_file)
          opened
  targets-Prepares local is_file = record {
    connected = connected;
    sourced = record connected { outside = v.sourced };
    measured = record connected { outside = measured };
    vfs_path = v.vfs_path;
    total = v.total;
    connects = connect_with-Reached x f errno o v.reached local is_file w refl;
    names = v.names;
    sources = ap (λ r. (r.0, record connected { outside = r.1 })) v.sources;
    measures = ap (λ r. (r.0, record connected { outside = r.1 })) v.measures;
    opens =
        open_file-Creates x f errno o HoldsAt v.vfs_path (with_truncate write_mode)
          (record connected { outside = measured }) w.next_session session v.creates
          (put-same w.sessions w.next_session session) refl;
  }

-- `krystallos put` of a local file on an SMB share ends, with more rounds of its loop than the file has bytes,
-- however short the reads of the local file and the writes of the server and whatever write size was
-- negotiated. Where it succeeds, the server keeps exactly the local file under the path; it fails only by an
-- error of a call of libsmb2 on the open file or of the read, or because a write takes no byte. The share can be
-- reached, path and local file open, and all of them do as documented; sizes fit in 64 bits.
pub run-PutOverSmb :
    {C G : Type 0} (x : Connector C G) (f : Libsmb2 C) (errno : Errno) (o : OpenFlags)
    (terminal : Host G) (HoldsAt : C → ℕ → List ℕ → Type 0) (Kept : C → List ℕ → Type 0)
    (Left : ℕ → G → List ℕ → Type 0) (Allowed : Error → Type 0)
    → Uploading f errno terminal HoldsAt Kept Left Allowed
    → (local : BackendDriver (World C G) (StorageBackend (World C G))) → local.scheme ≡ codes "file"
    → (cli : Cli) (w : World C G) (source : ℕ) (measured : G)
    → Targets x f errno o terminal HoldsAt cli w source measured
    → (usize_mod fuel : ℕ) (content : List ℕ) → length content < u64_mod
    → length content < fuel
    → Left source measured content
    → Printed
        (ShareKeeps Kept w.next_session)
        (Failure Allowed)
        content
        (run (hosted terminal) (registry local (smb_driver x f errno o)) usize_mod fuel cli w)
unfolding run dispatch
run-PutOverSmb x f errno o terminal HoldsAt Kept Left Allowed documented local is_file cli w source
      measured v usize_mod fuel content sized enough left =
    simp v.asks (
      put-shut-Stores (hosted terminal) (registry local (smb_driver x f errno o))
        (credentials_of cli) (options_of cli) (λ w'. Left source w'.outside)
        (FileTakes HoldsAt w.next_session w.next_file) (SessionKept Kept w.next_session)
        (ShareKeeps Kept w.next_session) Allowed v.uri v.path v.src w
        (opened x f errno o terminal HoldsAt v)
        (smb_backend x f errno o (config x f errno o v.reached).config_label w.next_session) source
        (smb_file f errno o w.next_session w.next_file)
        (targets-Prepares x f errno o terminal HoldsAt v local is_file) uploads
        (smb_file-flushes x f errno o HoldsAt Kept Allowed documented.stores w.next_session
          w.next_file)
        (smb_file-closes x f errno o HoldsAt Kept Allowed documented.stores w.next_session
          w.next_file)
        (shutdown-keeps x f errno o Kept Allowed w.next_session) fuel content sized enough
        (with_new_file-FileTakes x f errno o HoldsAt v.vfs_path (with_truncate write_mode)
          (record (connected x f errno o terminal HoldsAt v) { outside = measured }) w.next_session
          v.context v.creates v.word _)
        left)
  where
    uploads :
        Uploads
          ((hosted terminal).read_source source)
          (smb_file f errno o w.next_session w.next_file)
          (λ w'. Left source w'.outside)
          (FileTakes HoldsAt w.next_session w.next_file)
          Allowed
    uploads = record {
      supplies = λ w' rest content' n l c. (documented.supplies source w'.outside rest n l, c);
      stores = λ w' rest content' bytes l c small. (
        smb_file-stores x f errno o HoldsAt Kept Allowed documented.stores w.next_session
            w.next_file w' content' bytes c small,
        l,
      );
    }
