-- ===== src/Smb/Backend/Opened.antt =====
-- How a file of a share that libsmb2 has comes to be open on a session of the world.
use krystallos.Common.{
  ℕ, suc, List, ◌≡◌, refl, some, false, true, ◌<◌, ◌^◌, Text, pos, arith, ◌∙◌, if_true, add_u64,
  ◌==◌,
}
use krystallos.Core.Error.{ok}
use krystallos.Core.Entry.{is_dir_kind}
use krystallos.Core.VfsPath.{VfsPath}
use krystallos.Core.FileHandle.{read_mode}
use krystallos.Smb.Libsmb2.{Libsmb2, Stat}
use krystallos.Smb.SmbPath.{to_smb_path, cstring}
use krystallos.Smb.Errors.{Errno}
use krystallos.Smb.OpenFiles
use krystallos.Smb.OpenFiles.{OpenFiles}
use krystallos.Smb.OpenFiles.Table.{lookup-put}
use krystallos.Smb.Operations
use krystallos.Smb.Operations.{OpenFlags, open_flags, kind_of, metadata_from_stat, size_of}
use krystallos.Smb.Actor
use krystallos.Smb.RemoteFile.{Session, RemoteFile, call, open_remote}
use krystallos.Smb.Connection.{Connector, session_on}
use krystallos.Smb.Connection.Reaches.{Reaches, connect_session-Reaches}
use krystallos.Smb.Driver.{ConnectConfig}
use krystallos.Smb.Backend.{World, put, stat, open_file, smb_file, smb_backend, connect_to}
use krystallos.Smb.Backend.Reads.{FileHolds, put-same}

-- On the context `c` libsmb2 knows the path, as no directory, and opens it for reading as a handle on which
-- it holds the file; the size that it tells of the handle, or that it cannot, is of no matter here.
pub record HasFile {C : Type 0} (f : Libsmb2 C) (o : OpenFlags) (HoldsAt : C → ℕ → List ℕ → Type 0)
    (path : VfsPath) (c : C) (file : List ℕ) : Type 0 where
  pub text : Text
  pub st : Stat
  pub looked : C
  pub handle : ℕ
  pub opened : C
  pub speakable : cstring (to_smb_path path) ≡ ok text
  pub stats : f.stat c text ≡ ((pos 0, st), looked)
  pub no_directory : is_dir_kind (kind_of st.smb2_type) ≡ false
  pub opens : f.open_path looked text (open_flags o read_mode) ≡ (some handle, opened)
  pub held : HoldsAt (f.fstat opened handle).1 handle file

get-insert :
    (files : OpenFiles) (handle : ℕ)
    → OpenFiles.get (OpenFiles.insert files handle).1 (OpenFiles.insert files handle).0
      ≡ some handle
unfolding OpenFiles.get OpenFiles.insert
get-insert files handle =
    let id = add_u64 files.next_id 1 in
    let same : (id == id) ≡ true = ground arith in
    lookup-put id id handle files.handles ∙ if_true _ _ same

module _ {C G : Type 0} (x : Connector C G) (f : Libsmb2 C) (errno : Errno) (o : OpenFlags) where
  -- The world behind a connect, behind the stat, and behind the open.
  abbrev pub with_new_session : World C G → C → G → World C G
  with_new_session w c g = record w {
    outside = g;
    sessions = put w.sessions w.next_session (session_on x f errno c);
    next_session = suc w.next_session;
  }

  pub connect_to-Reaches :
      (config : ConnectConfig) (w : World C G) (c : C) (g : G)
      → Reaches x f errno config w.outside c g
      → connect_to x f errno o (ok config) w
        ≡ (ok (smb_backend x f errno o config.config_label w.next_session), with_new_session w c g)
  connect_to-Reaches config w c g r =
      rw (connect_session-Reaches x f errno config w.outside c g r) refl

  pub stat-HasFile :
      (HoldsAt : C → ℕ → List ℕ → Type 0) (path : VfsPath) (w : World C G) (n : ℕ) (s : Session C)
      (file : List ℕ) (h : HasFile f o HoldsAt path s.actor.ctx file)
      → w.sessions n ≡ s
      → s.alive ≡ true
      → stat f errno o n path w ≡ (
        ok (metadata_from_stat h.st),
        record w {
          sessions = put w.sessions n (record s { actor = record s.actor { ctx = h.looked } });
        },
      )
  unfolding stat call Actor.dispatch Operations.stat_path
  stat-HasFile HoldsAt path w n s file h e live = simp (e, live, h.speakable, h.stats) refl

  -- The session behind the open.
  abbrev pub with_handle : Session C → ℕ → C → Session C
  with_handle s handle c = record s {
    actor = record { ctx = c; files = (OpenFiles.insert s.actor.files handle).1 };
  }

  abbrev pub new_file : VfsPath → Session C → ℕ → ℕ → RemoteFile
  new_file path s handle len = record {
    id = (OpenFiles.insert s.actor.files handle).0;
    len = len;
    closed = false;
    path = path;
  }

  pub open_remote-HasFile :
      (HoldsAt : C → ℕ → List ℕ → Type 0) (path : VfsPath) (s : Session C) (file : List ℕ)
      (h : HasFile f o HoldsAt path s.actor.ctx file)
      → s.alive ≡ true
      → open_remote f errno o
          (record s { actor = record s.actor { ctx = h.looked } })
          path
          read_mode
        ≡ (
          ok (new_file path s h.handle (size_of f errno (f.fstat h.opened h.handle)).0),
          with_handle s h.handle (f.fstat h.opened h.handle).1,
        )
  unfolding open_remote call Actor.dispatch Operations.open_file OpenFiles.insert
  open_remote-HasFile HoldsAt path s file h live = simp (live, h.speakable, h.opens) refl

  abbrev pub with_new_file : World C G → ℕ → RemoteFile → Session C → World C G
  with_new_file w n r s = record w {
    sessions = put w.sessions n s;
    files = put w.files w.next_file r;
    next_file = suc w.next_file;
  }

  pub open_file-HasFile :
      (HoldsAt : C → ℕ → List ℕ → Type 0) (path : VfsPath) (w : World C G) (n : ℕ) (s : Session C)
      (file : List ℕ) (h : HasFile f o HoldsAt path s.actor.ctx file)
      → w.sessions n ≡ record s { actor = record s.actor { ctx = h.looked } }
      → s.alive ≡ true
      → open_file f errno o n path read_mode w ≡ (
        ok (smb_file f errno o n w.next_file),
        with_new_file w n
            (new_file path s h.handle (size_of f errno (f.fstat h.opened h.handle)).0)
            (with_handle s h.handle (f.fstat h.opened h.handle).1),
      )
  unfolding open_file
  open_file-HasFile HoldsAt path w n s file h e live =
      simp (e, open_remote-HasFile HoldsAt path s file h live) refl

  -- What is open so is a file that the handle of the backend serves.
  pub with_new_file-FileHolds :
      (HoldsAt : C → ℕ → List ℕ → Type 0) (path : VfsPath) (w : World C G) (n : ℕ) (s : Session C)
      (file : List ℕ) (h : HasFile f o HoldsAt path s.actor.ctx file)
      → s.alive ≡ true
      → 0 < s.max_read_size
      → s.max_read_size < 2 ^ 32
      → (len : ℕ)
      → FileHolds HoldsAt n w.next_file
          (with_new_file w n
            (new_file path s h.handle len)
            (with_handle s h.handle (f.fstat h.opened h.handle).1))
          file
  with_new_file-FileHolds HoldsAt path w n s file h live readable word len =
      rw
        (
          put-same w.files w.next_file (new_file path s h.handle len),
          put-same w.sessions n (with_handle s h.handle (f.fstat h.opened h.handle).1),
        )
        (record {
          still_open = refl;
          live = live;
          readable = readable;
          word = word;
          handle = h.handle;
          known = get-insert s.actor.files h.handle;
          held = h.held;
        })
