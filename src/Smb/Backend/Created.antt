-- ===== src/Smb/Backend/Created.antt =====
-- How a file of a share comes to be open for writing, and what becomes of it.
use krystallos.Common.{
  ℕ, List, [], ◌++◌, ◌≤◌, ◌≡◌, refl, some, true, ◌<◌, ◌^◌, Text, length, u64_mod, take,
}
use krystallos.Core.Error.{Error, Result, ok}
use krystallos.Core.VfsPath.{VfsPath}
use krystallos.Core.FileHandle.{OpenMode}
use krystallos.Core.FileHandle.Contract.{Returns}
use krystallos.Smb.Libsmb2.{Libsmb2}
use krystallos.Smb.SmbPath.{to_smb_path, cstring}
use krystallos.Smb.Errors.{Errno}
use krystallos.Smb.OpenFiles
use krystallos.Smb.Operations
use krystallos.Smb.Operations.{OpenFlags, open_flags, size_of}
use krystallos.Smb.Actor
use krystallos.Smb.Actor.{close_all, close_handles}
use krystallos.Smb.RemoteFile.{
  Session, RemoteFile, call, open_remote, remote_write, remote_flush, remote_close,
}
use krystallos.Smb.RemoteFile.Stores.{Stores, RemoteTakes, RemoteKept}
use krystallos.Smb.RemoteFile.Writes.{remote_write-Post, remote_flush-Post, remote_close-Post}
use krystallos.Smb.Connection.{Connector, session_on, end_session}
use krystallos.Smb.Backend.{World, with_remote, smb_file, open_file, shutdown}
use krystallos.Smb.Backend.Reads.{put-same}
use krystallos.Smb.Backend.Opened.{new_file, with_handle, with_new_file}

-- On the context `c` libsmb2 opens the path in this mode, as a handle on which there is nothing yet.
pub record Creates {C : Type 0} (f : Libsmb2 C) (o : OpenFlags) (HoldsAt : C → ℕ → List ℕ → Type 0)
    (path : VfsPath) (mode : OpenMode) (c : C) : Type 0 where
  pub text : Text
  pub handle : ℕ
  pub opened : C
  pub speakable : cstring (to_smb_path path) ≡ ok text
  pub opens : f.open_path c text (open_flags o mode) ≡ (some handle, opened)
  pub empty : HoldsAt (f.fstat opened handle).1 handle []

-- The file `k` of the world is open on the session `n`, and holds this content.
abbrev pub FileTakes :
    {C G : Type 0} → (C → ℕ → List ℕ → Type 0) → ℕ → ℕ → World C G → List ℕ → Type 0
FileTakes HoldsAt n k w = RemoteTakes HoldsAt (w.files k, w.sessions n)

abbrev pub SessionKept : {C G : Type 0} → (C → List ℕ → Type 0) → ℕ → World C G → List ℕ → Type 0
SessionKept Kept n w = RemoteKept Kept (w.sessions n)

-- What the context that the session `n` had last says that the server keeps.
abbrev pub ShareKeeps : {C G : Type 0} → (C → List ℕ → Type 0) → ℕ → World C G → List ℕ → Type 0
ShareKeeps Kept n w content = Kept (w.sessions n).actor.ctx content

module _ {C G : Type 0} (x : Connector C G) (f : Libsmb2 C) (errno : Errno) (o : OpenFlags) where
  pub open_file-Creates :
      (HoldsAt : C → ℕ → List ℕ → Type 0) (path : VfsPath) (mode : OpenMode) (w : World C G) (n : ℕ)
      (s : Session C) (v : Creates f o HoldsAt path mode s.actor.ctx)
      → w.sessions n ≡ s
      → s.alive ≡ true
      → open_file f errno o n path mode w ≡ (
        ok (smb_file f errno o n w.next_file),
        with_new_file x f errno o w n
            (new_file x f errno o path s v.handle (size_of f errno (f.fstat v.opened v.handle)).0)
            (with_handle x f errno o s v.handle (f.fstat v.opened v.handle).1),
      )
  unfolding open_file open_remote call Actor.dispatch Operations.open_file OpenFiles.insert
  open_file-Creates HoldsAt path mode w n s v e live = simp (e, live, v.speakable, v.opens) refl

  pub with_new_file-FileTakes :
      (HoldsAt : C → ℕ → List ℕ → Type 0) (path : VfsPath) (mode : OpenMode) (w : World C G) (n : ℕ)
      (c : C) (v : Creates f o HoldsAt path mode c)
      → x.max_write_size c < 2 ^ 32
      → (len : ℕ)
      → FileTakes HoldsAt n w.next_file
          (with_new_file x f errno o w n
            (new_file x f errno o path (session_on x f errno c) v.handle len)
            (with_handle x f errno o
              (session_on x f errno c)
              v.handle
              (f.fstat v.opened v.handle).1))
          []
  unfolding OpenFiles.insert OpenFiles.put
  with_new_file-FileTakes HoldsAt path mode w n c v word len =
      let s = session_on x f errno c in
      rw
        (
          put-same w.files w.next_file (new_file x f errno o path s v.handle len),
          put-same w.sessions n (with_handle x f errno o s v.handle (f.fstat v.opened v.handle).1),
        )
        (record {
          still_open = refl;
          live = refl;
          word = word;
          handle = v.handle;
          alone = refl;
          held = v.empty;
        })

  module _ (HoldsAt : C → ℕ → List ℕ → Type 0) (Kept : C → List ℕ → Type 0)
      (Allowed : Error → Type 0) (contract : Stores f errno HoldsAt Kept Allowed) (n k : ℕ) where
    stored_back :
        {A : Type 0} (Holds : (RemoteFile × Session C) → A → Type 0) (w : World C G)
        (out : Result A × (RemoteFile × Session C))
        → Returns (λ a. Holds out.1 a) Allowed out.0
        → Returns
            (λ a. Holds ((with_remote w n k out).1.files k, (with_remote w n k out).1.sessions n) a)
            Allowed
            (with_remote w n k out).0
    stored_back Holds w (r, (remote, s)) p =
        rw (put-same w.files k remote, put-same w.sessions n s) p

    pub smb_file-stores :
        (w : World C G) (content bytes : List ℕ)
        → FileTakes HoldsAt n k w content
        → length content < u64_mod
        → let out = (smb_file {G = G} f errno o n k).write_at w (length content) bytes in
          Returns
            (λ (m : ℕ). (m ≤ length bytes) × FileTakes HoldsAt n k out.1 (content ++ take m bytes))
            Allowed
            out.0
    smb_file-stores w content bytes v small =
        stored_back (λ p m. (m ≤ length bytes) × RemoteTakes HoldsAt p (content ++ take m bytes)) w
          (remote_write f errno o (w.files k, w.sessions n) (length content) bytes)
          (remote_write-Post f errno o HoldsAt Kept Allowed contract (w.files k, w.sessions n)
            content bytes v small)

    pub smb_file-flushes :
        (w : World C G) (content : List ℕ)
        → FileTakes HoldsAt n k w content
        → let out = (smb_file {G = G} f errno o n k).flush w in
          Returns (λ _. FileTakes HoldsAt n k out.1 content) Allowed out.0
    smb_file-flushes w content v =
        stored_back (λ p u. RemoteTakes HoldsAt p content) w
          (remote_flush f errno o (w.files k, w.sessions n))
          (remote_flush-Post f errno o HoldsAt Kept Allowed contract (w.files k, w.sessions n)
            content v)

    pub smb_file-closes :
        (w : World C G) (content : List ℕ)
        → FileTakes HoldsAt n k w content
        → let out = (smb_file {G = G} f errno o n k).close w in
          Returns (λ _. SessionKept Kept n out.1 content) Allowed out.0
    smb_file-closes w content v =
        stored_back (λ p u. RemoteKept Kept p.1 content) w
          (remote_close f errno o (w.files k, w.sessions n))
          (remote_close-Post f errno o HoldsAt Kept Allowed contract (w.files k, w.sessions n)
            content v)

  pub shutdown-keeps :
      (Kept : C → List ℕ → Type 0) (Allowed : Error → Type 0) (n : ℕ) (w : World C G)
      (content : List ℕ)
      → SessionKept Kept n w content
      → let out = shutdown x f errno o n w in
        Returns (λ _. ShareKeeps Kept n out.1 content) Allowed out.0
  unfolding shutdown end_session close_all close_handles
  shutdown-keeps Kept Allowed n w content v =
      simp (v.live, v.none_left, put-same w.sessions n) v.kept
