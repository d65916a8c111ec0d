-- ===== src/Smb/Backend/Shut.antt =====
-- What is left of a backend behind its shutdown.
use mathlib.Core.Path.{fun_ext}
use krystallos.Common.{
  ℕ, ◌+◌, ◌<◌, List, ◌∷◌, ◌≡◌, refl, ap, ◌∙◌, arith, true, false, Bool-cases, inl, inr, ◌==◌,
  if_true, if_false,
}
use krystallos.Core.Error.{Error, Result, ok, err, connection_lost}
use krystallos.Core.VfsPath.{VfsPath}
use krystallos.Core.FileHandle.{OpenMode}
use krystallos.Smb.Libsmb2.{Libsmb2}
use krystallos.Smb.Errors.{Errno}
use krystallos.Smb.Operations.{OpenFlags}
use krystallos.Smb.Actor.{Command, Reply, open_path, close}
use krystallos.Smb.RemoteFile.{
  Session, RemoteFile, call, exited_reason, filled, extended, resized, with_file, bytes_of,
  count_of, unit_of, handle_of, open_remote, remote_read, remote_write, remote_set_len,
  remote_flush, remote_close,
}
use krystallos.Smb.Connection.{Connector, end_session}
use krystallos.Smb.Backend.{
  World, put, ask, with_remote, smb_file, open_file, shutdown, list_entries, stat, mkdir,
  remove_file, remove_dir, rename, copy,
}
use krystallos.Smb.Backend.Reads.{put-same}
use krystallos.Smb.Backend.Gone.{IsGone, Reach, Reach-IsGone, end_session-gone}

abbrev pub lost : Error
lost = connection_lost exited_reason

put-itself : {A : Type 0} (f : ℕ → A) (n : ℕ) → put f n (f n) ≡ f
put-itself f n = fun_ext (at n)
  where
    at : (n m : ℕ) → put f n (f n) m ≡ f m
    at n m = elim (Bool-cases (m == n)) [
      | inl t ↦ if_true (f n) (f m) t ∙ ap f (ground (arith, t))
      | inr t ↦ if_false (f n) (f m) t
    ]

module _ {C G : Type 0} (x : Connector C G) (f : Libsmb2 C) (errno : Errno) (o : OpenFlags) where
  -- Every call of the backend on the session `n` that asks its thread, and of a file on it that was not
  -- closed, fails as a lost connection, and a further shutdown succeeds. A close marks its file as closed;
  -- nothing else changes, so libsmb2 is not called.
  pub record Refuses (n : ℕ) (w : World C G) : Type 0 where
    pub shuts : shutdown x f errno o n w ≡ (ok tt, w)
    pub lists : (path : VfsPath) → list_entries f errno o n path w ≡ (err lost, w)
    pub stats : (path : VfsPath) → stat f errno o n path w ≡ (err lost, w)
    pub mkdirs : (path : VfsPath) → mkdir f errno o n path w ≡ (err lost, w)
    pub removes_file : (path : VfsPath) → remove_file f errno o n path w ≡ (err lost, w)
    pub removes_dir : (path : VfsPath) → remove_dir f errno o n path w ≡ (err lost, w)
    pub renames : (from to : VfsPath) → rename f errno o n from to w ≡ (err lost, w)
    pub copies : (from to : VfsPath) → copy f errno o n from to w ≡ (err lost, w)
    pub opens :
        (path : VfsPath) (mode : OpenMode) → open_file f errno o n path mode w ≡ (err lost, w)
    pub reads :
        (k offset len : ℕ)
        → (w.files k).closed ≡ false
        → (smb_file f errno o n k).read_at w offset (len + 1) ≡ (err lost, w)
    pub writes :
        (k offset b : ℕ) (bs : List ℕ)
        → (w.files k).closed ≡ false
        → (smb_file f errno o n k).write_at w offset (b ∷ bs) ≡ (err lost, w)
    pub resizes :
        (k len : ℕ)
        → (w.files k).closed ≡ false
        → (smb_file f errno o n k).set_len w len ≡ (err lost, w)
    pub flushes :
        (k : ℕ) → (w.files k).closed ≡ false → (smb_file f errno o n k).flush w ≡ (err lost, w)
    pub closes :
        (k : ℕ)
        → (w.files k).closed ≡ false
        → (smb_file f errno o n k).close w
          ≡ (err lost, record w { files = put w.files k (record (w.files k) { closed = true }) })

  call-gone :
      {A : Type 0} (read : Reply → Result A) (command : Command) (s : Session C)
      → s.alive ≡ false
      → call f errno o read command s ≡ (err lost, s)
  unfolding call
  call-gone read command s e = if_false _ _ e

  ask-gone :
      {A : Type 0} (read : Reply → Result A) (command : Command) (n : ℕ) (w : World C G)
      → (w.sessions n).alive ≡ false
      → ask f errno o read command n w ≡ (err lost, w)
  ask-gone read command n w e =
      simp (call-gone read command (w.sessions n) e, put-itself w.sessions n) refl

  -- A call of a file that changed neither the file nor the session.
  on_file-unchanged :
      {A : Type 0} (n k : ℕ) (w : World C G) (r : Result A)
      → with_remote w n k (r, (w.files k, w.sessions n)) ≡ (r, w)
  on_file-unchanged n k w r = simp (put-itself w.sessions n, put-itself w.files k) refl

  -- The calls of a file that is open on a session that is gone.
  module _ (r : RemoteFile) (s : Session C) (still_open : r.closed ≡ false)
      (gone : s.alive ≡ false) where
    remote_read-gone :
        (offset len : ℕ) → remote_read f errno o (r, s) offset (len + 1) ≡ (err lost, (r, s))
    unfolding remote_read
    remote_read-gone offset len =
        if_false {b = len + 1 == 0} _ _ (ground arith)
        ∙ if_false _ _ still_open
        ∙ ap (filled f errno o r (len + 1)) (call-gone bytes_of _ s gone)

    remote_write-gone :
        (offset b : ℕ) (bs : List ℕ)
        → remote_write f errno o (r, s) offset (b ∷ bs) ≡ (err lost, (r, s))
    unfolding remote_write
    remote_write-gone offset b bs =
        if_false _ _ still_open ∙ ap (extended f errno o r offset) (call-gone count_of _ s gone)

    remote_set_len-gone : (len : ℕ) → remote_set_len f errno o (r, s) len ≡ (err lost, (r, s))
    unfolding remote_set_len
    remote_set_len-gone len =
        if_false _ _ still_open ∙ ap (resized f errno o r len) (call-gone unit_of _ s gone)

    remote_flush-gone : remote_flush f errno o (r, s) ≡ (err lost, (r, s))
    unfolding remote_flush
    remote_flush-gone =
        if_false _ _ still_open ∙ ap (with_file f errno o r) (call-gone unit_of _ s gone)

  -- A close does not reach the thread, and marks the file all the same.
  close-gone :
      (n k : ℕ) (w : World C G)
      → (w.sessions n).alive ≡ false
      → (w.files k).closed ≡ false
      → (smb_file f errno o n k).close w
        ≡ (err lost, record w { files = put w.files k (record (w.files k) { closed = true }) })
  unfolding remote_close
  close-gone n k w gone still_open =
      ap (with_remote w n k) (
        if_false _ _ still_open
        ∙ ap (with_file f errno o (record (w.files k) { closed = true }))
            (call-gone unit_of (close (w.files k).id) (w.sessions n) gone))
      ∙ simp (put-itself w.sessions n) refl

  on_file-gone :
      {A : Type 0} (n k : ℕ) (w : World C G) (out : Result A × (RemoteFile × Session C))
      → out ≡ (err lost, (w.files k, w.sessions n))
      → with_remote w n k out ≡ (err lost, w)
  on_file-gone n k w out e = ap (with_remote w n k) e ∙ on_file-unchanged n k w (err lost)

  IsGone-Refuses : (n : ℕ) (w : World C G) → IsGone x f errno o n w → Refuses n w
  unfolding shutdown list_entries stat mkdir remove_file remove_dir rename copy open_file
      open_remote end_session
  IsGone-Refuses n w g = record {
    shuts = simp (g.gone, put-itself w.sessions n) refl;
    lists = λ path. ask-gone _ _ n w g.gone;
    stats = λ path. ask-gone _ _ n w g.gone;
    mkdirs = λ path. ask-gone _ _ n w g.gone;
    removes_file = λ path. ask-gone _ _ n w g.gone;
    removes_dir = λ path. ask-gone _ _ n w g.gone;
    renames = λ from to. ask-gone _ _ n w g.gone;
    copies = λ from to. ask-gone _ _ n w g.gone;
    opens = λ path mode.
        simp
          (call-gone handle_of (open_path path mode) (w.sessions n) g.gone, put-itself w.sessions n)
          refl;
    reads = λ k offset len e.
        on_file-gone n k w _ (remote_read-gone (w.files k) (w.sessions n) e g.gone offset len);
    writes = λ k offset b bs e.
        on_file-gone n k w _ (remote_write-gone (w.files k) (w.sessions n) e g.gone offset b bs);
    resizes = λ k len e.
        on_file-gone n k w _ (remote_set_len-gone (w.files k) (w.sessions n) e g.gone len);
    flushes = λ k e. on_file-gone n k w _ (remote_flush-gone (w.files k) (w.sessions n) e g.gone);
    closes = λ k e. close-gone n k w g.gone e;
  }

  -- Once a backend's shutdown has run on its session, then for good, whatever calls of this and of other backends and
  -- files and whatever connects come in between, in any order: each of list, stat, mkdir, remove_file,
  -- remove_dir, rename, copy and open of the backend, and each of read, write, set_len, flush and close of
  -- a file on its session that is still open, less the reads and writes of no bytes, fails as a lost
  -- connection, and a further shutdown succeeds. The close marks its file as closed; nothing else
  -- changes, so that libsmb2 is not called again.
  pub shutdown-Refuses :
      (n : ℕ) (w : World C G)
      → n < w.next_session
      → {v : World C G} → Reach x f errno o (shutdown x f errno o n w).1 v
      → Refuses n v
  unfolding shutdown
  shutdown-Refuses n w given {v} r = IsGone-Refuses n v (
      Reach-IsGone x f errno o n r (record {
        given = given;
        gone =
            ap (λ s. s.alive) (put-same w.sessions n _)
            ∙ end_session-gone x f errno o (w.sessions n) w.outside;
      }))
