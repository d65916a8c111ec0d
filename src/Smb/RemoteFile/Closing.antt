-- ===== src/Smb/RemoteFile/Closing.antt =====
-- Closing a remote file, once.
use krystallos.Common.{
  ℕ, ◌+◌, arith, List, ◌∷◌, ◌≡◌, ◌∙◌, true, if_true, if_false, ◌==◌, inl, inr, Bool-cases,
}
use krystallos.Core.Error.{ok, err}
use krystallos.Smb.Libsmb2.{Libsmb2}
use krystallos.Smb.Errors.{Errno}
use krystallos.Smb.Operations.{OpenFlags}
use krystallos.Smb.RemoteFile.{
  Session, RemoteFile, closed_error, remote_read, remote_write, remote_set_len, remote_flush,
  remote_close, remote_drop,
}

module _ {C : Type 0} (f : Libsmb2 C) (errno : Errno) (o : OpenFlags) where
  closed-close : (p : RemoteFile × Session C) → (remote_close f errno o p).1.0.closed ≡ true
  unfolding remote_close
  closed-close (r, s) = elim (Bool-cases r.closed) [
    | inl t ↦ rw (if_true _ _ t) t
    | inr t ↦ rw (if_false _ _ t)
  ]

  -- Behind a close the session thread is asked nothing more by this file: a second close and the
  -- drop change nothing and do not fail, and any other call that has something to do fails with the
  -- error that names the path, and leaves file and session as they were.
  pub closed_for_good :
      (p : RemoteFile × Session C) (offset k : ℕ) (b : ℕ) (bs : List ℕ)
      → let q = (remote_close f errno o p).1 in
        (remote_close f errno o q ≡ (ok tt, q))
        × (remote_drop f errno o q ≡ q.1)
        × (remote_read f errno o q offset (k + 1) ≡ (err (closed_error q.0), q))
        × (remote_write f errno o q offset (b ∷ bs) ≡ (err (closed_error q.0), q))
        × (remote_set_len f errno o q k ≡ (err (closed_error q.0), q))
        × (remote_flush f errno o q ≡ (err (closed_error q.0), q))
  unfolding remote_close remote_drop remote_read remote_write remote_set_len remote_flush
  closed_for_good p offset k b bs = let e = closed-close p in refused (remote_close f errno o p).1 e
    where
      refused :
          (q : RemoteFile × Session C)
          → q.0.closed ≡ true
          → (remote_close f errno o q ≡ (ok tt, q))
            × (remote_drop f errno o q ≡ q.1)
            × (remote_read f errno o q offset (k + 1) ≡ (err (closed_error q.0), q))
            × (remote_write f errno o q offset (b ∷ bs) ≡ (err (closed_error q.0), q))
            × (remote_set_len f errno o q k ≡ (err (closed_error q.0), q))
            × (remote_flush f errno o q ≡ (err (closed_error q.0), q))
      refused (r, s) e = (
        if_true _ _ e,
        if_true _ _ e,
        if_false {b = k + 1 == 0} _ _ (ground arith) ∙ if_true _ _ e,
        if_true _ _ e,
        if_true _ _ e,
        if_true _ _ e,
      )
