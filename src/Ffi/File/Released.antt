-- ===== src/Ffi/File/Released.antt =====
-- A file that was released.
use krystallos.Common.{
  ℕ, List, ◌≡◌, refl, true, inl, inr, Bool-cases, Text, codes, if_true, if_false,
}
use krystallos.Core.Error
use krystallos.Core.Error.{Error, Result, IoKind}
use krystallos.Core.FileHandle.{FileHandle}
use krystallos.Ffi.Error.{ok, err}
use krystallos.Ffi.Types.{already_closed}
use krystallos.Ffi.File.{
  File, open_handle, read_at, read_exact_at, write_at, set_len, flush, release, released,
}

module _ {S : Type 0} (io_text : IoKind → Text) (h : FileHandle S) where
  released-closed :
      (r : File S) (out : Result (Unit {0}) × S)
      → r.closed ≡ true
      → (released io_text h r out).1.closed ≡ true
  released-closed r (Error.ok u, s) e = e
  released-closed r (Error.err (Error.not_found p), s) e = e
  released-closed r (Error.err (Error.permission_denied p), s) e = e
  released-closed r (Error.err (Error.already_exists p), s) e = e
  released-closed r (Error.err (Error.not_a_directory p), s) e = e
  released-closed r (Error.err (Error.is_a_directory p), s) e = e
  released-closed r (Error.err (Error.directory_not_empty p), s) e = e
  released-closed r (Error.err (Error.invalid_path p q), s) e = e
  released-closed r (Error.err (Error.unsupported p), s) e = e
  released-closed r (Error.err (Error.connection_lost p), s) e = e
  released-closed r (Error.err (Error.auth p), s) e = e
  released-closed r (Error.err (Error.backend p), s) e = e
  released-closed r (Error.err (Error.io k), s) e = e

  release-closed : (r : File S) → (release io_text h r).1.closed ≡ true
  unfolding release
  release-closed r = elim (Bool-cases r.closed) [
    | inl t ↦ rw (if_true _ _ t) t
    | inr t ↦
        rw (if_false _ _ t) (released-closed (record r { closed = true }) (h.close r.inner) refl)
  ]

  open_handle-closed :
      (r : File S)
      → r.closed ≡ true
      → open_handle io_text h r ≡ (err (already_closed (codes "file")), r)
  unfolding open_handle
  open_handle-closed r e = if_true _ _ e

  -- Behind a release, also one that failed, a second release does nothing and succeeds, and every other
  -- call fails as closed, asks the handle nothing and leaves the file as it was.
  pub release_for_good :
      (r : File S) (offset n : ℕ) (content : List ℕ)
      → let q = (release io_text h r).1 in
        let gone = already_closed (codes "file") in
        (release io_text h q ≡ (ok tt, q))
        × (read_at io_text h offset n q ≡ (err gone, q))
        × (read_exact_at io_text h offset n q ≡ (err gone, q))
        × (write_at io_text h offset content q ≡ (err gone, q))
        × (set_len io_text h n q ≡ (err gone, q))
        × (flush io_text h q ≡ (err gone, q))
  unfolding release read_at read_exact_at write_at set_len flush
  release_for_good r offset n content = refused (release io_text h r).1 (release-closed r)
    where
      refused :
          (q : File S)
          → q.closed ≡ true
          → (release io_text h q ≡ (ok tt, q))
            × (read_at io_text h offset n q ≡ (err (already_closed (codes "file")), q))
            × (read_exact_at io_text h offset n q ≡ (err (already_closed (codes "file")), q))
            × (write_at io_text h offset content q ≡ (err (already_closed (codes "file")), q))
            × (set_len io_text h n q ≡ (err (already_closed (codes "file")), q))
            × (flush io_text h q ≡ (err (already_closed (codes "file")), q))
      refused q e =
          let shut = open_handle-closed q e in
          (if_true _ _ e, rw shut, rw shut, rw shut, rw shut, rw shut)
