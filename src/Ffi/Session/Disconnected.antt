-- ===== src/Ffi/Session/Disconnected.antt =====
-- A session that was disconnected.
use krystallos.Common.{
  ℕ, some, refl, ◌≡◌, true, inl, inr, Bool-cases, Text, codes, if_true, if_false,
}
use krystallos.Core.Error.{IoKind}
use krystallos.Core.Backend.{StorageBackend}
use krystallos.Ffi.Error.{ok, err}
use krystallos.Ffi.Types.{OpenFlags, already_closed, info_from}
use krystallos.Smb.RemoteFile
use krystallos.Ffi.Session.{
  Session, ensure_open, list_entries, stat, mkdir, remove_file, remove_dir, rename, copy, open_file,
  disconnect, smb_info,
}

module _ {W : Type 0} (io_text : IoKind → Text) where
  ensure_open-closed :
      (s : Session W)
      → s.closed ≡ true
      → ensure_open io_text s ≡ (err (already_closed (codes "session")), s)
  unfolding ensure_open
  ensure_open-closed s e = if_true _ _ e

module _ {W : Type 0} (io_text : IoKind → Text) (b : StorageBackend W) where
  disconnect-closed : (s : Session W) → (disconnect io_text b s).1.closed ≡ true
  unfolding disconnect
  disconnect-closed s = elim (Bool-cases s.closed) [
    | inl t ↦ rw (if_true _ _ t) t
    | inr t ↦ rw (if_false _ _ t)
  ]

  -- Behind a disconnect, also one that failed, a second disconnect does not reach the backend and
  -- succeeds, and each of list, stat, mkdir, remove_file, remove_dir, rename, copy and open fails as closed,
  -- whatever its paths, and leaves the session and the backend's world as they were. `smb_info` of the
  -- number `n` of an SMB session still answers with what the backend holds of it.
  pub disconnect_for_good :
      (s : Session W) (from to : Text) (flags : OpenFlags) (n : ℕ)
      (info : ℕ → W → RemoteFile.SmbInfo)
      → let q = (disconnect io_text b s).1 in
        let gone = already_closed (codes "session") in
        (disconnect io_text b q ≡ (ok tt, q))
        × (list_entries io_text b from q ≡ (err gone, q))
        × (stat io_text b from q ≡ (err gone, q))
        × (mkdir io_text b from q ≡ (err gone, q))
        × (remove_file io_text b from q ≡ (err gone, q))
        × (remove_dir io_text b from q ≡ (err gone, q))
        × (rename io_text b from to q ≡ (err gone, q))
        × (copy io_text b from to q ≡ (err gone, q))
        × (open_file io_text b from flags q ≡ (err gone, q))
        × (smb_info io_text b (some n) info q ≡ some (info_from (info n q.world)))
  unfolding disconnect list_entries stat mkdir remove_file remove_dir rename copy open_file
  disconnect_for_good s from to flags n info =
      let e = disconnect-closed s in
      let q = (disconnect io_text b s).1 in
      let shut = ensure_open-closed io_text (disconnect io_text b s).1 e in
      (if_true _ _ e, rw shut, rw shut, rw shut, rw shut, rw shut, rw shut, rw shut, rw shut, refl)
