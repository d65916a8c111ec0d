-- ===== src/Smb/RemoteFile/Stores.antt =====
-- What is relied on of a handle that takes bytes, and the file and the session around it.
use krystallos.Common
use krystallos.Common.{
  ℕ, ◌%◌, ◌^◌, ◌≤◌, ◌<◌, min, List, [], ◌∷◌, ◌++◌, ◌≡◌, ◌⊎◌, inl, inr, refl, sym, ◌∙◌, ap, ap₂,
  some, true, false, ◌==◌, arith, length, null, take_all, take-take, length-take, append-nil,
  u64_mod, ℤ, is_negative, is_zero, magnitude, Bool-cases, codes, Text, if_true, if_false,
}
use krystallos.Core.Error.{Error}
use krystallos.Core.FileHandle.Contract.{Returns}
use krystallos.Smb.Libsmb2.{Libsmb2}
use krystallos.Smb.Errors.{Errno}
use krystallos.Smb.Operations.{context_error, unit_call, handle_label}
use krystallos.Smb.RemoteFile.{Session, RemoteFile}

module _ {C : Type 0} (f : Libsmb2 C) (errno : Errno) where
  -- What libsmb2 documents of a handle that takes bytes: `smb2_pwrite` at the end of what is there puts some
  -- of them behind it, as many as its code says, or fails with a negative code; `smb2_fsync` leaves that alone,
  -- and behind an `smb2_close` that succeeds the server keeps it.
  pub record Stores (HoldsAt : C → ℕ → List ℕ → Type 0) (Kept : C → List ℕ → Type 0)
      (Allowed : Error → Type 0) : Type 0 where
    pub pwrites :
        (c : C) (handle : ℕ) (content bytes : List ℕ)
        → HoldsAt c handle content
        → length content < u64_mod
        → let out = f.pwrite c handle bytes (length content) in
          ((is_negative out.0 ≡ true) × Allowed (context_error f errno out.1 out.0 (codes "write")))
          ⊎ ((is_negative out.0 ≡ false)
              × (magnitude out.0 ≤ length bytes)
              × HoldsAt out.1 handle (content ++ Common.take (magnitude out.0) bytes))
    pub fsyncs :
        (c : C) (handle : ℕ) (content : List ℕ)
        → HoldsAt c handle content
        → Returns
            (λ _. HoldsAt (f.fsync c handle).1 handle content)
            Allowed
            (unit_call f errno (codes "flush") (f.fsync c handle)).0
    pub closes :
        (c : C) (id handle : ℕ) (content : List ℕ)
        → HoldsAt c handle content
        → Returns
            (λ _. Kept (f.close c handle).1 content)
            Allowed
            (unit_call f errno (handle_label f errno id) (f.close c handle)).0

-- The file is open, alone on a live session, and libsmb2 holds this content on its handle.
pub record RemoteTakes {C : Type 0} (HoldsAt : C → ℕ → List ℕ → Type 0) (p : RemoteFile × Session C)
    (content : List ℕ) : Type 0 where
  pub still_open : p.0.closed ≡ false
  pub live : p.1.alive ≡ true
  pub word : p.1.max_write_size < 2 ^ 32
  pub handle : ℕ
  pub alone : p.1.actor.files.handles ≡ (p.0.id, handle) ∷ []
  pub held : HoldsAt p.1.actor.ctx handle content

-- No handle is left on a live session, and the server keeps the content.
pub record RemoteKept {C : Type 0} (Kept : C → List ℕ → Type 0) (s : Session C) (content : List ℕ)
    : Type 0 where
  pub live : s.alive ≡ true
  pub none_left : s.actor.files.handles ≡ []
  pub kept : Kept s.actor.ctx content
