-- ===== src/Smb/RemoteFile/Writes.antt =====
-- The write path over SMB: libsmb2, the session thread, the remote file.
use mathlib.Core.Path.{subst}
use krystallos.Common
use krystallos.Common.{
  ℕ, ◌%◌, ◌^◌, ◌≤◌, ◌<◌, min, List, [], ◌∷◌, ◌++◌, ◌≡◌, ◌⊎◌, inl, inr, refl, sym, ◌∙◌, ap, ap₂,
  some, true, false, ◌==◌, arith, length, null, take_all, take-take, length-take, append-nil,
  u64_mod, ℤ, is_negative, is_zero, magnitude, Bool-cases, codes, Text, if_true, if_false,
}
use krystallos.Core.Error.{Error, Result, ok, err}
use krystallos.Core.FileHandle.Contract.{Returns}
use krystallos.Smb.Libsmb2.{Libsmb2}
use krystallos.Smb.Errors.{Errno}
use krystallos.Smb.OpenFiles
use krystallos.Smb.Operations
use krystallos.Smb.Operations.{
  OpenFlags, context_error, write_result, unit_call, on_handle, close_taken, handle_label,
}
use krystallos.Smb.Actor.{dispatch, write_at, count, unit, keep, change}
use krystallos.Smb.RemoteFile.{
  Session, RemoteFile, count_of, unit_of, call, replied, extended, with_file, remote_write,
  remote_flush, remote_close,
}
use krystallos.Smb.RemoteFile.Stores.{Stores, RemoteTakes, RemoteKept}

known :
    (files : OpenFiles.OpenFiles) (id handle : ℕ)
    → files.handles ≡ (id, handle) ∷ []
    → OpenFiles.get files id ≡ some handle
unfolding OpenFiles.get OpenFiles.lookup
known files id handle e =
    let same : (id == id) ≡ true = ground arith in ap (OpenFiles.lookup id) e ∙ if_true _ _ same

module _ {C : Type 0} (f : Libsmb2 C) (errno : Errno) (o : OpenFlags)
    (HoldsAt : C → ℕ → List ℕ → Type 0) (Kept : C → List ℕ → Type 0) (Allowed : Error → Type 0)
    (contract : Stores f errno HoldsAt Kept Allowed) where
  call-write :
      (s : Session C) (id handle offset : ℕ) (bytes : List ℕ)
      → s.alive ≡ true
      → s.actor.files.handles ≡ (id, handle) ∷ []
      → length bytes < 2 ^ 32
      → call f errno o count_of (write_at id offset bytes) s
        ≡ replied f errno o count_of s (
            keep count s.actor.files
              (write_result f errno (f.pwrite s.actor.ctx handle bytes offset)))
  unfolding call dispatch Operations.write_at
  call-write s id handle offset bytes live alone small =
      let whole : Common.take (length bytes % 2 ^ 32) bytes ≡ bytes =
        take_all (length bytes % 2 ^ 32) bytes (omega (arith, small)) in
      if_true _ _ live
      ∙ ap
          (λ h. replied f errno o count_of s (
            keep count s.actor.files (
              on_handle f errno s.actor.ctx (codes "write") h (λ fh.
                write_result f errno
                  (f.pwrite s.actor.ctx fh (Common.take (length bytes % 2 ^ 32) bytes) offset)))))
          (known s.actor.files id handle alone)
      ∙ ap
          (λ b. replied f errno o count_of s (
            keep count s.actor.files (write_result f errno (f.pwrite s.actor.ctx handle b offset))))
          whole

  written-Post :
      (r : RemoteFile) (s : Session C) (content buf : List ℕ) (m offset handle : ℕ) (out : ℤ × C)
      → r.closed ≡ false
      → s.alive ≡ true
      → s.max_write_size < 2 ^ 32
      → s.actor.files.handles ≡ (r.id, handle) ∷ []
      → ((is_negative out.0 ≡ true) × Allowed (context_error f errno out.1 out.0 (codes "write")))
        ⊎ ((is_negative out.0 ≡ false)
            × (magnitude out.0 ≤ length (Common.take m buf))
            × HoldsAt out.1 handle (content ++ Common.take (magnitude out.0) (Common.take m buf)))
      → let done =
          extended f errno o r offset
            (replied f errno o count_of s (keep count s.actor.files (write_result f errno out))) in
        Returns
          (λ (n : ℕ). (n ≤ length buf) × RemoteTakes HoldsAt done.1 (content ++ Common.take n buf))
          Allowed
          done.0
  written-Post r s content buf m offset handle (rc, c) a b w k (inl (e, q)) = simp e q
  written-Post r s content buf m offset handle (rc, c) a b w k (inr (e, le, h)) =
      let shorter : magnitude rc ≤ min m (length buf) = omega (arith, le, length-take m buf) in
      let same : Common.take (magnitude rc) (Common.take m buf) ≡ Common.take (magnitude rc) buf =
        take-take (magnitude rc) m buf ∙ ap (λ k. Common.take k buf) (omega (arith, shorter)) in
      simp e (
        omega (arith, shorter),
        record {
          still_open = a;
          live = b;
          word = w;
          handle = handle;
          alone = k;
          held = subst (λ bytes. HoldsAt c handle (content ++ bytes)) same h;
        },
      )

  pub remote_write-Post :
      (p : RemoteFile × Session C) (content buf : List ℕ)
      → RemoteTakes HoldsAt p content
      → length content < u64_mod
      → Returns
          (λ (n : ℕ).
            (n ≤ length buf)
            × RemoteTakes HoldsAt
                (remote_write f errno o p (length content) buf).1
                (content ++ Common.take n buf))
          Allowed
          (remote_write f errno o p (length content) buf).0
  unfolding remote_write
  remote_write-Post (r, s) content [] v small = (omega arith, rw (append-nil content) v)
  remote_write-Post (r, s) content (b ∷ bs) v small =
      let m = min (length (b ∷ bs)) s.max_write_size in
      let bytes = Common.take m (b ∷ bs) in
      let fits : length bytes < 2 ^ 32 = omega (arith, length-take m (b ∷ bs), v.word) in
      subst
        (λ (out : Result ℕ × (RemoteFile × Session C)).
          Returns
            (λ (n : ℕ).
              (n ≤ length (b ∷ bs)) × RemoteTakes HoldsAt out.1 (content ++ Common.take n (b ∷ bs)))
            Allowed out.0)
        (sym (
          if_false _ _ v.still_open
          ∙ ap (extended f errno o r (length content))
              (call-write s r.id v.handle (length content) bytes v.live v.alone fits)))
        (written-Post r s content (b ∷ bs) m (length content) v.handle
          (f.pwrite s.actor.ctx v.handle bytes (length content)) v.still_open v.live v.word v.alone
          (contract.pwrites s.actor.ctx v.handle content bytes v.held small))

  flushed-Post :
      (r : RemoteFile) (s : Session C) (content : List ℕ) (handle : ℕ) (out : Result (Unit {0}) × C)
      → r.closed ≡ false
      → s.alive ≡ true
      → s.max_write_size < 2 ^ 32
      → s.actor.files.handles ≡ (r.id, handle) ∷ []
      → Returns (λ _. HoldsAt out.1 handle content) Allowed out.0
      → let done =
          with_file f errno o r (replied f errno o unit_of s (keep unit s.actor.files out)) in
        Returns (λ _. RemoteTakes HoldsAt done.1 content) Allowed done.0
  flushed-Post r s content handle (err e, c) a b w k q = q
  flushed-Post r s content handle (ok u, c) a b w k q = record {
    still_open = a;
    live = b;
    word = w;
    handle = handle;
    alone = k;
    held = q;
  }

  -- The context behind a call that returns its code only.
  unit_call-Returns :
      (P : C → Type 0) (path : Text) (out : ℤ × C)
      → Returns (λ _. P out.1) Allowed (unit_call f errno path out).0
      → Returns (λ _. P (unit_call f errno path out).1) Allowed (unit_call f errno path out).0
  unit_call-Returns P path (rc, c) q = elim (Bool-cases (is_zero rc)) [
    | inl t ↦ rw t (rw t at q)
    | inr t ↦ rw t (rw t at q)
  ]

  pub remote_flush-Post :
      (p : RemoteFile × Session C) (content : List ℕ)
      → RemoteTakes HoldsAt p content
      → Returns
          (λ _. RemoteTakes HoldsAt (remote_flush f errno o p).1 content)
          Allowed
          (remote_flush f errno o p).0
  unfolding remote_flush call dispatch Operations.flush
  remote_flush-Post (r, s) content v =
      let out = unit_call f errno (codes "flush") (f.fsync s.actor.ctx v.handle) in
      subst
        (λ (done : Result (Unit {0}) × (RemoteFile × Session C)).
          Returns (λ _. RemoteTakes HoldsAt done.1 content) Allowed done.0)
        (sym (
          if_false _ _ v.still_open
          ∙ ap (with_file f errno o r) (
              if_true _ _ v.live
              ∙ ap
                  (λ h. replied f errno o unit_of s (
                    keep unit s.actor.files (
                      on_handle f errno s.actor.ctx (codes "flush") h
                        (λ fh. unit_call f errno (codes "flush") (f.fsync s.actor.ctx fh)))))
                  (known s.actor.files r.id v.handle v.alone))))
        (flushed-Post r s content v.handle out v.still_open v.live v.word v.alone (
          unit_call-Returns (λ c. HoldsAt c v.handle content) (codes "flush")
            (f.fsync s.actor.ctx v.handle) (contract.fsyncs s.actor.ctx v.handle content v.held)))

  closed-Post :
      (s : Session C) (content : List ℕ) (files : OpenFiles.OpenFiles) (out : Result (Unit {0}) × C)
      → s.alive ≡ true
      → files.handles ≡ []
      → Returns (λ _. Kept out.1 content) Allowed out.0
      → let done = replied f errno o unit_of s (change unit (out.0, (files, out.1))) in
        Returns (λ _. RemoteKept Kept done.1 content) Allowed done.0
  closed-Post s content files (err e, c) b n q = q
  closed-Post s content files (ok u, c) b n q = record { live = b; none_left = n; kept = q }

  taken :
      (files : OpenFiles.OpenFiles) (id handle : ℕ)
      → files.handles ≡ (id, handle) ∷ []
      → OpenFiles.take files id ≡ (some handle, record files { handles = [] })
  unfolding OpenFiles.take OpenFiles.lookup OpenFiles.remove
  taken files id handle e = let same : (id == id) ≡ true = ground arith in simp (e, same) refl

  pub remote_close-Post :
      (p : RemoteFile × Session C) (content : List ℕ)
      → RemoteTakes HoldsAt p content
      → Returns
          (λ _. RemoteKept Kept (remote_close f errno o p).1.1 content)
          Allowed
          (remote_close f errno o p).0
  unfolding remote_close call dispatch Operations.close_file
  remote_close-Post (r, s) content v =
      let out = unit_call f errno (handle_label f errno r.id) (f.close s.actor.ctx v.handle) in
      subst
        (λ (done : Result (Unit {0}) × (RemoteFile × Session C)).
          Returns (λ _. RemoteKept Kept done.1.1 content) Allowed done.0)
        (sym (
          if_false _ _ v.still_open
          ∙ ap (with_file f errno o (record r { closed = true })) (
              if_true _ _ v.live
              ∙ ap
                  (λ t.
                    replied f errno o unit_of s
                      (change unit (close_taken f errno s.actor.ctx r.id t)))
                  (taken s.actor.files r.id v.handle v.alone))))
        (closed-Post s content (record s.actor.files { handles = [] }) out v.live refl
          (unit_call-Returns (λ c. Kept c content) (handle_label f errno r.id)
            (f.close s.actor.ctx v.handle)
            (contract.closes s.actor.ctx r.id v.handle content v.held)))
