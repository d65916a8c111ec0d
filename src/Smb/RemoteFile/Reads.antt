-- ===== src/Smb/RemoteFile/Reads.antt =====
-- The read path over SMB, end to end: libsmb2, the session thread, the remote file, the read-ahead.
use mathlib.Core.Path.{subst}
use krystallos.Common
use krystallos.Common.{
  ℕ, ◌+◌, ◌%◌, ◌^◌, ◌≤◌, ◌<◌, min, List, [], ◌≡◌, ◌⊎◌, inl, inr, refl, sym, ◌∙◌, ap, Option, some,
  Bool, true, false, ◌==◌, if◌then◌else◌, arith, length, drop, take_all, u64_mod, ℤ, is_negative,
  magnitude, Bool-cases, codes, if_true, if_false,
}
use krystallos.Core.Error.{Error, Result, ok, err}
use krystallos.Core.FileHandle.{read_exact_at}
use krystallos.Core.FileHandle.Contract.{IsRead, Returns, Serves}
use krystallos.Core.FileHandle.ReadExact.{IsWhole, Refusal, read_exact_at-Returns}
use krystallos.Cache.ReadAhead.{ReadAhead, read_ahead}
use krystallos.Cache.ReadAhead.Fill.{Coherent}
use krystallos.Cache.ReadAhead.Serve.{read_ahead-Serves}
use krystallos.Smb.Libsmb2.{Libsmb2}
use krystallos.Smb.Errors.{Errno}
use krystallos.Smb.OpenFiles
use krystallos.Smb.Operations
use krystallos.Smb.Operations.{OpenFlags, context_error, read_result, on_handle}
use krystallos.Smb.Actor.{dispatch, read_at, bytes, keep}
use krystallos.Smb.RemoteFile.{
  Session, RemoteFile, bytes_of, call, replied, filled, remote_read, remote_file,
}

module _ {C : Type 0} (f : Libsmb2 C) (errno : Errno) where
  -- What `smb2_pread` documents of a handle on a file that nobody changes: a negative code is a
  -- failure, any other counts the bytes that it put in the buffer, none only at the end.
  pub record Preads (HoldsAt : C → ℕ → List ℕ → Type 0) (Allowed : Error → Type 0) : Type 0 where
    pub preads :
        (c : C) (handle : ℕ) (file : List ℕ) (n offset : ℕ)
        → HoldsAt c handle file
        → offset < u64_mod
        → HoldsAt (f.pread c handle n offset).1 handle file
          × (((is_negative (f.pread c handle n offset).0.0 ≡ true)
                × Allowed (
                    context_error f errno
                      (f.pread c handle n offset).1
                      (f.pread c handle n offset).0.0
                      (codes "read")))
              ⊎ ((is_negative (f.pread c handle n offset).0.0 ≡ false)
                  × IsRead file offset n (
                      Common.take
                        (magnitude (f.pread c handle n offset).0.0)
                        (f.pread c handle n offset).0.1)))

-- The file is open, on a live session whose table has its handle, on which libsmb2 holds the file.
pub record RemoteHolds {C : Type 0} (HoldsAt : C → ℕ → List ℕ → Type 0) (p : RemoteFile × Session C)
    (file : List ℕ) : Type 0 where
  pub still_open : p.0.closed ≡ false
  pub live : p.1.alive ≡ true
  pub readable : 0 < p.1.max_read_size
  pub word : p.1.max_read_size < 2 ^ 32
  pub handle : ℕ
  pub known : OpenFiles.get p.1.actor.files p.0.id ≡ some handle
  pub held : HoldsAt p.1.actor.ctx handle file

IsRead-shorter :
    (file : List ℕ) (offset want n : ℕ) (content : List ℕ)
    → want ≤ n
    → (0 < n → 0 < want)
    → IsRead file offset want content
    → IsRead file offset n content
IsRead-shorter file offset want n content le more r = record {
  fits = omega (arith, r.fits);
  exact = r.exact;
  progress = λ p q. r.progress (more p) q;
}

module _ {C : Type 0} (f : Libsmb2 C) (errno : Errno) (o : OpenFlags)
    (HoldsAt : C → ℕ → List ℕ → Type 0) (Allowed : Error → Type 0)
    (contract : Preads f errno HoldsAt Allowed) where
  ReadPost : List ℕ → ℕ → ℕ → ℕ → Result (List ℕ) × C → Type 0
  ReadPost file offset n handle out =
      Returns (IsRead file offset n) Allowed out.0 × HoldsAt out.1 handle file

  read_result-Post :
      (file : List ℕ) (offset n handle : ℕ) (out : (ℤ × List ℕ) × C)
      → HoldsAt out.1 handle file
        × (((is_negative out.0.0 ≡ true)
              × Allowed (context_error f errno out.1 out.0.0 (codes "read")))
            ⊎ ((is_negative out.0.0 ≡ false)
                × IsRead file offset n (Common.take (magnitude out.0.0) out.0.1)))
      → ReadPost file offset n handle (read_result f errno out)
  unfolding ReadPost
  read_result-Post file offset n handle ((rc, buf), c) (h, inl (e, a)) = rw e (a, h)
  read_result-Post file offset n handle ((rc, buf), c) (h, inr (e, r)) = rw e (r, h)

  filled-Post :
      (r : RemoteFile) (s : Session C) (file : List ℕ) (offset n want handle : ℕ)
      (out : Result (List ℕ) × C)
      → r.closed ≡ false
      → s.alive ≡ true
      → 0 < s.max_read_size
      → s.max_read_size < 2 ^ 32
      → OpenFiles.get s.actor.files r.id ≡ some handle
      → want ≤ n
      → (0 < n → 0 < want)
      → ReadPost file offset want handle out
      → let done =
          filled f errno o r n (replied f errno o bytes_of s (keep bytes s.actor.files out)) in
        Returns (IsRead file offset n) Allowed done.0 × RemoteHolds HoldsAt done.1 file
  unfolding ReadPost
  filled-Post r s file offset n want handle (err e, c) a b d w k le more (p, h) = (
    p,
    record {
      still_open = a;
      live = b;
      readable = d;
      word = w;
      handle = handle;
      known = k;
      held = h;
    },
  )
  filled-Post r s file offset n want handle (ok content, c) a b d w k le more (p, h) = (
    rw (take_all (min (length content) n) content (omega (arith, p.fits)))
        (IsRead-shorter file offset want n content le more p),
    record {
      still_open = a;
      live = b;
      readable = d;
      word = w;
      handle = handle;
      known = k;
      held = h;
    },
  )

  call-live :
      (s : Session C) (id offset n handle : ℕ)
      → s.alive ≡ true
      → OpenFiles.get s.actor.files id ≡ some handle
      → call f errno o bytes_of (read_at id offset n) s
        ≡ replied f errno o bytes_of s
            (keep bytes s.actor.files (read_result f errno (f.pread s.actor.ctx handle n offset)))
  unfolding call dispatch Operations.read_at
  call-live s id offset n handle live known =
      if_true _ _ live
      ∙ ap
          (λ h. replied f errno o bytes_of s (
            keep bytes s.actor.files (
              on_handle f errno s.actor.ctx (codes "read") h
                (λ fh. read_result f errno (f.pread s.actor.ctx fh n offset)))))
          known

  -- A read of a file that is open, of a byte at least.
  remote_read-open :
      (r : RemoteFile) (s : Session C) (offset n : ℕ) {file : List ℕ}
      (v : RemoteHolds HoldsAt (r, s) file)
      → (n == 0) ≡ false
      → remote_read f errno o (r, s) offset n
        ≡ filled f errno o r n (
            replied f errno o bytes_of s (
              keep bytes s.actor.files (
                read_result f errno (f.pread s.actor.ctx v.handle (min n s.max_read_size) offset))))
  unfolding remote_read
  remote_read-open r s offset n v t =
      let e : min n s.max_read_size % 2 ^ 32 ≡ min n s.max_read_size = omega (arith, v.word) in
      if_false _ _ t
      ∙ if_false _ _ v.still_open
      ∙ ap (λ want. filled f errno o r n (call f errno o bytes_of (read_at r.id offset want) s)) e
      ∙ ap (filled f errno o r n)
          (call-live s r.id offset (min n s.max_read_size) v.handle v.live v.known)

  remote_read-Post :
      (p : RemoteFile × Session C) (file : List ℕ) (offset n : ℕ)
      → RemoteHolds HoldsAt p file
      → offset < u64_mod
      → Returns (IsRead file offset n) Allowed (remote_read f errno o p offset n).0
        × RemoteHolds HoldsAt (remote_read f errno o p offset n).1 file
  unfolding remote_read
  remote_read-Post (r, s) file offset n v small = elim (Bool-cases (n == 0)) [
    | inl t ↦
        rw t (record { fits = omega arith; exact = refl; progress = λ x y. ground (arith, t) }, v)
    | inr t ↦
        subst
          (λ (out : Result (List ℕ) × (RemoteFile × Session C)).
            Returns (IsRead file offset n) Allowed out.0 × RemoteHolds HoldsAt out.1 file)
          (sym (remote_read-open r s offset n v t))
          (filled-Post r s file offset n (min n s.max_read_size) v.handle
            (read_result f errno (f.pread s.actor.ctx v.handle (min n s.max_read_size) offset))
            v.still_open v.live v.readable v.word v.known (omega arith)
            (λ x. omega (arith, v.readable))
            (read_result-Post file offset (min n s.max_read_size) v.handle
              (f.pread s.actor.ctx v.handle (min n s.max_read_size) offset)
              (contract.preads s.actor.ctx v.handle file (min n s.max_read_size) offset v.held
                small)))
  ]

-- A file that is open on a live session keeps the contract of `read_at`, however small the
-- negotiated read size, if `smb2_pread` does what it documents.
pub remote_file-Serves :
    {C : Type 0} (f : Libsmb2 C) (errno : Errno) (o : OpenFlags) (HoldsAt : C → ℕ → List ℕ → Type 0)
    (Allowed : Error → Type 0)
    → Preads f errno HoldsAt Allowed
    → Serves (remote_file f errno o) (RemoteHolds HoldsAt) Allowed
remote_file-Serves f errno o HoldsAt Allowed contract = record {
  reads = λ p file offset n v small.
      remote_read-Post f errno o HoldsAt Allowed contract p file offset n v small;
}

-- The whole read path of the player: `read_exact_at` on the read-ahead over a remote file returns
-- exactly the `n` bytes of the file at `offset`, whatever the window, the negotiated read size and
-- the short reads of the server; it fails only by an error of `smb2_pread`, or with `UnexpectedEof`
-- when the file ends before. A `usize` has 64 bits, and sizes and offsets fit in 64 bits.
pub remote_read_exact :
    {C : Type 0} (f : Libsmb2 C) (errno : Errno) (o : OpenFlags) (usize_mod : ℕ)
    (HoldsAt : C → ℕ → List ℕ → Type 0) (Allowed : Error → Type 0)
    → Preads f errno HoldsAt Allowed
    → u64_mod ≤ usize_mod
    → (file : List ℕ) (r : ReadAhead (RemoteFile × Session C)) (offset n : ℕ)
    → Coherent (RemoteHolds HoldsAt) r file
    → offset + n < u64_mod
    → Returns
        (IsWhole file offset n)
        (Refusal Allowed file offset n)
        (read_exact_at (read_ahead (remote_file f errno o) usize_mod) r offset n).0
remote_read_exact f errno o usize_mod HoldsAt Allowed contract wide file r offset n held room =
    let serves =
      read_ahead-Serves (remote_file f errno o) usize_mod (RemoteHolds HoldsAt) Allowed
        (remote_file-Serves f errno o HoldsAt Allowed contract) wide in
    (read_exact_at-Returns (read_ahead (remote_file f errno o) usize_mod)
      (Coherent (RemoteHolds HoldsAt)) Allowed serves file r offset n held room).0
