-- ===== src/Smb/RemoteFile/Alive.antt =====
-- A call of a file leaves the session alive, or dead, as it was.
use krystallos.Common.{
  ℕ, List, Option, none, some, ◌≡◌, refl, true, Bool-cases, inl, inr, ◌==◌, ◌∙◌, min, null, ◌%◌,
  ◌^◌,
}
use krystallos.Core.Error.{Error, Result, ok, err}
use krystallos.Smb.Libsmb2.{Libsmb2}
use krystallos.Smb.Errors.{Errno}
use krystallos.Core.FileHandle.Contract.{Returns}
use krystallos.Smb.OpenFiles
use krystallos.Smb.OpenFiles.{OpenFiles}
use krystallos.Smb.Operations.{OpenFlags, unit_call, handle_label, close_taken, close_file}
use krystallos.Smb.Actor.{
  Actor, Command, Reply, dispatch, change, unit, read_at, set_len, flush, open_path, close,
}
use krystallos.Core.VfsPath.{VfsPath}
use krystallos.Core.FileHandle.{OpenMode}
use krystallos.Smb.RemoteFile.{
  Session, RemoteFile, call, replied, filled, extended, resized, opened_file, bytes_of, unit_of,
  count_of, handle_of, remote_read, remote_write, remote_set_len, remote_flush, remote_close,
  open_remote,
}

module _ {C : Type 0} (f : Libsmb2 C) (errno : Errno) (o : OpenFlags) where
  replied-alive :
      {A : Type 0} (read : Reply → Result A) (s : Session C) (out : Reply × Actor C)
      → (replied f errno o read s out).1.alive ≡ s.alive
  replied-alive read s (reply, a) = refl

  pub call-alive :
      {A : Type 0} (read : Reply → Result A) (command : Command) (s : Session C)
      → (call f errno o read command s).1.alive ≡ s.alive
  unfolding call
  call-alive read command s = elim (Bool-cases s.alive) [
    | inl e ↦ rw e (rw (← e) (replied-alive read s (dispatch f errno o command s.actor)))
    | inr e ↦ rw e refl
  ]

  filled-alive :
      (r : RemoteFile) (n : ℕ) (out : Result (List ℕ) × Session C)
      → (filled f errno o r n out).1.1.alive ≡ out.1.alive
  filled-alive r n (err e, s) = refl
  filled-alive r n (ok content, s) = refl

  pub remote_read-alive :
      (r : RemoteFile) (s : Session C) (offset n : ℕ)
      → (remote_read f errno o (r, s) offset n).1.1.alive ≡ s.alive
  unfolding remote_read
  remote_read-alive r s offset n = elim (Bool-cases (n == 0)) [
    | inl e ↦ rw e refl
    | inr e ↦ elim (Bool-cases r.closed) [
      | inl t ↦ simp (e, t) refl
      | inr t ↦
          let asked =
            call f errno o bytes_of (read_at r.id offset (min n s.max_read_size % 2 ^ 32)) s in
          simp (e, t)
            (filled-alive r n asked
              ∙ call-alive bytes_of (read_at r.id offset (min n s.max_read_size % 2 ^ 32)) s)
    ]
  ]

  pub remote_close-alive :
      (r : RemoteFile) (s : Session C) → (remote_close f errno o (r, s)).1.1.alive ≡ s.alive
  unfolding remote_close
  remote_close-alive r s = elim (Bool-cases r.closed) [
    | inl t ↦ simp t refl
    | inr t ↦ simp t (call-alive unit_of (close r.id) s)
  ]

  -- Closing a file of a live session fails only by what libsmb2 reports of the handle.
  abbrev pub Closes : (Error → Type 0) → Type 0
  Closes Allowed =
      (c : C) (id handle : ℕ)
      → Returns (λ _. Unit {0}) Allowed
          (unit_call f errno (handle_label f errno id) (f.close c handle)).0

  close_taken-Returns :
      (Allowed : Error → Type 0) (c : C) (id : ℕ) (files : OpenFiles) (found : Option ℕ)
      → Closes Allowed
      → Returns (λ _. Unit {0}) Allowed (close_taken f errno c id (found, files)).0
  close_taken-Returns Allowed c id files none closes = tt
  close_taken-Returns Allowed c id files (some handle) closes = closes c id handle

  unit_reply-Returns :
      (Allowed : Error → Type 0) (s : Session C) (out : Result (Unit {0}) × (OpenFiles × C))
      → Returns (λ _. Unit {0}) Allowed out.0
      → Returns (λ _. Unit {0}) Allowed (replied f errno o unit_of s (change unit out)).0
  unit_reply-Returns Allowed s (r, (files, c)) p = p

  pub remote_close-Returns :
      (Allowed : Error → Type 0) (r : RemoteFile) (s : Session C)
      → Closes Allowed
      → s.alive ≡ true
      → Returns (λ _. Unit {0}) Allowed (remote_close f errno o (r, s)).0
  unfolding remote_close call dispatch close_file OpenFiles.take
  remote_close-Returns Allowed r s closes live = elim (Bool-cases r.closed) [
    | inl t ↦ simp t tt
    | inr t ↦
        simp (t, live)
          (unit_reply-Returns Allowed s
            (close_taken f errno s.actor.ctx r.id (OpenFiles.take s.actor.files r.id))
            (close_taken-Returns Allowed s.actor.ctx r.id _ _ closes))
  ]

  extended-alive :
      (r : RemoteFile) (offset : ℕ) (out : Result ℕ × Session C)
      → (extended f errno o r offset out).1.1.alive ≡ out.1.alive
  extended-alive r offset (err e, s) = refl
  extended-alive r offset (ok n, s) = refl

  resized-alive :
      (r : RemoteFile) (n : ℕ) (out : Result (Unit {0}) × Session C)
      → (resized f errno o r n out).1.1.alive ≡ out.1.alive
  resized-alive r n (err e, s) = refl
  resized-alive r n (ok u, s) = refl

  opened_file-alive :
      (path : VfsPath) (out : Result (ℕ × ℕ) × Session C)
      → (opened_file f errno o path out).1.alive ≡ out.1.alive
  opened_file-alive path (err e, s) = refl
  opened_file-alive path (ok h, s) = refl

  pub remote_write-alive :
      (r : RemoteFile) (s : Session C) (offset : ℕ) (content : List ℕ)
      → (remote_write f errno o (r, s) offset content).1.1.alive ≡ s.alive
  unfolding remote_write
  remote_write-alive r s offset content = elim (Bool-cases (null content)) [
    | inl e ↦ simp e refl
    | inr e ↦ elim (Bool-cases r.closed) [
      | inl t ↦ simp (e, t) refl
      | inr t ↦
          simp (e, t)
            (extended-alive r offset (call f errno o count_of _ s) ∙ call-alive count_of _ s)
    ]
  ]

  pub remote_set_len-alive :
      (r : RemoteFile) (s : Session C) (n : ℕ)
      → (remote_set_len f errno o (r, s) n).1.1.alive ≡ s.alive
  unfolding remote_set_len
  remote_set_len-alive r s n = elim (Bool-cases r.closed) [
    | inl t ↦ simp t refl
    | inr t ↦ simp t (
        resized-alive r n (call f errno o unit_of (set_len r.id n) s)
        ∙ call-alive unit_of (set_len r.id n) s)
  ]

  pub remote_flush-alive :
      (r : RemoteFile) (s : Session C) → (remote_flush f errno o (r, s)).1.1.alive ≡ s.alive
  unfolding remote_flush
  remote_flush-alive r s = elim (Bool-cases r.closed) [
    | inl t ↦ simp t refl
    | inr t ↦ simp t (call-alive unit_of (flush r.id) s)
  ]

  pub open_remote-alive :
      (s : Session C) (path : VfsPath) (mode : OpenMode)
      → (open_remote f errno o s path mode).1.alive ≡ s.alive
  unfolding open_remote
  open_remote-alive s path mode =
      opened_file-alive path (call f errno o handle_of (open_path path mode) s)
      ∙ call-alive handle_of (open_path path mode) s
