-- ===== src/Smb/Backend/Reads.antt =====
-- A file that the SMB backend has opened.
use krystallos.Common.{ℕ, List, ◌≡◌, ◌==◌, true, arith}
use krystallos.Core.Error.{Error, Result}
use krystallos.Core.FileHandle.Contract.{IsRead, Returns, Serves}
use krystallos.Smb.Libsmb2.{Libsmb2}
use krystallos.Smb.Errors.{Errno}
use krystallos.Smb.Operations.{OpenFlags}
use krystallos.Smb.RemoteFile.{Session, RemoteFile, remote_read}
use krystallos.Smb.RemoteFile.Reads.{Preads, RemoteHolds, remote_file-Serves}
use krystallos.Smb.Backend.{World, put, with_remote, smb_file}

pub put-same : {A : Type 0} (f : ℕ → A) (n : ℕ) (a : A) → put f n a n ≡ a
put-same f n a = rw (same n)
  where
    same : (k : ℕ) → (k == k) ≡ true
    same k = ground arith

-- The file `k` of the world is open on the session `n` of it.
abbrev pub FileHolds :
    {C G : Type 0} → (C → ℕ → List ℕ → Type 0) → ℕ → ℕ → World C G → List ℕ → Type 0
FileHolds HoldsAt n k w = RemoteHolds HoldsAt (w.files k, w.sessions n)

module _ {C G : Type 0} (f : Libsmb2 C) (errno : Errno) (o : OpenFlags)
    (HoldsAt : C → ℕ → List ℕ → Type 0) (Allowed : Error → Type 0) (n k : ℕ) where
  put_back :
      (w : World C G) (file : List ℕ) (offset len : ℕ)
      (out : Result (List ℕ) × (RemoteFile × Session C))
      → Returns (IsRead file offset len) Allowed out.0
      → RemoteHolds HoldsAt out.1 file
      → Returns (IsRead file offset len) Allowed (with_remote w n k out).0
        × FileHolds HoldsAt n k (with_remote w n k out).1 file
  put_back w file offset len (r, (remote, s)) p q =
      (p, rw (put-same w.files k remote, put-same w.sessions n s) q)

-- A file of the SMB backend that is open on a live session keeps the contract of `read_at`, however small
-- the negotiated read size, if `smb2_pread` does what it documents; its state and its session's are put
-- back into the world, so the next read finds them.
pub smb_file-Serves :
    {C G : Type 0} (f : Libsmb2 C) (errno : Errno) (o : OpenFlags)
    (HoldsAt : C → ℕ → List ℕ → Type 0) (Allowed : Error → Type 0)
    → Preads f errno HoldsAt Allowed
    → (n k : ℕ) → Serves (smb_file {G = G} f errno o n k) (FileHolds HoldsAt n k) Allowed
smb_file-Serves f errno o HoldsAt Allowed contract n k = record {
  reads = λ w file offset len held small.
      let (p, q) =
        (remote_file-Serves f errno o HoldsAt Allowed contract).reads (w.files k, w.sessions n) file
          offset len held small in
      put_back f errno o HoldsAt Allowed n k w file offset len
        (remote_read f errno o (w.files k, w.sessions n) offset len) p q;
}
