-- ===== src/Smb/Actor/Handles/Copies.antt =====
-- A copy closes the two handles that it opens, on every path out.
use Prim.Native.Nat.{bit_or}
use krystallos.Common.{
  ℕ, zero, suc, List, ◌∷◌, Option, none, some, refl, ◌∙◌, ◌&&◌, ◌||◌, ◌==◌, ltb, ℤ, is_zero,
  is_negative, magnitude, if_both, Text, codes, length, take, arith, add_u64,
}
use krystallos.Core.Error.{Result, ok, err, backend}
use krystallos.Core.VfsPath.{VfsPath}
use krystallos.Smb.Libsmb2.{Libsmb2, Stat, CopyReply}
use krystallos.Smb.SmbPath.{cstring, to_smb_path}
use krystallos.Smb.Errors.{Errno}
use krystallos.Smb.Operations.{OpenFlags, context_error, size_of}
use krystallos.Smb.Copying.{
  Copied, copied, failed, unsupported, error, classify_copy_failure, after_chunk, server_loop,
  with_key, copy_server_side, after_write, write_loop, after_block, after_pread, through_loop,
  copy_through_here, fall_back, finish, fell_back, with_destination, with_source, copy_cstrings,
  copy_file, zero_bytes_reason, copy_fuel, copy_chunk_bytes,
}
use krystallos.Smb.Actor.Handles.{Traced, traced, Same, Quiet, Held, Held-Same, note_open}

Same-trans {ℓ} : {C : Type 0} (t u v : Traced C) → Same t u → Same u v → Same t v
Same-trans t u v p q = (q.0 ∙ p.0, q.1 ∙ p.1)

-- The same of a result that may be missing.
abbrev QuietO : {C A : Type 0} → Traced C → Option (A × Traced C) → Type 0
QuietO t none = Unit
QuietO t (some out) = Same t out.1

-- Whatever was held before is held behind it.
abbrev pub Restores : {C A : Type 0} → List ℕ → Option (A × Traced C) → Type 0
Restores held none = Unit
Restores held (some out) = Held held out.1

module _ {C : Type 0} (g : Libsmb2 C) (errno : Errno) where
  abbrev pub f : Libsmb2 (Traced C)
  f = traced g

  after_chunk-Quiet :
      (t : Traced C) (again : ℕ → ℕ → Traced C → Option (Copied × Traced C)) (offset chunk : ℕ)
      (out : (ℤ × CopyReply) × Traced C)
      → Same t out.1
      → ((i j : ℕ) (u : Traced C) → Same t u → QuietO t (again i j u))
      → QuietO t (after_chunk f errno again offset chunk out)
  unfolding after_chunk
  after_chunk-Quiet t again offset chunk ((rc, reply), u) s k =
      if_both (QuietO t) (is_zero rc) _ _
        (if_both (QuietO t) (reply.total_bytes_written == 0)
          (some (failed (error (backend zero_bytes_reason)), u))
          (again (add_u64 offset reply.total_bytes_written) chunk u) s (k _ _ u s))
        (if_both (QuietO t) (ltb 0 reply.chunk_bytes_written && ltb reply.chunk_bytes_written chunk)
          (again offset reply.chunk_bytes_written u)
          (some (failed (classify_copy_failure f errno u rc), u)) (k _ _ u s) s)

  server_loop-Quiet :
      (fuel : ℕ) (key : List ℕ) (dst size offset chunk : ℕ) (t u : Traced C)
      → Same t u
      → QuietO t (server_loop f errno fuel key dst size offset chunk u)
  unfolding server_loop
  server_loop-Quiet zero key dst size offset chunk t u s = tt
  server_loop-Quiet (suc fuel) key dst size offset chunk t u s =
      if_both (QuietO t) (ltb offset size) _ (some (copied offset, u))
        (after_chunk-Quiet t (server_loop f errno fuel key dst size) offset chunk
          (f.copychunk u key dst offset _) s
          (λ i j v q. server_loop-Quiet fuel key dst size i j t v q))
        s

  copy_server_side-Quiet :
      (t : Traced C) (src dst size : ℕ) → QuietO t (copy_server_side f errno t src dst size)
  unfolding copy_server_side
  copy_server_side-Quiet t src dst size = keyed (f.request_resume_key t src) (refl, refl)
    where
      keyed :
          (out : (ℤ × List ℕ) × Traced C)
          → Same t out.1
          → QuietO t (
              with_key f errno
                (λ key. server_loop f errno (copy_fuel size) key dst size 0 copy_chunk_bytes)
                out)
      keyed ((rc, key), u) s =
          if_both (QuietO t) (is_zero rc) _ (some (failed (classify_copy_failure f errno u rc), u))
            (server_loop-Quiet (copy_fuel size) key dst size 0 copy_chunk_bytes t u s) s

  after_write-Quiet :
      (t : Traced C) (again : ℕ → Traced C → Result (Unit {0}) × Traced C) (written : ℕ)
      (out : ℤ × Traced C)
      → Same t out.1
      → ((i : ℕ) (u : Traced C) → Same t u → Quiet t (again i u))
      → Quiet t (after_write f errno again written out)
  after_write-Quiet t again written (rc, u) s k =
      if_both (Quiet t) (is_negative rc || is_zero rc)
        (err (context_error f errno u rc (codes "copy (write)")), u) _ s (k _ u s)

  write_loop-Quiet :
      (fuel dst : ℕ) (bytes : List ℕ) (offset written : ℕ) (t u : Traced C)
      → Same t u
      → Quiet t (write_loop f errno fuel dst bytes offset written u)
  unfolding write_loop
  write_loop-Quiet zero dst bytes offset written t u s = s
  write_loop-Quiet (suc fuel) dst bytes offset written t u s =
      if_both (Quiet t) (ltb written (length bytes)) _ (ok tt, u)
        (after_write-Quiet t (write_loop f errno fuel dst bytes offset) written (f.pwrite u dst _ _)
          s (λ i v q. write_loop-Quiet fuel dst bytes offset i t v q))
        s

  after_block-Quiet :
      (t : Traced C) (again : ℕ → Traced C → Result ℕ × Traced C) (next : ℕ)
      (out : Result (Unit {0}) × Traced C)
      → Same t out.1
      → ((u : Traced C) → Same t u → Quiet t (again next u))
      → Quiet t (after_block f errno again next out)
  after_block-Quiet t again next (err e, u) s k = s
  after_block-Quiet t again next (ok x, u) s k = k u s

  after_pread-Quiet :
      (t : Traced C) (again : ℕ → Traced C → Result ℕ × Traced C) (dst offset : ℕ)
      (out : (ℤ × List ℕ) × Traced C)
      → Same t out.1
      → ((i : ℕ) (u : Traced C) → Same t u → Quiet t (again i u))
      → Quiet t (after_pread f errno again dst offset out)
  unfolding after_pread
  after_pread-Quiet t again dst offset ((rc, buf), u) s k =
      if_both (Quiet t) (is_negative rc) (err (context_error f errno u rc (codes "copy (read)")), u)
        _ s
        (if_both (Quiet t) (is_zero rc) (ok offset, u) _ s
          (after_block-Quiet t again _ _
            (write_loop-Quiet (length (take (magnitude rc) buf)) dst (take (magnitude rc) buf)
              offset 0 t u s)
            (λ v q. k _ v q)))

  through_loop-Quiet :
      (fuel src dst size offset : ℕ) (t u : Traced C)
      → Same t u
      → Quiet t (through_loop f errno fuel src dst size offset u)
  unfolding through_loop
  through_loop-Quiet zero src dst size offset t u s = s
  through_loop-Quiet (suc fuel) src dst size offset t u s =
      if_both (Quiet t) (ltb offset size) _ (ok offset, u)
        (after_pread-Quiet t (through_loop f errno fuel src dst size) dst offset
          (f.pread u src _ offset) s (λ i v q. through_loop-Quiet fuel src dst size i t v q))
        s

  fall_back-Quiet :
      (t : Traced C) (src dst size : ℕ) (out : Copied × Traced C)
      → Same t out.1
      → Quiet t (fall_back f errno src dst size out)
  unfolding copy_through_here
  fall_back-Quiet t src dst size (copied n, u) s = s
  fall_back-Quiet t src dst size (failed unsupported, u) s =
      through_loop-Quiet size src dst size 0 t u s
  fall_back-Quiet t src dst size (failed (error e), u) s = s

  close-Held :
      (h : ℕ) (held : List ℕ) (t : Traced C) → Held (h ∷ held) t → Held held (f.close t h).1
  close-Held h held t p = λ x. ground (arith, p x)

  finish-Held :
      (src dst : ℕ) (to : Text) (held : List ℕ) (out : Result ℕ × Traced C)
      → Held (dst ∷ src ∷ held) out.1
      → Held held (finish f errno src dst to out).1
  finish-Held src dst to held (ok n, u) p =
      close-Held src held (f.close u dst).1 (close-Held dst (src ∷ held) u p)
  finish-Held src dst to held (err e, u) p =
      close-Held src held (f.unlink (f.close u dst).1 to).1 (close-Held dst (src ∷ held) u p)

  fell_back-Restores :
      (t : Traced C) (src dst size : ℕ) (to : Text) (held : List ℕ)
      (out : Option (Copied × Traced C))
      → Held (dst ∷ src ∷ held) t
      → QuietO t out
      → Restores held (fell_back f errno src dst size to out)
  fell_back-Restores t src dst size to held none p q = tt
  fell_back-Restores t src dst size to held (some out) p q =
      finish-Held src dst to held (fall_back f errno src dst size out) (
        Held-Same (dst ∷ src ∷ held) t (fall_back f errno src dst size out).1
          (fall_back-Quiet t src dst size out q) p)

  -- What an open adds to the handles held.
  abbrev Opened : List ℕ → Option ℕ × Traced C → Type 0
  Opened held (none, u) = Held held u
  Opened held (some h, u) = Held (h ∷ held) u

  open-Held :
      (held : List ℕ) (t : Traced C) (out : Option ℕ × C)
      → Held held t
      → Opened held (note_open t out)
  open-Held held t (none, c) p = p
  open-Held held t (some h, c) p = λ x. ground (arith, p x)

  with_destination-Restores :
      (src size : ℕ) (to : VfsPath) (s : Text) (held : List ℕ) (out : Option ℕ × Traced C)
      → Opened (src ∷ held) out
      → Restores held (with_destination f errno src size to s out)
  with_destination-Restores src size to s held (none, u) p = close-Held src held u p
  with_destination-Restores src size to s held (some dst, u) p =
      if_both (Restores held) (size == 0) _ _
        (close-Held src held (f.close u dst).1 (close-Held dst (src ∷ held) u p))
        (fell_back-Restores u src dst size s held (copy_server_side f errno u src dst size) p
          (copy_server_side-Quiet u src dst size))

  with_source-Restores :
      (o : OpenFlags) (from to : VfsPath) (s : Text) (held : List ℕ) (out : Option ℕ × Traced C)
      → Opened held out
      → Restores held (with_source f errno o from to s out)
  with_source-Restores o from to s held (none, u) p = p
  with_source-Restores o from to s held (some src, u) p = sized (f.fstat u src) p
    where
      sized :
          (out : (ℤ × Stat) × Traced C)
          → Held (src ∷ held) out.1
          → Restores held (
              with_destination f errno src (size_of f errno out).0 to s (
                f.open_path
                  (size_of f errno out).1
                  s
                  (bit_or (bit_or o.o_wronly o.o_creat) o.o_excl)))
      sized ((rc, st), v) q =
          with_destination-Restores src _ to s held _
            (open-Held (src ∷ held) v (g.open_path v.inner s _) q)

  copy_cstrings-Restores :
      (o : OpenFlags) (t : Traced C) (from to : VfsPath) (a b : Result Text) (held : List ℕ)
      → Held held t
      → Restores held (copy_cstrings f errno o t from to a b)
  copy_cstrings-Restores o t from to (err e) b held p = p
  copy_cstrings-Restores o t from to (ok s) (err e) held p = p
  copy_cstrings-Restores o t from to (ok s) (ok u) held p =
      with_source-Restores o from to u held (f.open_path t s o.o_rdonly)
        (open-Held held t (g.open_path t.inner s o.o_rdonly) p)

  pub copy_file-Restores :
      (o : OpenFlags) (t : Traced C) (from to : VfsPath) (held : List ℕ)
      → Held held t
      → Restores held (copy_file f errno o t from to)
  unfolding copy_file
  copy_file-Restores o t from to held p =
      copy_cstrings-Restores o t from to (cstring (to_smb_path from)) (cstring (to_smb_path to))
        held p
