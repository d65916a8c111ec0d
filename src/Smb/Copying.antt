-- ===== src/Smb/Copying.antt =====
-- crates/krystallos-smb/src/actor.rs: `copy_file`, by the server or through this process. A guard
-- (`FhGuard`) closes its handle where it goes out of scope.
pub mod Ends
pub mod Through
pub mod Unsized
mod Tests
use krystallos.Common.{
  ℕ, zero, suc, ◌+◌, ◌-◌, ◌*◌, ◌^◌, min, List, [], Option, none, some, Bool, true, false, not, ◌&&◌,
  ◌||◌, ◌==◌, ltb, if◌then◌else◌, Text, codes, member, length, take, drop, add_u64, ℤ, pos, is_zero,
  is_negative, magnitude,
}
use Prim.Native.Nat.{bit_or}
use krystallos.Core.Error.{Error, Result, ok, err, backend}
use krystallos.Core.VfsPath.{VfsPath}
use krystallos.Smb.Libsmb2.{Libsmb2, CopyReply}
use krystallos.Smb.SmbPath.{to_smb_path, cstring}
use krystallos.Smb.Errors.{Errno}
use krystallos.Smb.Operations.{OpenFlags, context_error, on_cstring, with_path, size_of}

abbrev pub copy_chunk_bytes : ℕ
copy_chunk_bytes = 1024 * 1024

pub data CopyFailed : Type 0 where
  unsupported : CopyFailed
  error : Error → CopyFailed

pub data Copied : Type 0 where
  copied : ℕ → Copied
  failed : CopyFailed → Copied

unfoldable pub is_copy_unsupported : ℕ → Bool
is_copy_unsupported status = status == 0xC00000BB || status == 0xC0000010 || status == 0xC0000057

abbrev pub zero_bytes_reason : Text
zero_bytes_reason = codes "the server reported a copy of zero bytes"

-- Every round of the server-side loop moves a byte or shrinks the chunk, so this fuel is enough.
abbrev pub copy_fuel : ℕ → ℕ
copy_fuel size = size + copy_chunk_bytes + 1

module _ {C : Type 0} (f : Libsmb2 C) (errno : Errno) where
  unfoldable pub classify_copy_failure : C → ℤ → CopyFailed
  classify_copy_failure c rc =
      if is_copy_unsupported (f.get_nterror c)
      then unsupported
      else error (context_error f errno c rc (codes "copy"))

  -- What follows a COPYCHUNK request: the next round has an offset and a chunk size.
  unfoldable pub after_chunk :
      (ℕ → ℕ → C → Option (Copied × C)) → ℕ → ℕ → (ℤ × CopyReply) × C → Option (Copied × C)
  after_chunk again offset chunk ((rc, reply), c) =
      let limit = reply.chunk_bytes_written in
      let written = reply.total_bytes_written in
      if is_zero rc
      then (if written == 0
          then some (failed (error (backend zero_bytes_reason)), c)
          else again (add_u64 offset written) chunk c)
      else if ltb 0 limit && ltb limit chunk
      then again offset limit c
      else some (failed (classify_copy_failure c rc), c)

  -- The `while offset < size` loop; `none` is fuel that ran out.
  unfoldable pub server_loop : ℕ → List ℕ → ℕ → ℕ → ℕ → ℕ → C → Option (Copied × C)
  server_loop zero key dst size offset chunk c = none
  server_loop (suc fuel) key dst size offset chunk c =
      let length = min chunk (min (size - offset) (2 ^ 32 - 1)) in
      let more =
        after_chunk (server_loop fuel key dst size) offset chunk
          (f.copychunk c key dst offset length) in
      if ltb offset size then more else some (copied offset, c)

  abbrev pub with_key : (List ℕ → C → Option (Copied × C)) → (ℤ × List ℕ) × C → Option (Copied × C)
  with_key k ((rc, key), c) =
      if is_zero rc then k key c else some (failed (classify_copy_failure c rc), c)

  unfoldable pub copy_server_side : C → ℕ → ℕ → ℕ → Option (Copied × C)
  copy_server_side c src dst size =
      with_key (λ key. server_loop (copy_fuel size) key dst size 0 copy_chunk_bytes)
        (f.request_resume_key c src)

  abbrev pub after_write : (ℕ → C → Result (Unit {0}) × C) → ℕ → ℤ × C → Result (Unit {0}) × C
  after_write again written (rc, c) =
      if is_negative rc || is_zero rc
      then (err (context_error f errno c rc (codes "copy (write)")), c)
      else again (written + magnitude rc) c

  -- The `while written < read` loop. A round that goes on writes a byte at least, so as much fuel as
  -- there are bytes is enough.
  unfoldable pub write_loop : ℕ → ℕ → List ℕ → ℕ → ℕ → C → Result (Unit {0}) × C
  write_loop zero dst bytes offset written c = (ok tt, c)
  write_loop (suc fuel) dst bytes offset written c =
      let more =
        after_write (write_loop fuel dst bytes offset) written
          (f.pwrite c dst (drop written bytes) (add_u64 offset written)) in
      if ltb written (length bytes) then more else (ok tt, c)

  abbrev pub after_block : (ℕ → C → Result ℕ × C) → ℕ → Result (Unit {0}) × C → Result ℕ × C
  after_block again next (err e, c) = (err e, c)
  after_block again next (ok u, c) = again next c

  unfoldable pub after_pread : (ℕ → C → Result ℕ × C) → ℕ → ℕ → (ℤ × List ℕ) × C → Result ℕ × C
  after_pread again dst offset ((rc, buf), c) =
      let bytes = take (magnitude rc) buf in
      if is_negative rc
      then (err (context_error f errno c rc (codes "copy (read)")), c)
      else if is_zero rc
      then (ok offset, c)
      else after_block again (add_u64 offset (magnitude rc))
          (write_loop (length bytes) dst bytes offset 0 c)

  -- A round that goes on reads a byte at least, so `size` rounds are enough.
  unfoldable pub through_loop : ℕ → ℕ → ℕ → ℕ → ℕ → C → Result ℕ × C
  through_loop zero src dst size offset c = (ok offset, c)
  through_loop (suc fuel) src dst size offset c =
      let want = min (size - offset) copy_chunk_bytes in
      let more =
        after_pread (through_loop fuel src dst size) dst offset (f.pread c src want offset) in
      if ltb offset size then more else (ok offset, c)

  unfoldable pub copy_through_here : C → ℕ → ℕ → ℕ → Result ℕ × C
  copy_through_here c src dst size = through_loop size src dst size 0 c

  abbrev pub closing {ℓ} : {A : Type ℓ} → ℕ → A × C → A × C
  closing handle (r, c) = (r, (f.close c handle).1)

  -- `outcome`: a server without COPYCHUNK has the bytes moved here.
  abbrev pub fall_back : ℕ → ℕ → ℕ → Copied × C → Result ℕ × C
  fall_back src dst size (copied n, c) = (ok n, c)
  fall_back src dst size (failed unsupported, c) = copy_through_here c src dst size
  fall_back src dst size (failed (error e), c) = (err e, c)

  -- The destination is closed, and removed behind a failure; then the source is closed.
  abbrev pub finish : ℕ → ℕ → Text → Result ℕ × C → Result ℕ × C
  finish src dst to (ok n, c) = closing src (closing dst (ok n, c))
  finish src dst to (err e, c) =
      let c' = (f.close c dst).1 in closing src (err e, (f.unlink c' to).1)

  abbrev pub fell_back : ℕ → ℕ → ℕ → Text → Option (Copied × C) → Option (Result ℕ × C)
  fell_back src dst size to none = none
  fell_back src dst size to (some out) = some (finish src dst to (fall_back src dst size out))

  abbrev pub with_destination : ℕ → ℕ → VfsPath → Text → Option ℕ × C → Option (Result ℕ × C)
  with_destination src size to s (none, c) =
      some (closing src (err (context_error f errno c (pos 0) to.raw), c))
  with_destination src size to s (some dst, c) =
      let moved = fell_back src dst size s (copy_server_side c src dst size) in
      if size == 0 then some (closing src (closing dst (ok 0, c))) else moved

  abbrev pub with_source :
      OpenFlags → VfsPath → VfsPath → Text → Option ℕ × C → Option (Result ℕ × C)
  with_source o from to s (none, c) = some (err (context_error f errno c (pos 0) from.raw), c)
  with_source o from to s (some src, c) =
      let (size, c') = size_of f errno (f.fstat c src) in
      with_destination src size to s
        (f.open_path c' s (bit_or (bit_or o.o_wronly o.o_creat) o.o_excl))

  abbrev pub copy_cstrings :
      OpenFlags → C → VfsPath → VfsPath → Result Text → Result Text → Option (Result ℕ × C)
  copy_cstrings o c from to (err e) t = some (err e, c)
  copy_cstrings o c from to (ok s) (err e) = some (err e, c)
  copy_cstrings o c from to (ok s) (ok t) = with_source o from to t (f.open_path c s o.o_rdonly)

  unfoldable pub copy_file : OpenFlags → C → VfsPath → VfsPath → Option (Result ℕ × C)
  copy_file o c from to =
      copy_cstrings o c from to (cstring (to_smb_path from)) (cstring (to_smb_path to))
