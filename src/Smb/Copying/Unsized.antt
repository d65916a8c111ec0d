-- ===== src/Smb/Copying/Unsized.antt =====
-- A copy of a source whose size cannot be had.
use Prim.Native.Nat.{bit_or}
use krystallos.Common.{ℕ, ◌≡◌, refl, some, false, Text, ℤ, is_zero}
use krystallos.Core.Error.{ok}
use krystallos.Core.VfsPath.{VfsPath}
use krystallos.Smb.Libsmb2.{Libsmb2, Stat}
use krystallos.Smb.SmbPath.{to_smb_path, cstring}
use krystallos.Smb.Errors.{Errno}
use krystallos.Smb.Operations.{OpenFlags}
use krystallos.Smb.Copying.{copy_file}

-- Where source and destination open, and the query of the source's size fails, the copy succeeds with no
-- byte copied, whatever the source holds: behind the two opens and the query there are only the two
-- closes, so the destination is left as the open made it.
pub copy_file_unsized :
    {C : Type 0} (f : Libsmb2 C) (errno : Errno) (o : OpenFlags) (c c1 c2 c3 : C)
    (from to : VfsPath) (s t : Text) (src dst : ℕ) (rc : ℤ) (st : Stat)
    → cstring (to_smb_path from) ≡ ok s
    → cstring (to_smb_path to) ≡ ok t
    → f.open_path c s o.o_rdonly ≡ (some src, c1)
    → f.fstat c1 src ≡ ((rc, st), c2)
    → is_zero rc ≡ false
    → f.open_path c2 t (bit_or (bit_or o.o_wronly o.o_creat) o.o_excl) ≡ (some dst, c3)
    → copy_file f errno o c from to ≡ some (ok 0, (f.close (f.close c3 dst).1 src).1)
unfolding copy_file
copy_file_unsized f errno o c c1 c2 c3 from to s t src dst rc st names_from names_to opens_from asks
      fails opens_to =
    simp (names_from, names_to, opens_from, asks, fails, opens_to) refl
