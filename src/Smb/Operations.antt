-- ===== src/Smb/Operations.antt =====
-- crates/krystallos-smb/src/actor.rs: the path and file operations that the session thread runs.
pub mod Times
pub mod Listing
use Prim.Native.Nat.{bit_and, bit_or}
use krystallos.Common.{
  ℕ, List, [], ◌∷◌, ◌++◌, ◌%◌, ◌^◌, Option, none, some, Bool, true, false, not, ◌&&◌, ◌||◌, ◌==◌,
  ltb, leb, if◌then◌else◌, Text, codes, text_eq, ℤ, pos, is_zero, is_negative, magnitude, length,
  decimal,
}
use krystallos.Common
use krystallos.Core.Error.{Error, Result, ok, err, backend}
use krystallos.Core.Entry.{EntryKind, file, directory, symlink, other, SystemTime, Metadata, Entry}
use krystallos.Core.Entry.Sorting.{sort_entries}
use krystallos.Core.FileHandle.{OpenMode}
use krystallos.Core.VfsPath.{VfsPath}
use krystallos.Smb.Libsmb2.{Libsmb2, Stat, Dirent}
use krystallos.Smb.SmbPath.{to_smb_path, cstring}
use krystallos.Smb.Errors.{Errno, from_parts}
use krystallos.Smb.OpenFiles
use krystallos.Smb.OpenFiles.{OpenFiles}

-- The `open` flags of the target platform; on unix they are those of the C library.
pub record OpenFlags : Type 0 where
  pub o_rdonly : ℕ
  pub o_wronly : ℕ
  pub o_rdwr : ℕ
  pub o_creat : ℕ
  pub o_trunc : ℕ
  pub o_excl : ℕ

abbrev pub windows_flags : OpenFlags
windows_flags = record {
  o_rdonly = 0x0000;
  o_wronly = 0x0001;
  o_rdwr = 0x0002;
  o_creat = 0x0100;
  o_trunc = 0x0200;
  o_excl = 0x0400;
}

abbrev pub access_flag : OpenFlags → Bool → Bool → ℕ
access_flag o true true = o.o_rdwr
access_flag o false true = o.o_wronly
access_flag o true false = o.o_rdonly
access_flag o false false = o.o_rdonly

unfoldable pub open_flags : OpenFlags → OpenMode → ℕ
open_flags o mode =
    let access = access_flag o mode.read mode.write in
    let created = if mode.create then bit_or access o.o_creat else access in
    let exclusive = if mode.create_new then bit_or created o.o_excl else created in
    if mode.truncate then bit_or exclusive o.o_trunc else exclusive

-- 3000-01-01T00:00:00Z, in seconds since the Unix epoch.
abbrev pub year_3000 : ℕ
year_3000 = 32_503_680_000

unfoldable pub timestamp : ℕ → ℕ → Option SystemTime
timestamp secs nsecs =
    if secs == 0 || ltb year_3000 secs
    then none
    else some (record { secs = pos secs; nanos = if ltb nsecs 1_000_000_000 then nsecs else 0 })

unfoldable pub kind_of : ℕ → EntryKind
kind_of smb2_type =
    if smb2_type == 1
    then directory
    else if smb2_type == 0
    then file
    else if smb2_type == 2
    then symlink
    else other

unfoldable pub metadata_from_stat : Stat → Metadata
metadata_from_stat st = record {
  kind = kind_of st.smb2_type;
  len = st.smb2_size;
  modified = timestamp st.smb2_mtime st.smb2_mtime_nsec;
  created = timestamp st.smb2_btime st.smb2_btime_nsec;
  accessed = timestamp st.smb2_atime st.smb2_atime_nsec;
  read_only = not (bit_and st.smb2_attributes 1 == 0);
}

abbrev pub is_self_or_parent : Text → Bool
is_self_or_parent name = text_eq name (codes ".") || text_eq name (codes "..")

unfoldable pub read_entries : List Dirent → List Entry
read_entries [] = []
read_entries (d ∷ ds) =
    let rest = read_entries ds in
    if is_self_or_parent d.name
    then rest
    else record { name = d.name; metadata = metadata_from_stat d.st } ∷ rest

module _ {C : Type 0} (f : Libsmb2 C) (errno : Errno) where
  -- `SmbContext::error`.
  unfoldable pub context_error : C → ℤ → Text → Error
  context_error c rc path = from_parts errno f.status_text (f.get_nterror c) rc (f.get_error c) path

  -- `if rc != 0 { return Err(ctx.error(rc, path)) }`, behind a call that returns only its code.
  abbrev pub unit_call : Text → ℤ × C → Result (Unit {0}) × C
  unit_call path (rc, c) = if is_zero rc then (ok tt, c) else (err (context_error c rc path), c)

  -- `cstring(…)?` and what follows it.
  abbrev pub on_cstring {ℓ} : {A : Type ℓ} → C → Result Text → (Text → Result A × C) → Result A × C
  on_cstring c (err e) k = (err e, c)
  on_cstring c (ok s) k = k s

  abbrev pub with_path {ℓ} : {A : Type ℓ} → C → VfsPath → (Text → Result A × C) → Result A × C
  with_path c path k = on_cstring c (cstring (to_smb_path path)) k

  abbrev pub listed : VfsPath → Option (List Dirent) × C → Result (List Entry) × C
  listed path (none, c) = (err (context_error c (pos 0) path.raw), c)
  listed path (some entries, c) = (ok (sort_entries (read_entries entries)), f.closedir c)

  unfoldable pub list_dir : C → VfsPath → Result (List Entry) × C
  list_dir c path = with_path c path (λ s. listed path (f.opendir c s))

  abbrev pub stat_result : VfsPath → (ℤ × Stat) × C → Result Metadata × C
  stat_result path ((rc, st), c) =
      if is_zero rc then (ok (metadata_from_stat st), c) else (err (context_error c rc path.raw), c)

  unfoldable pub stat_path : C → VfsPath → Result Metadata × C
  stat_path c path = with_path c path (λ s. stat_result path (f.stat c s))

  unfoldable pub mkdir : C → VfsPath → Result (Unit {0}) × C
  mkdir c path = with_path c path (λ s. unit_call path.raw (f.mkdir c s))

  unfoldable pub remove_file : C → VfsPath → Result (Unit {0}) × C
  remove_file c path = with_path c path (λ s. unit_call path.raw (f.unlink c s))

  unfoldable pub remove_dir : C → VfsPath → Result (Unit {0}) × C
  remove_dir c path = with_path c path (λ s. unit_call path.raw (f.rmdir c s))

  unfoldable pub rename : C → VfsPath → VfsPath → Result (Unit {0}) × C
  rename c from to =
      with_path c from (λ s. with_path c to (λ t. unit_call from.raw (f.rename c s t)))

  -- The size of a handle that was just opened; a failed query reads as zero.
  abbrev pub size_of : (ℤ × Stat) × C → ℕ × C
  size_of ((rc, st), c) = (if is_zero rc then st.smb2_size else 0, c)

  abbrev pub opened : OpenFiles → VfsPath → Option ℕ × C → Result (ℕ × ℕ) × (OpenFiles × C)
  opened files path (none, c) = (err (context_error c (pos 0) path.raw), (files, c))
  opened files path (some handle, c) =
      let (len, c') = size_of (f.fstat c handle) in
      let (id, files') = OpenFiles.insert files handle in (ok (id, len), (files', c'))

  abbrev pub open_cstring :
      OpenFlags
      → C
      → OpenFiles
      → VfsPath
      → OpenMode
      → Result Text
      → Result (ℕ × ℕ) × (OpenFiles × C)
  open_cstring o c files path mode (err e) = (err e, (files, c))
  open_cstring o c files path mode (ok s) = opened files path (f.open_path c s (open_flags o mode))

  unfoldable pub open_file :
      OpenFlags → C → OpenFiles → VfsPath → OpenMode → Result (ℕ × ℕ) × (OpenFiles × C)
  open_file o c files path mode = open_cstring o c files path mode (cstring (to_smb_path path))

  abbrev pub handle_label : ℕ → Text
  handle_label id = codes "file handle " ++ decimal id

  abbrev pub close_taken : C → ℕ → Option ℕ × OpenFiles → Result (Unit {0}) × (OpenFiles × C)
  close_taken c id (none, files) = (ok tt, (files, c))
  close_taken c id (some handle, files) =
      let (r, c') = unit_call (handle_label id) (f.close c handle) in (r, (files, c'))

  unfoldable pub close_file : C → OpenFiles → ℕ → Result (Unit {0}) × (OpenFiles × C)
  close_file c files id = close_taken c id (OpenFiles.take files id)

  abbrev pub stale_reason : Text → Text
  stale_reason what =
      codes "operation on " ++ (what ++ codes " used a file handle that is not open")

  -- `handle_of(…)?` and what follows it.
  abbrev pub on_handle {ℓ} : {A : Type ℓ} → C → Text → Option ℕ → (ℕ → Result A × C) → Result A × C
  on_handle c what none k = (err (backend (stale_reason what)), c)
  on_handle c what (some handle) k = k handle

  abbrev pub read_result : (ℤ × List ℕ) × C → Result (List ℕ) × C
  read_result ((rc, buf), c) =
      if is_negative rc
      then (err (context_error c rc (codes "read")), c)
      else (ok (Common.take (magnitude rc) buf), c)

  unfoldable pub read_at : C → OpenFiles → ℕ → ℕ → ℕ → Result (List ℕ) × C
  read_at c files id offset len =
      on_handle c (codes "read") (OpenFiles.get files id)
        (λ handle. read_result (f.pread c handle len offset))

  abbrev pub write_result : ℤ × C → Result ℕ × C
  write_result (rc, c) =
      if is_negative rc
      then (err (context_error c rc (codes "write")), c)
      else (ok (magnitude rc), c)

  unfoldable pub write_at : C → OpenFiles → ℕ → ℕ → List ℕ → Result ℕ × C
  write_at c files id offset bytes = on_handle c (codes "write") (OpenFiles.get files id) (λ handle.
      write_result (f.pwrite c handle (Common.take (length bytes % 2 ^ 32) bytes) offset))

  unfoldable pub set_len : C → OpenFiles → ℕ → ℕ → Result (Unit {0}) × C
  set_len c files id len =
      on_handle c (codes "truncate") (OpenFiles.get files id)
        (λ handle. unit_call (codes "truncate") (f.ftruncate c handle len))

  unfoldable pub flush : C → OpenFiles → ℕ → Result (Unit {0}) × C
  flush c files id =
      on_handle c (codes "flush") (OpenFiles.get files id)
        (λ handle. unit_call (codes "flush") (f.fsync c handle))
