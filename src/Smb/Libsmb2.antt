-- ===== src/Smb/Libsmb2.antt =====
-- What crates/krystallos-smb calls of libsmb2 (crates/krystallos-sys-smb2/src/ffi.rs declares it):
-- functions over the state of a session context, which the backend takes as a parameter.
use krystallos.Common.{ℕ, List, Option, Text, ℤ}

-- `smb2_stat_64`.
pub record Stat : Type 0 where
  pub smb2_type : ℕ
  pub smb2_nlink : ℕ
  pub smb2_ino : ℕ
  pub smb2_size : ℕ
  pub smb2_atime : ℕ
  pub smb2_atime_nsec : ℕ
  pub smb2_mtime : ℕ
  pub smb2_mtime_nsec : ℕ
  pub smb2_ctime : ℕ
  pub smb2_ctime_nsec : ℕ
  pub smb2_btime : ℕ
  pub smb2_btime_nsec : ℕ
  pub smb2_attributes : ℕ
  pub smb2_reparse_tag : ℕ

-- `smb2dirent`; a null name reads as the empty text.
pub record Dirent : Type 0 where
  pub name : Text
  pub st : Stat

-- `smb2_srv_copychunk_reply`.
pub record CopyReply : Type 0 where
  pub chunks_written : ℕ
  pub chunk_bytes_written : ℕ
  pub total_bytes_written : ℕ

-- A call returns its code, what it writes through its pointers, and the context. A null pointer is
-- `none`. `opendir` stands for the entries that `smb2_readdir` yields until it returns null.
pub record Libsmb2 (C : Type 0) : Type 0 where
  pub opendir : C → Text → Option (List Dirent) × C
  pub closedir : C → C
  pub stat : C → Text → (ℤ × Stat) × C
  pub fstat : C → ℕ → (ℤ × Stat) × C
  pub mkdir : C → Text → ℤ × C
  pub unlink : C → Text → ℤ × C
  pub rmdir : C → Text → ℤ × C
  pub rename : C → Text → Text → ℤ × C
  pub open_path : C → Text → ℕ → Option ℕ × C
  pub close : C → ℕ → ℤ × C
  pub pread : C → ℕ → ℕ → ℕ → (ℤ × List ℕ) × C
  pub pwrite : C → ℕ → List ℕ → ℕ → ℤ × C
  pub ftruncate : C → ℕ → ℕ → ℤ × C
  pub fsync : C → ℕ → ℤ × C
  pub request_resume_key : C → ℕ → (ℤ × List ℕ) × C
  pub copychunk : C → List ℕ → ℕ → ℕ → ℕ → (ℤ × CopyReply) × C
  pub get_error : C → Text
  pub get_nterror : C → ℕ
  pub status_text : ℕ → Text
