-- ===== src/Smb/Tests.antt =====
-- A share of one file in memory, whose server moves two bytes at a time.
mod Errors
mod Sessions
mod Secrets
use krystallos.Common
use krystallos.Common.{
  ℕ, ◌+◌, ◌<◌, min, List, [], ◌∷◌, ◌≡◌, refl, inr, arith, Option, none, some, true, false, Text,
  codes, length, drop, u64_mod, add_u64, count, ℤ, pos, negsuc, ◌^◌, ◌||◌, ◌==◌, ◌⊎◌, ◌≤◌,
  if◌then◌else◌, null, member, is_negative, magnitude,
}
use krystallos.Core.Error.{ok, err, connection_lost, not_found, is_fatal_to_session}
use krystallos.Core.Entry.{SystemTime}
use krystallos.Core.FileHandle.{read_exact_at, read_mode}
use krystallos.Core.FileHandle.Contract.{Returns, Serves}
use krystallos.Core.FileHandle.ReadExact.{IsWhole, Refusal}
use krystallos.Core.FileHandle.Memory.{Never, IsRead-capped}
use krystallos.Core.VfsPath.{VfsPath, new, of_segments}
use krystallos.Cache.ReadAhead.{read_ahead, with_window}
use krystallos.Cache.ReadAhead.Fill.{Coherent}
use krystallos.Smb.Libsmb2.{Libsmb2, Stat, Dirent}
use krystallos.Smb.SmbPath.{to_smb_path, new-to_smb_path}
use krystallos.Smb.Errors.{windows_errno, from_parts, from_status, status_token, rejected, gone}
use krystallos.Smb.Errors.Classes.{NamesPath, from_parts-NamesPath, from_parts_minus_one}
use krystallos.Smb.OpenFiles
use krystallos.Smb.OpenFiles.{OpenFiles, no_files, insert, get}
use krystallos.Smb.OpenFiles.Table.{IsTable, insert_fresh, take_lem}
use krystallos.Smb.Operations.{windows_flags, timestamp, year_3000, list_dir}
use krystallos.Smb.Operations.Listing.{Lists, list_dir-Lists}
use krystallos.Smb.Copying.{copy_server_side}
use krystallos.Smb.Actor.{Command, actor_thread, open_path, close, stat, shutdown}
use krystallos.Smb.Actor.Handles.{no_trace, traced}
use krystallos.Smb.Actor.Handles.Session.{actor_thread_closes}
use krystallos.Smb.RemoteFile.{
  Session, RemoteFile, remote_file, remote_close, remote_drop, remote_read, remote_write,
  remote_set_len, remote_flush, closed_error,
}
use krystallos.Smb.RemoteFile.Reads.{Preads, RemoteHolds, remote_read_exact}
use krystallos.Smb.RemoteFile.Closing.{closed_for_good}
use krystallos.Smb.Driver.{ConnectConfig}
use krystallos.Smb.Connection.{Connector, connect_context, thread_of}
use krystallos.Smb.Connection.Ledger.{Accounts, counted, no_contexts, thread_of-Accounts}
use krystallos.Smb.Backend.{smb_file}
use krystallos.Smb.Backend.Reads.{FileHolds, smb_file-Serves}

abbrev pub no_stat : Stat
no_stat = record {
  smb2_type = 0;
  smb2_nlink = 1;
  smb2_ino = 0;
  smb2_size = 5;
  smb2_atime = 0;
  smb2_atime_nsec = 0;
  smb2_mtime = 0;
  smb2_mtime_nsec = 0;
  smb2_ctime = 0;
  smb2_ctime_nsec = 0;
  smb2_btime = 0;
  smb2_btime_nsec = 0;
  smb2_attributes = 0;
  smb2_reparse_tag = 0;
}

abbrev read_two : List ℕ → ℕ → ℕ → List ℕ
read_two c n offset = Common.take (min n 2) (drop offset c)

abbrev pub memory : Libsmb2 (List ℕ)
memory = record {
  opendir = λ c s. (none, c);
  closedir = λ c. c;
  stat = λ c s. ((pos 0, no_stat), c);
  fstat = λ c h. ((pos 0, no_stat), c);
  mkdir = λ c s. (negsuc 0, c);
  unlink = λ c s. (negsuc 0, c);
  rmdir = λ c s. (negsuc 0, c);
  rename = λ c s t. (negsuc 0, c);
  open_path = λ c s flags. (some 7, c);
  close = λ c h. (pos 0, c);
  pread = λ c h n offset. ((pos (length (read_two c n offset)), read_two c n offset), c);
  pwrite = λ c h content offset. (negsuc 0, c);
  ftruncate = λ c h n. (negsuc 0, c);
  fsync = λ c h. (pos 0, c);
  request_resume_key = λ c h. ((pos 0, []), c);
  copychunk = λ c key h offset n. (
    (pos 0, record { chunks_written = 0; chunk_bytes_written = 0; total_bytes_written = min n 2 }),
    c,
  );
  get_error = λ c. [];
  get_nterror = λ c. 0;
  status_text = λ n. [];
}

abbrev pub five : List ℕ
five = 10 ∷ 11 ∷ 12 ∷ 13 ∷ 14 ∷ []

abbrev pub Has : List ℕ → ℕ → List ℕ → Type 0
Has c handle file = c ≡ file

take-length :
    (n : ℕ) (bs : List ℕ)
    → Common.take (length (Common.take n bs)) (Common.take n bs) ≡ Common.take n bs
take-length n bs = Common.take_all (length (Common.take n bs)) (Common.take n bs) (omega arith)

pub memory-Preads : Preads memory windows_errno Has Never
memory-Preads = record {
  preads = λ c handle file n offset h small. (
    h,
    inr (
      refl,
      rw (take-length (min n 2) (drop offset c), ← h) (IsRead-capped 2 c offset n (omega arith)),
    ),
  );
}

abbrev session : Session (List ℕ)
session = record {
  actor = record { ctx = five; files = (insert no_files 7).1 };
  alive = true;
  max_read_size = 2;
  max_write_size = 2;
  dialect = 0x0311;
}

abbrev pub a_path : VfsPath
a_path = of_segments (codes "a" ∷ [])

abbrev a_file : RemoteFile
a_file = record { id = 1; len = 5; closed = false; path = a_path }

session-RemoteHolds : RemoteHolds Has (a_file, session) five
unfolding get OpenFiles.lookup insert OpenFiles.put add_u64
session-RemoteHolds = record {
  still_open = refl;
  live = refl;
  readable = omega arith;
  word = omega arith;
  handle = 7;
  known = refl;
  held = refl;
}

no_files-IsTable : IsTable no_files
no_files-IsTable = record { distinct = tt; below = tt }

fresh-Coherent : Coherent (RemoteHolds Has) (with_window (a_file, session) 4) five
fresh-Coherent = record {
  held = session-RemoteHolds;
  window = record { exact = refl; ended = λ h. ground (arith, h); small = omega arith };
  sized = omega arith;
}

remote_read_exact_example :
    Returns
      (IsWhole five 1 3)
      (Refusal Never five 1 3)
      (read_exact_at
        (read_ahead (remote_file memory windows_errno windows_flags) u64_mod)
        (with_window (a_file, session) 4)
        1
        3).0
remote_read_exact_example =
    remote_read_exact memory windows_errno windows_flags u64_mod Has Never memory-Preads
      (omega arith) five (with_window (a_file, session) 4) 1 3 fresh-Coherent (omega arith)

abbrev pub commands : List Command
commands = open_path a_path read_mode ∷ close 4 ∷ stat a_path ∷ shutdown ∷ close 1 ∷ []

actor_thread_closes_example :
    let end =
      (actor_thread (traced memory) windows_errno windows_flags (no_trace five) commands).ctx in
    count 7 end.opened ≡ count 7 end.closed
actor_thread_closes_example =
    actor_thread_closes memory windows_errno windows_flags five commands 7 (omega arith)

insert_fresh_example :
    let (id, files) = insert no_files 7 in
    (get no_files id ≡ none)
    × ((j : ℕ) → get files j ≡ (if id == j then some 7 else get no_files j))
    × IsTable files
insert_fresh_example = insert_fresh no_files 7 no_files-IsTable (omega arith)

new-to_smb_path_example : new (to_smb_path a_path) ≡ ok a_path
new-to_smb_path_example = new-to_smb_path a_path (record {
  parts = codes "a" ∷ [];
  each = (record { ordinary = refl; stays = refl; free = (refl, tt) }, tt);
  whole = refl;
})

abbrev after_close : RemoteFile × Session (List ℕ)
after_close = (remote_close memory windows_errno windows_flags (a_file, session)).1

closed_for_good_example :
    (remote_close memory windows_errno windows_flags after_close ≡ (ok tt, after_close))
    × (remote_drop memory windows_errno windows_flags after_close ≡ after_close.1)
    × (remote_read memory windows_errno windows_flags after_close 0 1
        ≡ (err (closed_error after_close.0), after_close))
    × (remote_write memory windows_errno windows_flags after_close 0 (1 ∷ [])
        ≡ (err (closed_error after_close.0), after_close))
    × (remote_set_len memory windows_errno windows_flags after_close 0
        ≡ (err (closed_error after_close.0), after_close))
    × (remote_flush memory windows_errno windows_flags after_close
        ≡ (err (closed_error after_close.0), after_close))
closed_for_good_example =
    closed_for_good memory windows_errno windows_flags (a_file, session) 0 0 1 []
