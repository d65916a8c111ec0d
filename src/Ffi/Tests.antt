-- ===== src/Ffi/Tests.antt =====
-- A file in memory that reads two bytes at a time, a backend with no files, and a request.
use krystallos.Common.{
  ℕ, none, some, List, [], ◌∷◌, ◌≡◌, refl, arith, true, false, not, ◌||◌, if◌then◌else◌, Text,
  codes,
}
use krystallos.Core.Error
use krystallos.Core.Error.{IoKind}
use krystallos.Core.Entry.{file_metadata}
use krystallos.Core.FileHandle.Memory.{capped, Holds, Never, capped-Serves}
use krystallos.Core.Backend.{StorageBackend, full}
use krystallos.Ffi.Error.{ok, err}
use krystallos.Ffi.Types.{
  OpenFlags, create_exclusive_flags, read_only_flags, open_mode_from, already_closed, info_from,
  to_millis, from_core,
}
use krystallos.Ffi.Types.Times.{Millis, stat_times}
use krystallos.Ffi.Types.Flags.{open_mode_from_lem}
use krystallos.Smb.Libsmb2.{Stat}
use krystallos.Smb.Operations.{metadata_from_stat, timestamp}
use krystallos.Smb.RemoteFile
use krystallos.Ffi.File
use krystallos.Ffi.File.{File}
use krystallos.Ffi.File.Reads.{Answers, read_at-Answers}
use krystallos.Ffi.File.Released.{release_for_good}
use krystallos.Ffi.Session
use krystallos.Ffi.Session.{Session}
use krystallos.Ffi.Session.Disconnected.{disconnect_for_good}

abbrev five : List ℕ
five = 10 ∷ 11 ∷ 12 ∷ 13 ∷ 14 ∷ []

abbrev io_text : IoKind → Text
io_text k = codes "failed"

abbrev a_file : File (List ℕ)
a_file = record { inner = five; path = codes "/a"; len = 5; closed = false }

read_at-Answers_example :
    let out = File.read_at io_text (capped 2) 1 9 a_file in
    Answers io_text Never five 1 9 out.0 × Holds out.1.inner five × (out.1.closed ≡ false)
read_at-Answers_example =
    read_at-Answers io_text (capped 2) Holds Never (capped-Serves 2 (omega arith)) five a_file 1 9
      refl refl (omega arith)

release_for_good_example :
    let q = (File.release io_text (capped 2) a_file).1 in
    let gone = already_closed (codes "file") in
    (File.release io_text (capped 2) q ≡ (ok tt, q))
    × (File.read_at io_text (capped 2) 0 3 q ≡ (err gone, q))
    × (File.read_exact_at io_text (capped 2) 0 3 q ≡ (err gone, q))
    × (File.write_at io_text (capped 2) 0 five q ≡ (err gone, q))
    × (File.set_len io_text (capped 2) 3 q ≡ (err gone, q))
    × (File.flush io_text (capped 2) q ≡ (err gone, q))
release_for_good_example = release_for_good io_text (capped 2) a_file 0 3 five

abbrev flags : OpenFlags
flags = record create_exclusive_flags { truncate = true }

open_mode_from_lem_example :
    let m = open_mode_from flags in
    (m.read ≡ (if flags.create_new then false else flags.read || not flags.write))
    × (m.write ≡ (flags.create_new || flags.write))
    × (m.create ≡ m.write)
    × (m.create_new ≡ flags.create_new)
    × (m.truncate ≡ flags.truncate)
open_mode_from_lem_example = open_mode_from_lem flags

-- It fails to shut down.
abbrev storage : StorageBackend ℕ
storage = record {
  endpoint = codes "mem://a";
  capabilities = full;
  list_entries = λ p w. (Error.ok [], w);
  stat = λ p w. (Error.ok (file_metadata 0), w);
  open_file = λ p mode w. (Error.err (Error.not_found p.raw), w);
  remove_file = λ p w. (Error.ok tt, w);
  remove_dir = λ p w. (Error.ok tt, w);
  rename = λ p q w. (Error.ok tt, w);
  copy = λ p q w. (Error.ok 0, w);
  mkdir = λ p w. (Error.ok tt, w);
  shutdown = λ w. (Error.err (Error.backend (codes "busy")), 8);
}

abbrev a_session : Session ℕ
a_session = record { world = 7; endpoint = codes "mem://a"; closed = false }

abbrev two_versions : ℕ → ℕ → RemoteFile.SmbInfo
two_versions n w = record { dialect = 0x0311; max_read_size = w; max_write_size = w }

disconnect_for_good_example :
    let q = (Session.disconnect io_text storage a_session).1 in
    let gone = already_closed (codes "session") in
    (Session.disconnect io_text storage q ≡ (ok tt, q))
    × (Session.list_entries io_text storage (codes "a") q ≡ (err gone, q))
    × (Session.stat io_text storage (codes "a") q ≡ (err gone, q))
    × (Session.mkdir io_text storage (codes "a") q ≡ (err gone, q))
    × (Session.remove_file io_text storage (codes "a") q ≡ (err gone, q))
    × (Session.remove_dir io_text storage (codes "a") q ≡ (err gone, q))
    × (Session.rename io_text storage (codes "a") (codes "b") q ≡ (err gone, q))
    × (Session.copy io_text storage (codes "a") (codes "b") q ≡ (err gone, q))
    × (Session.open_file io_text storage (codes "a") read_only_flags q ≡ (err gone, q))
    × (Session.smb_info io_text storage (some 0) two_versions q
        ≡ some (info_from (two_versions 0 8)))
unfolding Session.disconnect
disconnect_for_good_example =
    disconnect_for_good io_text storage a_session (codes "a") (codes "b") read_only_flags 0
      two_versions

-- A file that was changed at the last second told of, made at no time, and read at a second with too many
-- nanoseconds.
abbrev a_stat : Stat
a_stat = record {
  smb2_type = 0;
  smb2_nlink = 1;
  smb2_ino = 0;
  smb2_size = 5;
  smb2_atime = 1_700_000_000;
  smb2_atime_nsec = 2_000_000_000;
  smb2_mtime = 32_503_680_000;
  smb2_mtime_nsec = 5_000_000;
  smb2_ctime = 0;
  smb2_ctime_nsec = 0;
  smb2_btime = 0;
  smb2_btime_nsec = 9;
  smb2_attributes = 0;
  smb2_reparse_tag = 0;
}

stat_times_example :
    Millis 32_503_680_000 5_000_000 (some 32_503_680_000_005)
    × Millis 0 9 none
    × Millis 1_700_000_000 2_000_000_000 (some 1_700_000_000_000)
unfolding from_core metadata_from_stat timestamp to_millis
stat_times_example = stat_times a_stat
