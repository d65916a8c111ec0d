-- ===== src/Smb/Actor/Handles/Calls.antt =====
-- The operations that open and close nothing.
use krystallos.Common.{
  ℕ, List, Option, none, some, refl, ℤ, is_zero, is_negative, if_both, Text, codes,
}
use krystallos.Core.Error.{Result, ok, err}
use krystallos.Core.VfsPath.{VfsPath}
use krystallos.Smb.Libsmb2.{Libsmb2, Stat, Dirent}
use krystallos.Smb.SmbPath.{cstring, to_smb_path}
use krystallos.Smb.Errors.{Errno}
use krystallos.Smb.OpenFiles
use krystallos.Smb.OpenFiles.{OpenFiles}
use krystallos.Smb.Operations
use krystallos.Smb.Operations.{
  context_error, unit_call, on_cstring, listed, stat_result, on_handle, read_result, write_result,
}
use krystallos.Smb.Actor.Handles.{Traced, traced, Same, Quiet}

module _ {C : Type 0} (g : Libsmb2 C) (errno : Errno) where
  abbrev pub f : Libsmb2 (Traced C)
  f = traced g

  unit_call-Quiet :
      (t : Traced C) (path : Text) (out : ℤ × Traced C)
      → Same t out.1
      → Quiet t (unit_call f errno path out)
  unit_call-Quiet t path (rc, u) s =
      if_both (Quiet t) (is_zero rc) _ (err (context_error f errno u rc path), u) s s

  on_cstring-Quiet :
      {A : Type 0} (t : Traced C) (s : Result Text) (k : Text → Result A × Traced C)
      → ((p : Text) → Quiet t (k p))
      → Quiet t (on_cstring f errno t s k)
  on_cstring-Quiet t (err e) k h = (refl, refl)
  on_cstring-Quiet t (ok s) k h = h s

  listed-Quiet :
      (t : Traced C) (path : VfsPath) (out : Option (List Dirent) × Traced C)
      → Same t out.1
      → Quiet t (listed f errno path out)
  listed-Quiet t path (none, u) s = s
  listed-Quiet t path (some ds, u) s = s

  stat_result-Quiet :
      (t : Traced C) (path : VfsPath) (out : (ℤ × Stat) × Traced C)
      → Same t out.1
      → Quiet t (stat_result f errno path out)
  stat_result-Quiet t path ((rc, st), u) s =
      if_both (Quiet t) (is_zero rc) _ (err (context_error f errno u rc path.raw), u) s s

  on_handle-Quiet :
      {A : Type 0} (t : Traced C) (what : Text) (h : Option ℕ) (k : ℕ → Result A × Traced C)
      → ((fh : ℕ) → Quiet t (k fh))
      → Quiet t (on_handle f errno t what h k)
  on_handle-Quiet t what none k q = (refl, refl)
  on_handle-Quiet t what (some fh) k q = q fh

  pub list_dir-Quiet :
      (t : Traced C) (path : VfsPath) → Quiet t (Operations.list_dir f errno t path)
  unfolding Operations.list_dir
  list_dir-Quiet t path =
      on_cstring-Quiet t (cstring (to_smb_path path)) _
        (λ s. listed-Quiet t path (f.opendir t s) (refl, refl))

  pub stat_path-Quiet :
      (t : Traced C) (path : VfsPath) → Quiet t (Operations.stat_path f errno t path)
  unfolding Operations.stat_path
  stat_path-Quiet t path =
      on_cstring-Quiet t (cstring (to_smb_path path)) _
        (λ s. stat_result-Quiet t path (f.stat t s) (refl, refl))

  pub mkdir-Quiet : (t : Traced C) (path : VfsPath) → Quiet t (Operations.mkdir f errno t path)
  unfolding Operations.mkdir
  mkdir-Quiet t path =
      on_cstring-Quiet t (cstring (to_smb_path path)) _
        (λ s. unit_call-Quiet t path.raw (f.mkdir t s) (refl, refl))

  pub remove_file-Quiet :
      (t : Traced C) (path : VfsPath) → Quiet t (Operations.remove_file f errno t path)
  unfolding Operations.remove_file
  remove_file-Quiet t path =
      on_cstring-Quiet t (cstring (to_smb_path path)) _
        (λ s. unit_call-Quiet t path.raw (f.unlink t s) (refl, refl))

  pub remove_dir-Quiet :
      (t : Traced C) (path : VfsPath) → Quiet t (Operations.remove_dir f errno t path)
  unfolding Operations.remove_dir
  remove_dir-Quiet t path =
      on_cstring-Quiet t (cstring (to_smb_path path)) _
        (λ s. unit_call-Quiet t path.raw (f.rmdir t s) (refl, refl))

  pub rename-Quiet :
      (t : Traced C) (from to : VfsPath) → Quiet t (Operations.rename f errno t from to)
  unfolding Operations.rename
  rename-Quiet t from to = on_cstring-Quiet t (cstring (to_smb_path from)) _ (λ s.
      on_cstring-Quiet t (cstring (to_smb_path to)) _
        (λ u. unit_call-Quiet t from.raw (f.rename t s u) (refl, refl)))

  pub read_at-Quiet :
      (t : Traced C) (files : OpenFiles) (id offset n : ℕ)
      → Quiet t (Operations.read_at f errno t files id offset n)
  unfolding Operations.read_at
  read_at-Quiet t files id offset n =
      on_handle-Quiet t (codes "read") (OpenFiles.get files id) _
        (λ h. result (f.pread t h n offset) (refl, refl))
    where
      result : (out : (ℤ × List ℕ) × Traced C) → Same t out.1 → Quiet t (read_result f errno out)
      result ((rc, buf), u) s =
          if_both (Quiet t) (is_negative rc) (err (context_error f errno u rc (codes "read")), u) _
            s s

  pub write_at-Quiet :
      (t : Traced C) (files : OpenFiles) (id offset : ℕ) (content : List ℕ)
      → Quiet t (Operations.write_at f errno t files id offset content)
  unfolding Operations.write_at
  write_at-Quiet t files id offset content =
      on_handle-Quiet t (codes "write") (OpenFiles.get files id) _
        (λ h. result (f.pwrite t h _ offset) (refl, refl))
    where
      result : (out : ℤ × Traced C) → Same t out.1 → Quiet t (write_result f errno out)
      result (rc, u) s =
          if_both (Quiet t) (is_negative rc) (err (context_error f errno u rc (codes "write")), u) _
            s s

  pub set_len-Quiet :
      (t : Traced C) (files : OpenFiles) (id n : ℕ)
      → Quiet t (Operations.set_len f errno t files id n)
  unfolding Operations.set_len
  set_len-Quiet t files id n =
      on_handle-Quiet t (codes "truncate") (OpenFiles.get files id) _
        (λ h. unit_call-Quiet t (codes "truncate") (f.ftruncate t h n) (refl, refl))

  pub flush-Quiet :
      (t : Traced C) (files : OpenFiles) (id : ℕ) → Quiet t (Operations.flush f errno t files id)
  unfolding Operations.flush
  flush-Quiet t files id =
      on_handle-Quiet t (codes "flush") (OpenFiles.get files id) _
        (λ h. unit_call-Quiet t (codes "flush") (f.fsync t h) (refl, refl))
