-- ===== src/Smb/Actor/Handles/Session.antt =====
-- A whole session closes what it opened.
use mathlib.Core.Path.{subst}
use krystallos.Common.{
  ℕ, ◌+◌, ◌≤◌, ◌<◌, List, [], ◌∷◌, Option, none, some, ◌≡◌, refl, sym, count, length, arith,
  u64_mod, ℤ, is_zero, if_both, add_u64, add_u64_exact, Text,
}
use krystallos.Core.Error.{Result, ok, err}
use krystallos.Core.FileHandle.{OpenMode}
use krystallos.Core.VfsPath.{VfsPath}
use krystallos.Smb.Libsmb2.{Libsmb2}
use krystallos.Smb.SmbPath.{cstring, to_smb_path}
use krystallos.Smb.Errors.{Errno}
use krystallos.Smb.OpenFiles
use krystallos.Smb.OpenFiles.{OpenFiles, no_files, lookup, put, remove}
use krystallos.Smb.OpenFiles.Table.{IsTable, insert_fresh, take_lem}
use krystallos.Smb.Operations
use krystallos.Smb.Operations.{
  OpenFlags, opened, open_cstring, close_taken, size_of, handle_label, unit_call, open_flags,
}
use krystallos.Smb.Actor.{
  Command, list_entries, stat, mkdir, remove_file, remove_dir, rename, copy, open_path, close,
  read_at, write_at, set_len, flush, shutdown, Actor, keep_copy, change, dispatch, close_handles,
  close_all, serve, actor_thread, handle, unit,
}
use krystallos.Smb.Copying
use krystallos.Smb.Actor.Handles.{
  Traced, no_trace, traced, Same, Held, Held-Same, note_open, note_close,
}
use krystallos.Smb.Actor.Handles.Calls.{
  list_dir-Quiet, stat_path-Quiet, mkdir-Quiet, remove_file-Quiet, remove_dir-Quiet, rename-Quiet,
  read_at-Quiet, write_at-Quiet, set_len-Quiet, flush-Quiet,
}
use krystallos.Smb.Actor.Handles.Copies.{Restores, copy_file-Restores}

abbrev held_of : List (ℕ × ℕ) → List ℕ
held_of [] = []
held_of (e ∷ m) = e.1 ∷ held_of m

count-put :
    (x k v : ℕ) (m : List (ℕ × ℕ))
    → lookup k m ≡ none
    → count x (held_of (put k v m)) ≡ count x (v ∷ held_of m)
unfolding put lookup
count-put x k v [] h = refl
count-put x k v ((j, w) ∷ m) h = ground (arith, count-put x k v m)

count-remove :
    (x k v : ℕ) (m : List (ℕ × ℕ))
    → lookup k m ≡ some v
    → count x (held_of m) ≡ count x (v ∷ held_of (remove k m))
unfolding remove lookup
count-remove x k v [] h = cc
count-remove x k v ((j, w) ∷ m) h = ground (arith, count-remove x k v m)

remove-none : (k : ℕ) (m : List (ℕ × ℕ)) → lookup k m ≡ none → remove k m ≡ m
unfolding remove lookup
remove-none k [] h = refl
remove-none k ((j, w) ∷ m) h = ground (arith, remove-none k m)

module _ {C : Type 0} (g : Libsmb2 C) (errno : Errno) (o : OpenFlags) where
  -- The table is well formed and holds every handle that is open.
  record Sound (s : Actor (Traced C)) : Type 0 where
    table : IsTable s.files
    balanced : Held (held_of s.files.handles) s.ctx

  quiet-Sound :
      (s : Actor (Traced C)) (u : Traced C)
      → Sound s
      → Same s.ctx u
      → Sound (record { ctx = u; files = s.files })
  quiet-Sound s u v q = record {
    table = v.table;
    balanced = Held-Same (held_of s.files.handles) s.ctx u q v.balanced;
  }

  copy-Sound :
      (s : Actor (Traced C)) (out : Option (Result ℕ × Traced C))
      → Sound s
      → Restores (held_of s.files.handles) out
      → Sound (keep_copy s out).1
  copy-Sound s none v q = v
  copy-Sound s (some (r, u)) v q = record { table = v.table; balanced = q }

  opened-Sound :
      (s : Actor (Traced C)) (path : VfsPath) (out : Option ℕ × C)
      → Sound s
      → s.files.next_id + 1 < u64_mod
      → Sound (change handle (opened (traced g) errno s.files path (note_open s.ctx out))).1
  unfolding OpenFiles.insert OpenFiles.get
  opened-Sound s path (none, c) v room = record { table = v.table; balanced = v.balanced }
  opened-Sound s path (some fh, c) v room =
      let (fresh, _, table) = insert_fresh s.files fh v.table room in
      record {
        table = table;
        balanced = λ x.
            ground (
              arith,
              v.balanced x,
              count-put x (add_u64 s.files.next_id 1) fh s.files.handles fresh,
            );
      }

  open-Sound :
      (s : Actor (Traced C)) (path : VfsPath) (mode : OpenMode)
      → Sound s
      → s.files.next_id + 1 < u64_mod
      → Sound (dispatch (traced g) errno o (open_path path mode) s).1
  unfolding dispatch Operations.open_file
  open-Sound s path mode v room = on (cstring (to_smb_path path))
    where
      on :
          (r : Result Text)
          → Sound (change handle (open_cstring (traced g) errno o s.ctx s.files path mode r)).1
      on (err e) = record { table = v.table; balanced = v.balanced }
      on (ok p) = opened-Sound s path (g.open_path s.ctx.inner p (open_flags o mode)) v room

  unit_call-ctx :
      (path : Text) (out : ℤ × Traced C) → (unit_call (traced g) errno path out).1 ≡ out.1
  unit_call-ctx path (rc, u) =
      if_both (λ (p : Result (Unit {0}) × Traced C). p.1 ≡ u) (is_zero rc) _ _ refl refl

  close-Sound :
      (s : Actor (Traced C)) (id : ℕ) → Sound s → Sound (dispatch (traced g) errno o (close id) s).1
  unfolding dispatch Operations.close_file OpenFiles.take
  close-Sound s id v = on (lookup id s.files.handles) refl
    where
      on :
          (h : Option ℕ)
          → lookup id s.files.handles ≡ h
          → Sound
              (change unit (
                close_taken
                  (traced g)
                  errno
                  s.ctx
                  id
                  (h, record s.files { handles = remove id s.files.handles }))).1
      on none e = record {
        table = (take_lem s.files id v.table).2;
        balanced = rw (remove-none id s.files.handles e) (v.balanced);
      }
      on (some fh) e = record {
        table = (take_lem s.files id v.table).2;
        balanced =
            subst (Held (held_of (remove id s.files.handles)))
              (sym (
                unit_call-ctx (handle_label (traced g) errno id)
                  (note_close s.ctx fh (g.close s.ctx.inner fh))))
              (λ x. ground (arith, v.balanced x, count-remove x id fh s.files.handles e));
      }

  -- Each command keeps the table and the account of the handles.
  dispatch-Sound :
      (command : Command) (s : Actor (Traced C))
      → Sound s
      → s.files.next_id + 1 < u64_mod
      → Sound (dispatch (traced g) errno o command s).1
  unfolding dispatch
  dispatch-Sound (list_entries path) s v room =
      quiet-Sound s _ v (list_dir-Quiet g errno s.ctx path)
  dispatch-Sound (stat path) s v room = quiet-Sound s _ v (stat_path-Quiet g errno s.ctx path)
  dispatch-Sound (mkdir path) s v room = quiet-Sound s _ v (mkdir-Quiet g errno s.ctx path)
  dispatch-Sound (remove_file path) s v room =
      quiet-Sound s _ v (remove_file-Quiet g errno s.ctx path)
  dispatch-Sound (remove_dir path) s v room =
      quiet-Sound s _ v (remove_dir-Quiet g errno s.ctx path)
  dispatch-Sound (rename from to) s v room = quiet-Sound s _ v (rename-Quiet g errno s.ctx from to)
  dispatch-Sound (copy from to) s v room =
      copy-Sound s (Copying.copy_file (traced g) errno o s.ctx from to) v
        (copy_file-Restores g errno o s.ctx from to (held_of s.files.handles) v.balanced)
  dispatch-Sound (open_path path mode) s v room = open-Sound s path mode v room
  dispatch-Sound (close id) s v room = close-Sound s id v
  dispatch-Sound (read_at id offset n) s v room =
      quiet-Sound s _ v (read_at-Quiet g errno s.ctx s.files id offset n)
  dispatch-Sound (write_at id offset content) s v room =
      quiet-Sound s _ v (write_at-Quiet g errno s.ctx s.files id offset content)
  dispatch-Sound (set_len id n) s v room =
      quiet-Sound s _ v (set_len-Quiet g errno s.ctx s.files id n)
  dispatch-Sound (flush id) s v room = quiet-Sound s _ v (flush-Quiet g errno s.ctx s.files id)
  dispatch-Sound shutdown s v room = v

  next_id-opened :
      (s : Actor (Traced C)) (path : VfsPath) (out : Option ℕ × Traced C)
      → s.files.next_id + 1 < u64_mod
      → (change handle (opened (traced g) errno s.files path out)).1.files.next_id
        ≤ s.files.next_id + 1
  unfolding OpenFiles.insert
  next_id-opened s path (none, u) room = omega arith
  next_id-opened s path (some fh, u) room = omega (arith, add_u64_exact s.files.next_id 1 room)

  next_id-open :
      (s : Actor (Traced C)) (path : VfsPath) (mode : OpenMode) (r : Result Text)
      → s.files.next_id + 1 < u64_mod
      → (change handle (open_cstring (traced g) errno o s.ctx s.files path mode r)).1.files.next_id
        ≤ s.files.next_id + 1
  next_id-open s path mode (err e) room = omega arith
  next_id-open s path mode (ok p) room = next_id-opened s path _ room

  next_id-close :
      (s : Actor (Traced C)) (id : ℕ) (h : Option ℕ) (files : OpenFiles)
      → (change unit (close_taken (traced g) errno s.ctx id (h, files))).1.files.next_id
        ≡ files.next_id
  next_id-close s id none files = refl
  next_id-close s id (some fh) files = refl

  next_id-copy :
      (s : Actor (Traced C)) (out : Option (Result ℕ × Traced C))
      → (keep_copy s out).1.files.next_id ≡ s.files.next_id
  next_id-copy s none = refl
  next_id-copy s (some (r, u)) = refl

  -- `insert` is the only operation that moves the counter, by one.
  next_id-dispatch :
      (command : Command) (s : Actor (Traced C))
      → s.files.next_id + 1 < u64_mod
      → (dispatch (traced g) errno o command s).1.files.next_id ≤ s.files.next_id + 1
  unfolding dispatch Operations.open_file Operations.close_file OpenFiles.take
  next_id-dispatch (open_path path mode) s room =
      next_id-open s path mode (cstring (to_smb_path path)) room
  next_id-dispatch (close id) s room =
      omega (arith, next_id-close s id (lookup id s.files.handles) (OpenFiles.take s.files id).1)
  next_id-dispatch (copy from to) s room =
      omega (arith, next_id-copy s (Copying.copy_file (traced g) errno o s.ctx from to))
  next_id-dispatch _ s room = omega arith

  close_handles-Held :
      (m : List (ℕ × ℕ)) (t : Traced C)
      → Held (held_of m) t
      → Held [] (close_handles (traced g) errno o m t)
  unfolding close_handles
  close_handles-Held [] t h = h
  close_handles-Held ((id, fh) ∷ m) t h =
      close_handles-Held m (note_close t fh (g.close t.inner fh)).1 (λ x. ground (arith, h x))

  serve-Sound :
      (commands : List Command) (s : Actor (Traced C))
      → Sound s
      → s.files.next_id + length commands < u64_mod
      → Sound (serve (traced g) errno o commands s)
  unfolding serve
  serve-Sound [] s v room = v
  serve-Sound (shutdown ∷ rest) s v room = dispatch-Sound shutdown s v (omega arith)
  serve-Sound (command ∷ rest) s v room =
      serve-Sound rest (dispatch (traced g) errno o command s).1
        (dispatch-Sound command s v (omega arith))
        (omega (arith, next_id-dispatch command s (omega arith)))

-- A session, from the connect to the drop of its context: whatever commands arrive, ids that are
-- stale or closed twice, copies that fail part-way and a shutdown in between included, and whatever
-- libsmb2 answers, each handle that libsmb2 opened has been closed, exactly as often as it was
-- opened. The commands are fewer than 2^64, so that no id is handed out twice. A copy whose
-- loop outlives its fuel counts as not begun.
pub actor_thread_closes :
    {C : Type 0} (g : Libsmb2 C) (errno : Errno) (o : OpenFlags) (c : C) (commands : List Command)
    (x : ℕ)
    → length commands < u64_mod
    → let end = (actor_thread (traced g) errno o (no_trace c) commands).ctx in
      count x end.opened ≡ count x end.closed
unfolding actor_thread close_all
actor_thread_closes {C} g errno o c commands x room =
    let start : Actor (Traced C) = record { ctx = no_trace c; files = no_files } in
    let fresh : Sound g errno o start = record {
      table = record { distinct = tt; below = tt };
      balanced = λ y. refl;
    } in
    let done = serve-Sound g errno o commands start fresh (omega arith) in
    let balance =
      close_handles-Held g errno o (serve (traced g) errno o commands start).files.handles
        (serve (traced g) errno o commands start).ctx done.balanced x in
    omega (arith, balance)
