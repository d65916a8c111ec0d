-- ===== src/Smb/Copying/Tests.antt =====
-- Two files in memory: bytes are read from the first two at a time, and written to the second one at a
-- time.
use krystallos.Common.{
  ℕ, min, List, [], ◌∷◌, ◌++◌, ◌≡◌, refl, inr, ap, ◌∙◌, sym, arith, none, some, length, take, drop,
  pos, negsuc, length-take, take_all, ◌==◌, ◌+◌, ◌≤◌, ◌<◌, length-drop, take-take, take-append,
}
use krystallos.Core.FileHandle.Memory.{Never, IsRead-capped}
use krystallos.Smb.Libsmb2.{Libsmb2, Stat}
use krystallos.Smb.Errors.{windows_errno}
use krystallos.Smb.Copying.{copy_through_here, copy_server_side}
use krystallos.Smb.Copying.Ends.{Chunked, Ended, copy_server_side-Ended}
use krystallos.Smb.Copying.Through.{Moves, Copies, copy_through_here-Copies}

record Files : Type 0 where
  source : List ℕ
  target : List ℕ

abbrev no_stat : Stat
no_stat = record {
  smb2_type = 0;
  smb2_nlink = 1;
  smb2_ino = 0;
  smb2_size = 5;
  smb2_atime = 0;
  smb2_atime_nsec = 0;
  smb2_mtime = 0;
  smb2_mtime_nsec = 0;
  smb2_ctime = 0;
  smb2_ctime_nsec = 0;
  smb2_btime = 0;
  smb2_btime_nsec = 0;
  smb2_attributes = 0;
  smb2_reparse_tag = 0;
}

abbrev read_two : Files → ℕ → ℕ → List ℕ
read_two c n offset = take (min n 2) (drop offset c.source)

abbrev put_one : Files → ℕ → List ℕ → Files
put_one c offset content = record c { target = take offset c.target ++ take 1 content }

abbrev files : Libsmb2 Files
files = record {
  opendir = λ c s. (none, c);
  closedir = λ c. c;
  stat = λ c s. ((pos 0, no_stat), c);
  fstat = λ c h. ((pos 0, no_stat), c);
  mkdir = λ c s. (negsuc 0, c);
  unlink = λ c s. (negsuc 0, c);
  rmdir = λ c s. (negsuc 0, c);
  rename = λ c s t. (negsuc 0, c);
  open_path = λ c s flags. (some 7, c);
  close = λ c h. (pos 0, c);
  pread = λ c h n offset. ((pos (length (read_two c n offset)), read_two c n offset), c);
  pwrite = λ c h content offset. (pos (length (take 1 content)), put_one c offset content);
  ftruncate = λ c h n. (negsuc 0, c);
  fsync = λ c h. (pos 0, c);
  request_resume_key = λ c h. ((negsuc 0, []), c);
  copychunk = λ c key h offset n. (
    (negsuc 0, record { chunks_written = 0; chunk_bytes_written = 0; total_bytes_written = 0 }),
    c,
  );
  get_error = λ c. [];
  get_nterror = λ c. 0;
  status_text = λ n. [];
}

abbrev From : Files → List ℕ → Type 0
From c file = c.source ≡ file

abbrev To : Files → List ℕ → Type 0
To c out = c.target ≡ out

take_self : (xs : List ℕ) → take (length xs) xs ≡ xs
take_self xs = take_all (length xs) xs (omega arith)

files-Moves : Moves files windows_errno 7 8 From To Never
files-Moves = record {
  preads = λ c file out n offset s t small.
      let bytes = read_two c n offset in
      (
        inr (
          refl,
          ap length (sym (take_self bytes)),
          rw (take_self bytes, ← s) (IsRead-capped 2 c.source offset n (omega arith)),
        ),
        s,
        t,
      );
  pwrites = λ c file out content s t small more.
      let one : length (take 1 content) ≡ 1 = omega (arith, length-take 1 content) in
      (
        inr (
          ap (λ n. n == 0) one,
          omega (arith, one),
          omega (arith, one),
          rw one (
              ap (λ d. take (length out) d ++ take 1 content) t
              ∙ ap (λ d. d ++ take 1 content) (take_self out)),
        ),
        s,
      );
}

abbrev five : List ℕ
five = 10 ∷ 11 ∷ 12 ∷ 13 ∷ 14 ∷ []

abbrev start : Files
start = record { source = five; target = [] }

copy_through_here-Copies_example :
    Copies From To Never five (copy_through_here files windows_errno start 7 8 5)
copy_through_here-Copies_example =
    copy_through_here-Copies files windows_errno 7 8 From To Never files-Moves five start
      (omega arith) refl refl

-- A server that copies at most two bytes for each request.
abbrev chunk : ℕ → ℕ → List ℕ
chunk offset n = take (min n 2) (drop offset five)

abbrev server : Libsmb2 Files
server = record files {
  request_resume_key = λ c h. ((pos 0, 1 ∷ []), c);
  copychunk = λ c key h offset n. (
    (
      pos 0,
      record {
        chunks_written = 1;
        chunk_bytes_written = 0;
        total_bytes_written = length (chunk offset n);
      },
    ),
    record c { target = take offset c.target ++ chunk offset n },
  );
}

-- The target is the first `k` bytes of the source.
abbrev CopiedTo : ℕ → Files → Type 0
CopiedTo k c = c.target ≡ take k five

server-Chunked :
    (key : List ℕ) (c : Files) (offset n : ℕ)
    → 0 < n
    → offset + n ≤ 5
    → CopiedTo offset c
    → Chunked CopiedTo offset (server.copychunk c key 8 offset n)
server-Chunked key c offset n more fits held = (
  omega (arith, length-take (min n 2) (drop offset five)),
  λ z.
      ap (λ t. take offset t ++ chunk offset n) held
      ∙ ap (λ t. t ++ chunk offset n) (take-take offset offset five ∙ ap (λ m. take m five) same)
      ∙ take-append offset (min n 2) five
      ∙ ap (λ m. take (offset + m) five) (sym whole),
  λ z. cc,
)
  where
    same : min offset offset ≡ offset
    same = omega arith

    whole : length (chunk offset n) ≡ min n 2
    whole = omega (arith, length-take (min n 2) (drop offset five), length-drop offset five)

copy_server_side-Ended_example :
    Ended CopiedTo 5 (copy_server_side server windows_errno start 7 8 5)
copy_server_side-Ended_example =
    copy_server_side-Ended server windows_errno CopiedTo start 7 8 5 server-Chunked (omega arith)
      refl
