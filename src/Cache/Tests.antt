-- ===== src/Cache/Tests.antt =====
-- The read-ahead over a handle that reads two bytes at a time.
use krystallos.Common.{
  ◌≡◌, refl, ◌++◌, ◌+◌, length, take, drop, ℕ, List, [], ◌∷◌, arith, u64_mod, All,
}
use krystallos.Core.Error.{ok}
use krystallos.Core.FileHandle.Contract.{IsRead, Serves, Returns}
use krystallos.Core.FileHandle.Memory.{capped, Holds, Never, capped-Serves}
use krystallos.Cache.ReadAhead.{write_at, set_len, read_at, read_ahead, serve, with_window}
use krystallos.Cache.ReadAhead.Fill.{Coherent}
use krystallos.Cache.ReadAhead.Writes.{Changed, write_at-set_len-Changed}
use krystallos.Cache.ReadAhead.Serve.{read_ahead-Serves}
use krystallos.Cache.ReadAhead.Race.{Action, Shared, Pending, miss, resume, direct, step, run}
use krystallos.Cache.ReadAhead.Race.Edits.{Reach, here, next, reads, writes, edits-agree}
use krystallos.Cache.ReadAhead.Race.Stale.{read_at_stale}
use krystallos.Cache.ReadAhead.Race.Readers.{Fits, readers-agree}
use krystallos.Core.FileHandle.{FileHandle}

abbrev five : List ℕ
five = 10 ∷ 11 ∷ 12 ∷ 13 ∷ 14 ∷ []

read_ahead-Serves_example : Serves (read_ahead (capped 2) u64_mod) (Coherent Holds) Never
read_ahead-Serves_example =
    read_ahead-Serves (capped 2) u64_mod Holds Never (capped-Serves 2 (omega arith)) (omega arith)

-- Two misses of neighbouring windows whose rounds alternate.
abbrev two_readers : List Action
two_readers = miss 1 ∷ miss 3 ∷ resume 1 ∷ resume 0 ∷ resume 1 ∷ direct 4 1 ∷ resume 0 ∷ []

two_readers-Fits : All Fits two_readers
two_readers-Fits = (omega arith, (omega arith, (tt, (tt, (tt, (omega arith, (tt, tt)))))))

fresh-Coherent : Coherent Holds (with_window five 2) five
fresh-Coherent = record {
  held = refl;
  window = record { exact = refl; ended = λ h. ground (arith, h); small = omega arith };
  sized = omega arith;
}

readers-agree_example :
    let r =
      (run
        (capped 1)
        u64_mod
        two_readers
        (record { reader = with_window five 2; pending = [] })).reader in
    Returns (IsRead five 1 1) Never (serve (capped 1) u64_mod 1 1 (ok tt, r)).0
    × Coherent Holds r five
readers-agree_example =
    readers-agree (capped 1) u64_mod Holds Never (capped-Serves 1 (omega arith)) (omega arith) five
      (with_window five 2) two_readers 1 1 fresh-Coherent two_readers-Fits (omega arith)
      (omega arith)

-- A handle that writes what it is given, and cuts.
abbrev writable : FileHandle (List ℕ)
writable = record (capped 2) {
  write_at =
      λ s offset buf. (ok (length buf), take offset s ++ (buf ++ drop (offset + length buf) s));
  set_len = λ s n. (ok tt, take n s);
}

abbrev written : List ℕ
written = 10 ∷ 99 ∷ 12 ∷ 13 ∷ 14 ∷ []

abbrev resized : List ℕ
resized = 10 ∷ 11 ∷ 12 ∷ []

write_at-set_len-Changed_example :
    let r = with_window five 2 in
    let wrote = write_at writable u64_mod r 1 (99 ∷ []) in
    let cut = set_len writable u64_mod r 3 in
    (wrote.0 ≡ (writable.write_at r.inner 1 (99 ∷ [])).0)
    × Changed Holds r.state written wrote
    × (cut.0 ≡ (writable.set_len r.inner 3).0)
    × Changed Holds r.state resized cut
write_at-set_len-Changed_example =
    write_at-set_len-Changed writable u64_mod Holds (with_window five 2) 1 3 (99 ∷ []) written
      resized refl refl (omega arith) (omega arith)

writable-Serves : Serves writable Holds Never
writable-Serves = record { reads = (capped-Serves 2 (omega arith)).reads }

abbrev idle : Shared (List ℕ)
idle = record { reader = with_window five 2; pending = [] }

abbrev rewritten : Shared (List ℕ)
rewritten = record idle { reader = (write_at writable u64_mod idle.reader 1 (99 ∷ [])).1 }

rewritten-Reach :
    Reach writable u64_mod Holds idle five (step writable u64_mod (direct 0 1) rewritten) written
rewritten-Reach =
    next (next here (writes idle five written 1 (99 ∷ []) 1 refl refl refl (omega arith)))
      (reads (direct 0 1) rewritten written (omega arith))

edits-agree_example :
    Returns
      (IsRead written 1 1)
      Never
      (serve writable u64_mod 1 1 (ok tt, (step writable u64_mod (direct 0 1) rewritten).reader)).0
    × Coherent Holds (step writable u64_mod (direct 0 1) rewritten).reader written
edits-agree_example =
    edits-agree writable u64_mod Holds Never writable-Serves (omega arith) five written
      (with_window five 2) (step writable u64_mod (direct 0 1) rewritten) 1 1 fresh-Coherent
      rewritten-Reach (omega arith) (omega arith)

-- A fetch of the first two bytes, in flight as the second is written.
abbrev in_flight : Pending
in_flight = record { start = 0; len = 2; buf = 10 ∷ 11 ∷ [] }

read_at_stale_example :
    let behind =
      (step writable u64_mod (resume 0) (record {
        reader = (write_at writable u64_mod (with_window five 2) 1 (99 ∷ [])).1;
        pending = in_flight ∷ [];
      })).reader in
    read_at writable u64_mod behind 1 1 ≡ (ok (11 ∷ []), behind)
read_at_stale_example =
    read_at_stale writable u64_mod in_flight [] (with_window five 2) 1 (99 ∷ []) 1 1 refl
      (omega arith) (omega arith) (omega arith) (omega arith) (omega arith)
