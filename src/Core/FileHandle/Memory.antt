-- ===== src/Core/FileHandle/Memory.antt =====
-- A handle on bytes in memory that reads `cap` of them at a time at most, as the tests of
-- crates/krystallos-cache have one, and that keeps the contract of `read_at`.
use krystallos.Common.{
  ℕ, ◌<◌, min, List, ◌≡◌, refl, arith, length, take, drop, codes, length-take, length-drop,
}
use krystallos.Core.Error.{Error, ok, err, backend}
use krystallos.Core.FileHandle.{FileHandle}
use krystallos.Core.FileHandle.Contract.{IsRead, Serves, exact_of_take}

abbrev pub capped : ℕ → FileHandle (List ℕ)
capped cap = record {
  read_at = λ s offset n. (ok (take (min n cap) (drop offset s)), s);
  write_at = λ s offset content. (err (backend (codes "read-only")), s);
  set_len = λ s n. (err (backend (codes "read-only")), s);
  flush = λ s. (ok tt, s);
  close = λ s. (ok tt, s);
  len = λ s. length s;
}

abbrev pub Never : Error → Type 0
Never e = ⊥

abbrev pub Holds : List ℕ → List ℕ → Type 0
Holds s file = s ≡ file

pub IsRead-capped :
    (cap : ℕ) (file : List ℕ) (offset n : ℕ)
    → 0 < cap
    → IsRead file offset n (take (min n cap) (drop offset file))
IsRead-capped cap file offset n pos =
    let size = length-take (min n cap) (drop offset file) in
    let rest = length-drop offset file in
    record {
      fits = omega (arith, size);
      exact =
          exact_of_take (min n cap) (take (min n cap) (drop offset file)) (drop offset file) refl;
      progress = λ p q. omega (arith, size, rest);
    }

pub capped-Serves : (cap : ℕ) → 0 < cap → Serves (capped cap) Holds Never
capped-Serves cap pos = record {
  reads = λ s file offset n h small. (rw (← h) (IsRead-capped cap s offset n pos), h);
}
