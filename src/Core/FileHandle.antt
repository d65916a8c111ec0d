-- ===== src/Core/FileHandle.antt =====
-- crates/krystallos-core/src/backend.rs: the trait `FileHandle` as a record of functions over the
-- handle's state, how a file is opened, and the provided method `read_exact_at`.
pub mod Contract
pub mod ReadExact
pub mod Memory
mod Tests
use krystallos.Common.{
  ℕ, zero, suc, ◌-◌, List, [], ◌∷◌, ◌++◌, Bool, true, false, length, ltb, if◌then◌else◌, add_u64,
}
use krystallos.Core.Error.{Result, ok, err, io, unexpected_eof}

pub record OpenMode : Type 0 where
  pub read : Bool
  pub write : Bool
  pub create : Bool
  pub create_new : Bool
  pub truncate : Bool

abbrev pub read_mode : OpenMode
read_mode = record {
  read = true;
  write = false;
  create = false;
  create_new = false;
  truncate = false;
}

abbrev pub write_mode : OpenMode
write_mode = record {
  read = false;
  write = true;
  create = true;
  create_new = false;
  truncate = false;
}

abbrev pub read_write_mode : OpenMode
read_write_mode = record {
  read = true;
  write = true;
  create = true;
  create_new = false;
  truncate = false;
}

abbrev pub create_new_mode : OpenMode
create_new_mode = record {
  read = false;
  write = true;
  create = true;
  create_new = true;
  truncate = false;
}

abbrev pub with_truncate : OpenMode → OpenMode
with_truncate m = record m { truncate = true }

-- A read takes an offset and the length of `buf`, and returns what it put at the front of `buf`.
pub record FileHandle (S : Type 0) : Type 0 where
  pub read_at : S → ℕ → ℕ → Result (List ℕ) × S
  pub write_at : S → ℕ → List ℕ → Result ℕ × S
  pub set_len : S → ℕ → Result (Unit {0}) × S
  pub flush : S → Result (Unit {0}) × S
  pub close : S → Result (Unit {0}) × S
  pub len : S → ℕ

module _ {S : Type 0} where
  -- One round of the loop: what follows a read, with the bytes of `buf` that are filled.
  abbrev pub after_read :
      (List ℕ → S → Result (List ℕ) × S) → List ℕ → Result (List ℕ) × S → Result (List ℕ) × S
  after_read again done (err e, s) = (err e, s)
  after_read again done (ok [], s) = (err (io unexpected_eof), s)
  after_read again done (ok (b ∷ bs), s) = again (done ++ b ∷ bs) s

  -- Each round that goes on fills a byte at least, so `len` rounds of fuel are enough.
  pub read_exact_loop : FileHandle S → ℕ → ℕ → ℕ → List ℕ → S → Result (List ℕ) × S
  read_exact_loop h zero offset len done s = (ok done, s)
  read_exact_loop h (suc fuel) offset len done s =
      let more =
        after_read (read_exact_loop h fuel offset len) done
          (h.read_at s (add_u64 offset (length done)) (len - length done)) in
      if ltb (length done) len then more else (ok done, s)

  pub read_exact_at : FileHandle S → S → ℕ → ℕ → Result (List ℕ) × S
  unfolding read_exact_loop
  read_exact_at h s offset len = read_exact_loop h len offset len [] s
