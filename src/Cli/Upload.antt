-- ===== src/Cli/Upload.antt =====
-- crates/krystallos-cli/src/commands.rs: the loops of `put`, over a file handle in a world `W` and the
-- `read` of the file that is uploaded.
pub mod Contract
pub mod Filled
pub mod Written
pub mod Stored
use krystallos.Common.{
  ℕ, zero, suc, ◌+◌, ◌-◌, ◌*◌, ◌==◌, List, [], ◌∷◌, ◌++◌, Option, none, some, Bool, true, false,
  ltb, if◌then◌else◌, Text, codes, length, drop, add_u64,
}
use krystallos.Core.Error.{Result, ok, err, backend}
use krystallos.Core.FileHandle.{FileHandle}
use krystallos.Core.Run.{Run}

abbrev pub chunk_size : ℕ
chunk_size = 1024 * 1024

abbrev pub no_progress_reason : Text
no_progress_reason = codes "backend accepted 0 bytes of a write and made no progress"

module _ {W : Type 0} where
  abbrev pub after_source :
      (List ℕ → Run W (List ℕ)) → List ℕ → Result (List ℕ) × W → Result (List ℕ) × W
  after_source again buf (err e, w) = (err e, w)
  after_source again buf (ok [], w) = (ok buf, w)
  after_source again buf (ok (b ∷ bs), w) = again (buf ++ b ∷ bs) w

  abbrev pub after_put : (ℕ → ℕ → Run W ℕ) → ℕ → ℕ → Result ℕ × W → Result ℕ × W
  after_put again written offset (err e, w) = (err e, w)
  after_put again written offset (ok n, w) =
      if n == 0
      then (err (backend no_progress_reason), w)
      else again (written + n) (add_u64 offset n) w

  abbrev pub after_block : (ℕ → W → Option (Result ℕ × W)) → Result ℕ × W → Option (Result ℕ × W)
  after_block again (err e, w) = some (err e, w)
  after_block again (ok offset, w) = again offset w

module _ {W : Type 0} (read : ℕ → Run W (List ℕ)) where
  -- `while filled < buf.len()`. A round that goes on fills a byte at least, so `chunk` rounds are enough.
  unfoldable pub fill_block : ℕ → ℕ → List ℕ → Run W (List ℕ)
  fill_block zero chunk buf w = (ok buf, w)
  fill_block (suc fuel) chunk buf w =
      let more = after_source (fill_block fuel chunk) buf (read (chunk - length buf) w) in
      if ltb (length buf) chunk then more else (ok buf, w)

module _ {W : Type 0} (h : FileHandle W) where
  -- `while written < filled`, with the offset behind it. A round that goes on writes a byte at least, so
  -- as many rounds as the block has bytes are enough.
  unfoldable pub write_block : ℕ → List ℕ → ℕ → ℕ → Run W ℕ
  write_block zero block written offset w = (ok offset, w)
  write_block (suc fuel) block written offset w =
      let more =
        after_put (write_block fuel block) written offset
          (h.write_at w offset (drop written block)) in
      if ltb written (length block) then more else (ok offset, w)

module _ {W : Type 0} (h : FileHandle W) where
  abbrev pub after_fill :
      (ℕ → W → Option (Result ℕ × W)) → ℕ → Result (List ℕ) × W → Option (Result ℕ × W)
  after_fill again offset (err e, w) = some (err e, w)
  after_fill again offset (ok [], w) = some (ok offset, w)
  after_fill again offset (ok (b ∷ bs), w) =
      after_block again (write_block h (length (b ∷ bs)) (b ∷ bs) 0 offset w)

module _ {W : Type 0} (read : ℕ → Run W (List ℕ)) (h : FileHandle W) where
  -- The outer `loop`; `none` is fuel that ran out.
  unfoldable pub put_loop : ℕ → ℕ → ℕ → W → Option (Result ℕ × W)
  put_loop chunk zero offset w = none
  put_loop chunk (suc fuel) offset w =
      after_fill h (put_loop chunk fuel) offset (fill_block read chunk chunk [] w)
