-- ===== src/Cli/Transfer.antt =====
-- crates/krystallos-cli/src/commands.rs: the loop of `cat` and `get`, and the handle that it reads.
pub mod Whole
pub mod Handles
pub mod Zero
use krystallos.Common.{
  ℕ, zero, suc, List, [], ◌∷◌, Option, none, some, Bool, true, false, ltb, if◌then◌else◌, length,
  add_u64,
}
use krystallos.Core.Error.{Result, ok, err}
use krystallos.Core.FileHandle.{FileHandle}
use krystallos.Core.Run.{Run}
use krystallos.Cache.ReadAhead.{ReadAhead, read_ahead, with_window}

-- `ReadHandle`, as the world that it reads in.
pub data ReadHandle (W : Type 0) : Type 0 where
  plain : W → ReadHandle W
  buffered : ReadAhead W → ReadHandle W

module _ {W : Type 0} where
  abbrev pub to_plain {ℓ} : {A : Type ℓ} → A × W → A × ReadHandle W
  to_plain (a, w) = (a, plain w)

  abbrev pub to_buffered {ℓ} : {A : Type ℓ} → A × ReadAhead W → A × ReadHandle W
  to_buffered (a, r) = (a, buffered r)

  -- The last step of `open_for_read`.
  abbrev pub wrapped : ℕ → W → ReadHandle W
  wrapped read_ahead w = if ltb 0 read_ahead then buffered (with_window w read_ahead) else plain w

  abbrev pub unwrapped : ReadHandle W → W
  unwrapped (plain w) = w
  unwrapped (buffered r) = r.inner

  -- A call that is not one of the handle's.
  abbrev pub beside {ℓ} : {A : Type ℓ} → (W → A × W) → ReadHandle W → A × ReadHandle W
  beside call (plain w) = to_plain (call w)
  beside call (buffered r) = let (a, w) = call r.inner in (a, buffered (record r { inner = w }))

module _ {W : Type 0} (h : FileHandle W) (usize_mod : ℕ) where
  unfoldable pub read_at : ReadHandle W → ℕ → ℕ → Result (List ℕ) × ReadHandle W
  read_at (plain w) offset n = to_plain (h.read_at w offset n)
  read_at (buffered r) offset n = to_buffered ((read_ahead h usize_mod).read_at r offset n)

  unfoldable pub write_at : ReadHandle W → ℕ → List ℕ → Result ℕ × ReadHandle W
  write_at (plain w) offset buf = to_plain (h.write_at w offset buf)
  write_at (buffered r) offset buf = to_buffered ((read_ahead h usize_mod).write_at r offset buf)

  unfoldable pub set_len : ReadHandle W → ℕ → Result (Unit {0}) × ReadHandle W
  set_len (plain w) n = to_plain (h.set_len w n)
  set_len (buffered r) n = to_buffered ((read_ahead h usize_mod).set_len r n)

  unfoldable pub flush : ReadHandle W → Result (Unit {0}) × ReadHandle W
  flush (plain w) = to_plain (h.flush w)
  flush (buffered r) = to_buffered ((read_ahead h usize_mod).flush r)

  unfoldable pub close : ReadHandle W → Result (Unit {0}) × ReadHandle W
  close (plain w) = to_plain (h.close w)
  close (buffered r) = to_buffered ((read_ahead h usize_mod).close r)

  abbrev pub handle_len : ReadHandle W → ℕ
  handle_len (plain w) = h.len w
  handle_len (buffered r) = (read_ahead h usize_mod).len r

  -- `impl FileHandle for ReadHandle`.
  abbrev pub read_handle : FileHandle (ReadHandle W)
  read_handle = record {
    read_at = read_at;
    write_at = write_at;
    set_len = set_len;
    flush = flush;
    close = close;
    len = handle_len;
  }

module _ {S : Type 0} where
  abbrev pub after_write :
      (ℕ → S → Option (Result ℕ × S)) → ℕ → Result (Unit {0}) × S → Option (Result ℕ × S)
  after_write again next (err e, s) = some (err e, s)
  after_write again next (ok u, s) = again next s

  -- One round of the loop, behind its read: no bytes end it.
  abbrev pub after_read :
      (ℕ → S → Option (Result ℕ × S))
      → (List ℕ → Run S (Unit {0}))
      → ℕ
      → Result (List ℕ) × S
      → Option (Result ℕ × S)
  after_read again write offset (err e, s) = some (err e, s)
  after_read again write offset (ok [], s) = some (ok offset, s)
  after_read again write offset (ok (b ∷ bs), s) =
      after_write again (add_u64 offset (length (b ∷ bs))) (write (b ∷ bs) s)

  -- The `loop` of `cat` and of `get`, with the number of bytes behind it; `none` is fuel that ran out.
  unfoldable pub transfer_loop :
      FileHandle S → (List ℕ → Run S (Unit {0})) → ℕ → ℕ → ℕ → S → Option (Result ℕ × S)
  transfer_loop h write chunk zero offset s = none
  transfer_loop h write chunk (suc fuel) offset s =
      after_read (transfer_loop h write chunk fuel) write offset (h.read_at s offset chunk)
