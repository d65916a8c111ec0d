-- ===== src/Ffi/File.antt =====
-- crates/krystallos-ffi/src/lib.rs: `RemoteFile`, over a handle whose state is `S`.
pub mod Reads
pub mod Released
use krystallos.Common.{
  ℕ, zero, suc, ◌-◌, ◌==◌, max, List, [], ◌∷◌, ◌++◌, Bool, true, false, ltb, if◌then◌else◌, Text,
  codes, length, add_u64,
}
use krystallos.Core.Error
use krystallos.Core.Error.{Result, IoKind}
use krystallos.Core.FileHandle
use krystallos.Core.FileHandle.{FileHandle}
use krystallos.Ffi.Error.{KernelError, Outcome, ok, err}
use krystallos.Ffi.Types.{ByteRange, already_closed}
use krystallos.Ffi.Call.{Call, ◌>>=◌, ◌>>◌, after, return, converted}

-- `RemoteFile`, less the handle, which its calls take.
pub record File (S : Type 0) : Type 0 where
  pub inner : S
  pub path : Text
  pub len : ℕ
  pub closed : Bool

-- `RemoteFile::new`: the handle, and the file that is open on it.
pub record OpenedFile (W : Type 0) : Type 0 where
  pub handle : FileHandle W
  pub path : Text
  pub len : ℕ

abbrev pub opened : {W : Type 0} → FileHandle W → Text → W → OpenedFile W
opened h path w = record { handle = h; path = path; len = h.len w }

abbrev pub file_state : {W : Type 0} → OpenedFile W → W → File W
file_state o w = record { inner = w; path = o.path; len = o.len; closed = false }

module _ {S : Type 0} where
  -- One round of the loop in `read_at`, behind its read.
  abbrev pub after_read :
      (List ℕ → S → Result (List ℕ) × S) → List ℕ → Result (List ℕ) × S → Result (List ℕ) × S
  after_read again filled (Error.err e, s) = (Error.err e, s)
  after_read again filled (Error.ok [], s) = (Error.ok filled, s)
  after_read again filled (Error.ok (b ∷ bs), s) = again (filled ++ b ∷ bs) s

  -- Each round that goes on fills a byte at least, so `len` rounds of fuel are enough.
  unfoldable pub fill_loop : FileHandle S → ℕ → ℕ → ℕ → List ℕ → S → Result (List ℕ) × S
  fill_loop h zero offset len filled s = (Error.ok filled, s)
  fill_loop h (suc fuel) offset len filled s =
      let more =
        after_read (fill_loop h fuel offset len) filled
          (h.read_at s (add_u64 offset (length filled)) (len - length filled)) in
      if ltb (length filled) len then more else (Error.ok filled, s)

-- `RemoteFile::is_empty`, by the size that was seen last.
abbrev pub is_empty : {S : Type 0} → File S → Bool
is_empty r = r.len == 0

module _ {S : Type 0} (io_text : IoKind → Text) (h : FileHandle S) where
  abbrev pub in_handle : {A : Type 0} → File S → Result A × S → Outcome A × File S
  in_handle r (a, s) = (converted io_text a, record r { inner = s })

  -- A call of the handle, under a `?`.
  abbrev pub asked : {A : Type 0} → (S → Result A × S) → Call (File S) A
  asked call r = in_handle r (call r.inner)

  unfoldable pub open_handle : Call (File S) (Unit {0})
  unfolding already_closed
  open_handle r = if r.closed then (err (already_closed (codes "file")), r) else (ok tt, r)

  unfoldable pub read_at : ℕ → ℕ → Call (File S) ByteRange
  read_at offset len = do
    open_handle
    filled ← asked (fill_loop h len offset len [])
    return (record { offset = offset; content = filled })

  unfoldable pub read_exact_at : ℕ → ℕ → Call (File S) ByteRange
  read_exact_at offset len = do
    open_handle
    filled ← if len == 0 then return [] else asked (λ s. FileHandle.read_exact_at h s offset len)
    return (record { offset = offset; content = filled })

  abbrev pub grown : ℕ → ℕ → Call (File S) ℕ
  grown offset n r = (ok n, record r { len = max r.len (add_u64 offset n) })

  unfoldable pub write_at : ℕ → List ℕ → Call (File S) ℕ
  write_at offset content = do
    open_handle
    n ← asked (λ s. h.write_at s offset content)
    grown offset n

  abbrev pub resized : ℕ → Call (File S) (Unit {0})
  resized len r = (ok tt, record r { len = len })

  unfoldable pub set_len : ℕ → Call (File S) (Unit {0})
  set_len len = do open_handle; asked (λ s. h.set_len s len); resized len

  unfoldable pub flush : Call (File S) (Unit {0})
  flush = do open_handle; asked h.flush

  -- A lost connection has released the file too.
  abbrev pub released : File S → Result (Unit {0}) × S → Outcome (Unit {0}) × File S
  released r (Error.ok u, s) = (ok tt, record r { inner = s })
  released r (Error.err (Error.connection_lost m), s) = (ok tt, record r { inner = s })
  released r (Error.err e, s) = (converted io_text (Error.err e), record r { inner = s })

  -- The swap of `closed` lets one caller through to the handle.
  unfoldable pub release : Call (File S) (Unit {0})
  release r =
      if r.closed then (ok tt, r) else released (record r { closed = true }) (h.close r.inner)
