-- ===== src/Cache/ReadAhead.antt =====
-- crates/krystallos-cache/src/lib.rs: `ReadAhead<H>`, a file handle over a file handle. A call runs
-- to its end here; the fetches of several calls are interleaved in `Race`.
pub mod Fill
pub mod Serve
pub mod Race
pub mod Writes
use krystallos.Common.{
  ℕ, zero, suc, ◌+◌, ◌-◌, ◌*◌, ◌/◌, min, List, [], ◌∷◌, ◌++◌, Bool, true, false, not, ◌&&◌, ◌==◌,
  ltb, leb, if◌then◌else◌, length, add_u64, sub_u64, as_usize,
}
use krystallos.Core.Error.{Result, ok, err}
use krystallos.Core.FileHandle.{FileHandle}
use krystallos.Cache.Window.{Window, empty_window, window_end, covers, copy_out}

abbrev pub default_window : ℕ
default_window = 1024 * 1024

pub record ReadAhead (S : Type 0) : Type 0 where
  pub inner : S
  pub window_size : ℕ
  pub state : Window
  pub inner_reads : ℕ
  pub inner_bytes : ℕ

abbrev pub with_window : {S : Type 0} → S → ℕ → ReadAhead S
with_window inner window_size = record {
  inner = inner;
  window_size = window_size;
  state = empty_window;
  inner_reads = 0;
  inner_bytes = 0;
}

module _ {S : Type 0} where
  unfoldable pub invalidate : ReadAhead S → ReadAhead S
  invalidate r = record r { state = record { bytes = []; start = 0; eof = false } }

  -- A call of the wrapped handle, with the state that it leaves put back.
  abbrev pub put_inner {ℓ} : {A : Type ℓ} → ReadAhead S → A × S → A × ReadAhead S
  put_inner r (a, s) = (a, record r { inner = s })

  pub worth_fetching : ReadAhead S → ℕ → Bool
  worth_fetching r offset =
      ltb 0 r.window_size && not (r.state.eof && leb (window_end r.state) offset)

  -- One round of the loop in `fill`, behind its read.
  abbrev pub after_fetch :
      (List ℕ → ReadAhead S → Result (List ℕ × Bool) × ReadAhead S)
      → List ℕ
      → Result (List ℕ) × ReadAhead S
      → Result (List ℕ × Bool) × ReadAhead S
  after_fetch again buf (err e, r) = (err e, r)
  after_fetch again buf (ok [], r) = (ok (buf, true), r)
  after_fetch again buf (ok (b ∷ bs), r) = again (buf ++ b ∷ bs) r

  abbrev pub publish : ℕ → Result (List ℕ × Bool) × ReadAhead S → Result (Unit {0}) × ReadAhead S
  publish start (err e, r) = (err e, r)
  publish start (ok (buf, hit_eof), r) =
      (ok tt, record r { state = record { bytes = buf; start = start; eof = hit_eof } })

  -- The window that contains the offset.
  abbrev pub window_start : ReadAhead S → ℕ → ℕ
  window_start r offset = (offset / r.window_size) * r.window_size

  -- An error of the wrapped handle returns at once; otherwise the window is dropped.
  abbrev pub then_invalidate {ℓ} : {A : Type ℓ} → Result A × ReadAhead S → Result A × ReadAhead S
  then_invalidate (err e, r) = (err e, r)
  then_invalidate (ok a, r) = (ok a, invalidate r)

module _ {S : Type 0} (h : FileHandle S) (usize_mod : ℕ) where
  pub read_through : ReadAhead S → ℕ → ℕ → Result (List ℕ) × ReadAhead S
  read_through r offset len =
      put_inner
        (record r {
          inner_reads = add_u64 r.inner_reads 1;
          inner_bytes = add_u64 r.inner_bytes len;
        })
        (h.read_at r.inner offset len)

  pub remaining_from : ReadAhead S → ℕ → ℕ
  remaining_from r start =
      let total = h.len r.inner in
      if leb total start
      then r.window_size
      else min (as_usize usize_mod (total - start)) r.window_size

  -- Each round that goes on adds a byte at least, so `len` rounds of fuel are enough.
  pub fill_loop : ℕ → ℕ → ℕ → List ℕ → ReadAhead S → Result (List ℕ × Bool) × ReadAhead S
  fill_loop zero start len buf r = (ok (buf, false), r)
  fill_loop (suc fuel) start len buf r =
      let more =
        after_fetch (fill_loop fuel start len) buf
          (read_through r (add_u64 start (length buf)) (len - length buf)) in
      if ltb (length buf) len then more else (ok (buf, false), r)

  pub fill : ReadAhead S → ℕ → Result (Unit {0}) × ReadAhead S
  fill r start =
      let len = min r.window_size (remaining_from r start) in
      publish start (fill_loop len start len [] r)

  -- What follows the fetch: the window if it covers the request, and else a direct read.
  pub serve : ℕ → ℕ → Result (Unit {0}) × ReadAhead S → Result (List ℕ) × ReadAhead S
  serve offset len (err e, r) = (err e, r)
  serve offset len (ok u, r) =
      if covers r.state offset len
      then (ok (copy_out usize_mod r.state offset len), r)
      else put_inner r (h.read_at r.inner offset len)

  pub read_at : ReadAhead S → ℕ → ℕ → Result (List ℕ) × ReadAhead S
  read_at r offset len =
      if len == 0
      then (ok [], r)
      else if r.window_size == 0
      then read_through r offset len
      else if covers r.state offset len
      then (ok (copy_out usize_mod r.state offset len), r)
      else if ltb r.window_size len
      then read_through r offset len
      else if not (worth_fetching r offset)
      then read_through r offset len
      else serve offset len (fill r (window_start r offset))

  pub write_at : ReadAhead S → ℕ → List ℕ → Result ℕ × ReadAhead S
  write_at r offset buf = then_invalidate (put_inner r (h.write_at r.inner offset buf))

  pub set_len : ReadAhead S → ℕ → Result (Unit {0}) × ReadAhead S
  set_len r len = then_invalidate (put_inner r (h.set_len r.inner len))

  pub flush : ReadAhead S → Result (Unit {0}) × ReadAhead S
  flush r = put_inner r (h.flush r.inner)

  unfoldable pub close : ReadAhead S → Result (Unit {0}) × ReadAhead S
  close r = put_inner (invalidate r) (h.close (invalidate r).inner)

  -- `impl FileHandle for ReadAhead<H>`.
  abbrev pub read_ahead : FileHandle (ReadAhead S)
  read_ahead = record {
    read_at = read_at;
    write_at = write_at;
    set_len = set_len;
    flush = flush;
    close = close;
    len = λ r. h.len r.inner;
  }
