-- ===== src/Cache/ReadAhead/Race/Stale.antt =====
-- A fetch that is in flight across a write.
use krystallos.Common.{
  ℕ, ◌+◌, ◌≤◌, ◌<◌, List, ◌∷◌, ◌≡◌, refl, ap, ap₂, ◌∙◌, arith, length, take, drop, u64_mod, false,
  true, ltb, ◌==◌, if_true, if_false, saturating_add, add_u64_exact,
}
use krystallos.Core.Error.{Result, ok, err}
use krystallos.Core.FileHandle.{FileHandle}
use krystallos.Cache.Window.{Window, window_end, covers, copy_out}
use krystallos.Cache.Window.Copy.{copy_out_exact}
use krystallos.Cache.ReadAhead.{
  ReadAhead, invalidate, put_inner, then_invalidate, read_at, write_at,
}
use krystallos.Cache.ReadAhead.Race.{Pending, resume, round, resume_at, step}

abbrev pub old_window : Pending → Window
old_window p = record { bytes = p.buf; start = p.start; eof = false }

module _ {S : Type 0} (h : FileHandle S) (usize_mod : ℕ) where
  published :
      (p : Pending) (ps : List Pending) (r : ReadAhead S)
      → length p.buf ≡ p.len
      → (step h usize_mod (resume 0) (record { reader = r; pending = p ∷ ps })).reader
        ≡ record r { state = old_window p }
  unfolding step resume_at round
  published p ps r full =
      let done : ltb (length p.buf) p.len ≡ false = ground (arith, full) in simp done refl

  window_size-write :
      (r : ReadAhead S) (out : Result ℕ × S)
      → (then_invalidate (put_inner r out)).1.window_size ≡ r.window_size
  unfolding invalidate
  window_size-write r (ok n, s) = refl
  window_size-write r (err e, s) = refl

  covered :
      (p : Pending) (i n : ℕ)
      → 0 < n
      → i + n ≤ length p.buf
      → p.start + length p.buf < u64_mod
      → covers (old_window p) (p.start + i) n ≡ true
  unfolding covers window_end saturating_add
  covered p i n pos inside small = ground (arith, add_u64_exact p.start (length p.buf) small)

  copied :
      (p : Pending) (i n : ℕ)
      → u64_mod ≤ usize_mod
      → i + n ≤ length p.buf
      → p.start + length p.buf < u64_mod
      → copy_out usize_mod (old_window p) (p.start + i) n ≡ take n (drop i p.buf)
  copied p i n wide inside small =
      copy_out_exact usize_mod (old_window p) (p.start + i) n wide (omega arith) (omega arith)
      ∙ ap₂ (λ m k. take m (drop k p.buf)) (omega arith) (omega arith)

  -- A fetch that has all its bytes in front of a write publishes them behind the write, whatever that did to
  -- the file; from then on, until another fetch or change, every read inside that window returns the bytes from before the
  -- write, and asks the wrapped handle for nothing. A `usize` has 64 bits, and sizes fit in 64 bits.
  pub read_at_stale :
      (p : Pending) (ps : List Pending) (r : ReadAhead S) (offset : ℕ) (written : List ℕ) (i n : ℕ)
      → length p.buf ≡ p.len
      → u64_mod ≤ usize_mod
      → p.start + length p.buf < u64_mod
      → 0 < r.window_size
      → 0 < n
      → i + n ≤ length p.buf
      → let behind =
          (step h usize_mod (resume 0) (record {
            reader = (write_at h usize_mod r offset written).1;
            pending = p ∷ ps;
          })).reader in
        read_at h usize_mod behind (p.start + i) n ≡ (ok (take n (drop i p.buf)), behind)
  unfolding write_at read_at
  read_at_stale p ps r offset written i n full wide small sized pos inside =
      rw (published p ps (write_at h usize_mod r offset written).1 full) (
        from_window (record (write_at h usize_mod r offset written).1 { state = old_window p }) refl
          (window_size-write r (h.write_at r.inner offset written)))
    where
      from_window :
          (b : ReadAhead S)
          → b.state ≡ old_window p
          → b.window_size ≡ r.window_size
          → read_at h usize_mod b (p.start + i) n ≡ (ok (take n (drop i p.buf)), b)
      from_window b e f =
          let some_bytes : (n == 0) ≡ false = ground (arith, pos) in
          let enabled : (b.window_size == 0) ≡ false = ground (arith, f, sized) in
          if_false _ _ some_bytes
          ∙ if_false _ _ enabled
          ∙ if_true _ _ (ap (λ v. covers v (p.start + i) n) e ∙ covered p i n pos inside small)
          ∙ ap (λ bytes. (ok bytes, b))
              (ap (λ v. copy_out usize_mod v (p.start + i) n) e ∙ copied p i n wide inside small)
