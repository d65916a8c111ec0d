-- ===== src/Cache/ReadAhead/Writes.antt =====
-- What a write leaves of the window.
use krystallos.Common.{ℕ, ◌<◌, List, ◌≡◌, refl, arith, length, u64_mod}
use krystallos.Core.Error.{Result, ok, err}
use krystallos.Core.FileHandle.{FileHandle}
use krystallos.Cache.Window.{Window}
use krystallos.Cache.ReadAhead.{
  ReadAhead, invalidate, put_inner, then_invalidate, write_at, set_len,
}
use krystallos.Cache.ReadAhead.Fill.{Coherent}

-- A change that succeeds leaves no window that is not of the new file; one that fails keeps the window
-- of before, whatever it did to the file.
abbrev pub Changed {ℓ} :
    {A : Type ℓ} {S : Type 0}
    → (S → List ℕ → Type 0)
    → Window
    → List ℕ
    → Result A × ReadAhead S
    → Type 0
Changed Holds w file (ok a, r) = Coherent Holds r file
Changed Holds w file (err e, r) = Holds r.inner file × (r.state ≡ w)

then_invalidate-Changed {ℓ} :
    {A : Type ℓ} {S : Type 0} (Holds : S → List ℕ → Type 0) (r : ReadAhead S) (file : List ℕ)
    (out : Result A × S)
    → Holds out.1 file
    → length file < u64_mod
    → ((then_invalidate (put_inner r out)).0 ≡ out.0)
      × Changed Holds r.state file (then_invalidate (put_inner r out))
unfolding invalidate
then_invalidate-Changed Holds r file (ok a, s) held sized = (
  refl,
  record {
    held = held;
    window = record { exact = refl; ended = λ e. cc; small = omega arith };
    sized = sized;
  },
)
then_invalidate-Changed Holds r file (err e, s) held sized = (refl, (held, refl))

-- A write and a change of the length have the result of the wrapped handle. Behind a success the
-- read-ahead is coherent with the file that the handle then holds; behind a failure the window is as
-- it was, also where the handle changed the file before it failed.
pub write_at-set_len-Changed :
    {S : Type 0} (h : FileHandle S) (usize_mod : ℕ) (Holds : S → List ℕ → Type 0) (r : ReadAhead S)
    (offset n : ℕ) (buf written resized : List ℕ)
    → Holds (h.write_at r.inner offset buf).1 written
    → Holds (h.set_len r.inner n).1 resized
    → length written < u64_mod
    → length resized < u64_mod
    → let wrote = write_at h usize_mod r offset buf in
      let cut = set_len h usize_mod r n in
      (wrote.0 ≡ (h.write_at r.inner offset buf).0)
      × Changed Holds r.state written wrote
      × (cut.0 ≡ (h.set_len r.inner n).0)
      × Changed Holds r.state resized cut
unfolding write_at set_len
write_at-set_len-Changed h usize_mod Holds r offset n buf written resized p q a b =
    let (e, u) = then_invalidate-Changed Holds r written (h.write_at r.inner offset buf) p a in
    let (f, v) = then_invalidate-Changed Holds r resized (h.set_len r.inner n) q b in (e, u, f, v)
