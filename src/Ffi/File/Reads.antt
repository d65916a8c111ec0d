-- ===== src/Ffi/File/Reads.antt =====
-- A read through the facade is short at the end of the file only.
use krystallos.Common.{
  ℕ, zero, suc, ◌+◌, ◌-◌, ◌≤◌, ◌<◌, List, [], ◌∷◌, ◌++◌, ◌≡◌, refl, inl, inr, ap, ◌∙◌, false, arith,
  length, take, drop, u64_mod, Text, ltb, ltb→lt, Bool-cases, add_u64, add_u64_exact, length-append,
  if_false,
}
use krystallos.Core.Error
use krystallos.Core.Error.{Error, Result, IoKind}
use krystallos.Core.FileHandle.{FileHandle}
use krystallos.Core.FileHandle.Contract.{
  IsRead, Returns, Serves, exact-append, exact_at_end, at_end_of_nothing,
}
use krystallos.Ffi.Error.{Outcome, ok, err, from_core}
use krystallos.Ffi.Types.{ByteRange}
use krystallos.Ffi.File.{File, after_read, fill_loop, open_handle, in_handle, read_at}
use krystallos.Ffi.Call.{after, return}

-- The bytes that the loop has so far.
record IsSoFar (file : List ℕ) (offset n : ℕ) (filled : List ℕ) : Type 0 where
  bounded : length filled ≤ n
  exact : filled ≡ take (length filled) (drop offset file)

module _ {S : Type 0} (h : FileHandle S) (Holds : S → List ℕ → Type 0) (Allowed : Error → Type 0)
    (serves : Serves h Holds Allowed) (file : List ℕ) (offset n : ℕ)
    (inside : offset + n < u64_mod) where
  abbrev Post : Result (List ℕ) × S → Type 0
  Post out =
      Returns (λ (bytes : List ℕ). bytes ≡ take n (drop offset file)) Allowed out.0
      × Holds out.1 file

  after_read-Post :
      (again : List ℕ → S → Result (List ℕ) × S) (filled : List ℕ) (out : Result (List ℕ) × S)
      → IsSoFar file offset n filled
      → length filled < n
      → Returns (IsRead file (offset + length filled) (n - length filled)) Allowed out.0
      → Holds out.1 file
      → ((more : List ℕ) (s : S)
          → IsSoFar file offset n more
          → length filled < length more
          → Holds s file
          → Post (again more s))
      → Post (after_read again filled out)
  after_read-Post again filled (Error.err e, s) d lt p q k = (p, q)
  after_read-Post again filled (Error.ok [], s) d lt p q k = (
    exact_at_end file filled offset n d.exact
        (at_end_of_nothing file (offset + length filled) (n - length filled) (omega arith) p)
        d.bounded,
    q,
  )
  after_read-Post again filled (Error.ok (b ∷ bs), s) d lt p q k =
      k (filled ++ b ∷ bs) s
        (record {
          bounded = omega (arith, length-append filled (b ∷ bs), p.fits);
          exact = exact-append file filled (b ∷ bs) offset d.exact p.exact;
        })
        (omega (arith, length-append filled (b ∷ bs))) q

  fill_loop-Post :
      (fuel : ℕ) (filled : List ℕ) (s : S)
      → n ≤ length filled + fuel
      → IsSoFar file offset n filled
      → Holds s file
      → Post (fill_loop h fuel offset n filled s)
  unfolding fill_loop
  fill_loop-Post zero filled s enough d q =
      let e : length filled ≡ n = omega (arith, d.bounded) in
      (d.exact ∙ ap (λ k. take k (drop offset file)) e, q)
  fill_loop-Post (suc fuel) filled s enough d q = elim (Bool-cases (ltb (length filled) n)) [
    | inl t ↦
        let lt : length filled < n = ltb→lt (length filled) n t in
        let e : add_u64 offset (length filled) ≡ offset + length filled =
          add_u64_exact offset (length filled) (omega arith) in
        let (r, held) =
          serves.reads s file (offset + length filled) (n - length filled) q (omega arith) in
        rw (t, e)
          (after_read-Post (fill_loop h fuel offset n) filled
            (h.read_at s (offset + length filled) (n - length filled)) d lt r held
            (λ more s' d' grows q'. fill_loop-Post fuel more s' (omega arith) d' q'))
    | inr t ↦
        let e : length filled ≡ n = ground (arith, t, d.bounded) in
        rw t (d.exact ∙ ap (λ k. take k (drop offset file)) e, q)
  ]

-- The range that was asked for, less what the file does not have; or an error of the handle.
abbrev pub Answers :
    (IoKind → Text) → (Error → Type 0) → List ℕ → ℕ → ℕ → Outcome ByteRange → Type 0
Answers io_text Allowed file offset n (ok r) =
    (r.offset ≡ offset) × (r.content ≡ take n (drop offset file))
Answers io_text Allowed file offset n (err e) =
    (cause : Error) × Allowed cause × (e ≡ from_core io_text cause)

open_handle-open :
    {S : Type 0} (io_text : IoKind → Text) (h : FileHandle S) (r : File S)
    → r.closed ≡ false
    → open_handle io_text h r ≡ (ok tt, r)
unfolding open_handle
open_handle-open io_text h r e = if_false _ _ e

module _ {S : Type 0} (io_text : IoKind → Text) (h : FileHandle S) (Holds : S → List ℕ → Type 0)
    (Allowed : Error → Type 0) (file : List ℕ) (r : File S) (offset n : ℕ) where
  abbrev Answered : Outcome ByteRange × File S → Type 0
  Answered out =
      Answers io_text Allowed file offset n out.0 × Holds out.1.inner file × (out.1.closed ≡ false)

  answered :
      (out : Result (List ℕ) × S)
      → r.closed ≡ false
      → Returns (λ (bytes : List ℕ). bytes ≡ take n (drop offset file)) Allowed out.0
      → Holds out.1 file
      → Answered (
          after
            (λ filled. return (record { offset = offset; content = filled }))
            (in_handle io_text h r out))
  answered (Error.ok filled, s) o p q = ((refl, p), q, o)
  answered (Error.err e, s) o p q = ((e, p, refl), q, o)

-- On an open file whose handle keeps the contract of `read_at`, `read_at` of the facade returns
-- exactly the bytes of the file between `offset` and `offset + n`, fewer only where the file ends, as
-- its documentation tells the Kotlin side; it fails only by an error of the handle, and the file stays
-- open.
pub read_at-Answers :
    {S : Type 0} (io_text : IoKind → Text) (h : FileHandle S) (Holds : S → List ℕ → Type 0)
    (Allowed : Error → Type 0)
    → Serves h Holds Allowed
    → (file : List ℕ) (r : File S) (offset n : ℕ) → Holds r.inner file
    → r.closed ≡ false
    → offset + n < u64_mod
    → let out = read_at io_text h offset n r in
      Answers io_text Allowed file offset n out.0 × Holds out.1.inner file × (out.1.closed ≡ false)
unfolding read_at
read_at-Answers io_text h Holds Allowed serves file r offset n held still_open inside =
    let (p, q) =
      fill_loop-Post h Holds Allowed serves file offset n inside n [] r.inner (omega arith)
        (record { bounded = omega arith; exact = refl }) held in
    rw (open_handle-open io_text h r still_open) (
      answered io_text h Holds Allowed file r offset n (fill_loop h n offset n [] r.inner)
        still_open p q)
