-- ===== src/Core/FileHandle/ReadExact.antt =====
-- `read_exact_at` over any handle that keeps the contract.
use krystallos.Common.{
  ℕ, zero, suc, ◌+◌, ◌-◌, ◌≤◌, ◌<◌, List, [], ◌∷◌, ◌++◌, ◌≡◌, ◌⊎◌, inl, inr, refl, ap, ◌∙◌, arith,
  length, take, drop, u64_mod, ltb, ltb→lt, Bool-cases, add_u64, add_u64_exact, length-append,
}
use native.Mathlib.Decide.{dec_lt}
use krystallos.Core.Error.{Error, Result, ok, err, io, unexpected_eof}
use krystallos.Core.FileHandle.{FileHandle, after_read, read_exact_loop, read_exact_at}
use krystallos.Core.FileHandle.Contract.{IsRead, Returns, Serves, exact-append}

-- All of the `n` bytes at `offset`, which the file has.
pub record IsWhole (file : List ℕ) (offset n : ℕ) (bytes : List ℕ) : Type 0 where
  pub filled : length bytes ≡ n
  pub exact : bytes ≡ take n (drop offset file)

-- An error of the handle, or the end of a file that is too short.
abbrev pub Refusal : (Error → Type 0) → List ℕ → ℕ → ℕ → Error → Type 0
Refusal Allowed file offset n e = Allowed e ⊎ ((e ≡ io unexpected_eof) × (length file < offset + n))

-- The bytes that the loop has so far.
record IsDone (file : List ℕ) (offset n : ℕ) (done : List ℕ) : Type 0 where
  bounded : length done ≤ n
  so_far : done ≡ take (length done) (drop offset file)

IsDone-IsWhole :
    (file : List ℕ) (offset n : ℕ) (done : List ℕ)
    → IsDone file offset n done
    → n ≤ length done
    → IsWhole file offset n done
IsDone-IsWhole file offset n done d enough =
    let e : length done ≡ n = omega arith in
    record { filled = e; exact = d.so_far ∙ ap (λ k. take k (drop offset file)) e }

-- A read that returns nothing of what it was asked for stands at the end of the file.
read_end : (l a b k : ℕ) → (0 < k → a < l → 0 < 0) → 0 < k → a + k ≤ b → l < b
read_end l a b k progress pos h = elim (dec_lt a l) [
  | yes p ↦ absurd (omega (arith, progress pos p))
  | no p ↦ omega arith
]

module _ {S : Type 0} (h : FileHandle S) (Holds : S → List ℕ → Type 0) (Allowed : Error → Type 0)
    (serves : Serves h Holds Allowed) (file : List ℕ) (offset n : ℕ)
    (inside : offset + n < u64_mod) where
  abbrev Post : Result (List ℕ) × S → Type 0
  Post r = Returns (IsWhole file offset n) (Refusal Allowed file offset n) r.0 × Holds r.1 file

  after_read-Post :
      (again : List ℕ → S → Result (List ℕ) × S) (done : List ℕ) (r : Result (List ℕ) × S)
      → IsDone file offset n done
      → length done < n
      → Returns (IsRead file (offset + length done) (n - length done)) Allowed r.0
      → Holds r.1 file
      → ((more : List ℕ) (s : S)
          → IsDone file offset n more
          → length done < length more
          → Holds s file
          → Post (again more s))
      → Post (after_read again done r)
  after_read-Post again done (err e, s) d lt p q k = (inl p, q)
  after_read-Post again done (ok [], s) d lt p q k = (inr (refl, short), q)
    where
      short : length file < offset + n
      short =
          read_end (length file) (offset + length done) (offset + n) (n - length done) (p.progress)
            (omega arith) (omega arith)
  after_read-Post again done (ok (b ∷ bs), s) d lt p q k =
      k (done ++ b ∷ bs) s
        (record {
          bounded = omega (arith, length-append done (b ∷ bs), p.fits);
          so_far = exact-append file done (b ∷ bs) offset d.so_far p.exact;
        })
        (omega (arith, length-append done (b ∷ bs))) q

  read_exact_loop-Post :
      (fuel : ℕ) (done : List ℕ) (s : S)
      → n ≤ length done + fuel
      → IsDone file offset n done
      → Holds s file
      → Post (read_exact_loop h fuel offset n done s)
  unfolding read_exact_loop
  read_exact_loop-Post zero done s enough d q =
      (IsDone-IsWhole file offset n done d (omega arith), q)
  read_exact_loop-Post (suc fuel) done s enough d q = elim (Bool-cases (ltb (length done) n)) [
    | inl t ↦
        let lt : length done < n = ltb→lt (length done) n t in
        let e : add_u64 offset (length done) ≡ offset + length done =
          add_u64_exact offset (length done) (omega arith) in
        let (r, held) =
          serves.reads s file (offset + length done) (n - length done) q (omega arith) in
        rw (t, e)
          (after_read-Post (read_exact_loop h fuel offset n) done
            (h.read_at s (offset + length done) (n - length done)) d lt r held
            (λ more s' d' grows q'. read_exact_loop-Post fuel more s' (omega arith) d' q'))
    | inr t ↦
        let enough' : n ≤ length done = ground (arith, t) in
        rw t (IsDone-IsWhole file offset n done d enough', q)
  ]

-- Over a handle that keeps the contract of `read_at`, short reads included, `read_exact_at` returns
-- exactly the `n` bytes at `offset`; it fails only by an error of the handle, or with
-- `UnexpectedEof` when the file ends before `offset + n`. Offsets stay below 2^64.
pub read_exact_at-Returns :
    {S : Type 0} (h : FileHandle S) (Holds : S → List ℕ → Type 0) (Allowed : Error → Type 0)
    → Serves h Holds Allowed
    → (file : List ℕ) (s : S) (offset n : ℕ) → Holds s file
    → offset + n < u64_mod
    → Returns (IsWhole file offset n) (Refusal Allowed file offset n) (read_exact_at h s offset n).0
      × Holds (read_exact_at h s offset n).1 file
unfolding read_exact_at
read_exact_at-Returns h Holds Allowed serves file s offset n q inside =
    read_exact_loop-Post h Holds Allowed serves file offset n inside n [] s (omega arith)
      (record { bounded = omega arith; so_far = refl }) q
