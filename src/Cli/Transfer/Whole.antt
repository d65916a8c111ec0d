-- ===== src/Cli/Transfer/Whole.antt =====
-- What `cat` and `get` write is the file.
use krystallos.Common.{
  ℕ, zero, suc, ◌+◌, ◌≤◌, ◌<◌, List, [], ◌∷◌, ◌++◌, ◌≡◌, refl, sym, ap, ◌∙◌, Option, none, some,
  arith, length, take, drop, u64_mod, add_u64_exact, append_assoc, append-nil, drop_all, drop-drop,
}
use krystallos.Core.Error.{Error, Result, ok, err}
use krystallos.Core.FileHandle.{FileHandle}
use krystallos.Core.FileHandle.Contract.{IsRead, Returns, Serves, at_end_of_nothing, exact_bound}
use krystallos.Core.Run.{Run}
use krystallos.Cli.Transfer.{after_write, after_read, transfer_loop}

-- What `write_all` documents: it appends all the bytes to what was written, or fails; it touches
-- neither the file that is read nor does reading touch what was written.
pub record Appends {S : Type 0} (h : FileHandle S) (write : List ℕ → Run S (Unit {0}))
    (Holds : S → List ℕ → Type 0) (Written : S → List ℕ → Type 0) (Allowed : Error → Type 0)
    : Type 0 where
  pub writes :
      (s : S) (file written bytes : List ℕ)
      → Holds s file
      → Written s written
      → Returns (λ _. Written (write bytes s).1 (written ++ bytes)) Allowed (write bytes s).0
        × Holds (write bytes s).1 file
  pub reads_apart :
      (s : S) (file written : List ℕ) (offset n : ℕ)
      → Holds s file
      → offset < u64_mod
      → Written s written
      → Written (h.read_at s offset n).1 written

-- The whole file was written, and its size is the count; or a read or a write failed.
abbrev pub Whole :
    {S : Type 0}
    → (S → List ℕ → Type 0)
    → (Error → Type 0)
    → List ℕ
    → List ℕ
    → Option (Result ℕ × S)
    → Type 0
Whole Written Allowed file before none = ⊥
Whole Written Allowed file before (some (ok n, s)) = (n ≡ length file) × Written s (before ++ file)
Whole Written Allowed file before (some (err e, s)) = Allowed e

-- A chunk in front of what is behind it.
drop_chunk :
    (file bytes : List ℕ) (offset : ℕ)
    → bytes ≡ take (length bytes) (drop offset file)
    → bytes ++ drop (offset + length bytes) file ≡ drop offset file
drop_chunk file bytes offset e =
    ap (λ b. b ++ drop (offset + length bytes) file) e
    ∙ ap (λ d. take (length bytes) (drop offset file) ++ d)
        (sym (drop-drop (length bytes) offset file))
    ∙ whole (length bytes) (drop offset file)
  where
    whole : (n : ℕ) (xs : List ℕ) → take n xs ++ drop n xs ≡ xs
    whole zero xs = refl
    whole (suc n) [] = refl
    whole (suc n) (x ∷ xs) = ap (λ r. x ∷ r) (whole n xs)

module _ {S : Type 0} (h : FileHandle S) (write : List ℕ → Run S (Unit {0}))
    (Holds : S → List ℕ → Type 0) (Written : S → List ℕ → Type 0) (Allowed : Error → Type 0)
    (serves : Serves h Holds Allowed) (sink : Appends h write Holds Written Allowed) (file : List ℕ)
    (chunk : ℕ) (some_bytes : 0 < chunk) (sized : length file < u64_mod) where
  -- What is left of the file goes behind what was written.
  abbrev Rest : ℕ → List ℕ → Option (Result ℕ × S) → Type 0
  Rest offset written none = ⊥
  Rest offset written (some (ok n, s)) = (n ≡ length file) × Written s (written ++ drop offset file)
  Rest offset written (some (err e, s)) = Allowed e

  Rest-cong :
      (offset next : ℕ) (written more : List ℕ) (out : Option (Result ℕ × S))
      → more ++ drop next file ≡ written ++ drop offset file
      → Rest next more out
      → Rest offset written out
  Rest-cong offset next written more none e r = r
  Rest-cong offset next written more (some (ok n, s)) e r = (r.0, rw (← e) r.1)
  Rest-cong offset next written more (some (err x, s)) e r = r

  after_write-Rest :
      (again : ℕ → S → Option (Result ℕ × S)) (offset next : ℕ) (written bytes : List ℕ)
      (out : Result (Unit {0}) × S)
      → (written ++ bytes) ++ drop next file ≡ written ++ drop offset file
      → Returns (λ _. Written out.1 (written ++ bytes)) Allowed out.0
      → Holds out.1 file
      → ((s : S)
          → Holds s file
          → Written s (written ++ bytes)
          → Rest next (written ++ bytes) (again next s))
      → Rest offset written (after_write again next out)
  after_write-Rest again offset next written bytes (err e, s) same p q k = p
  after_write-Rest again offset next written bytes (ok u, s) same p q k =
      Rest-cong offset next written (written ++ bytes) (again next s) same (k s q p)

  after_read-Rest :
      (again : ℕ → S → Option (Result ℕ × S)) (offset : ℕ) (written : List ℕ)
      (out : Result (List ℕ) × S)
      → offset ≤ length file
      → Returns (IsRead file offset chunk) Allowed out.0
      → Holds out.1 file
      → Written out.1 written
      → ((next : ℕ) (more : List ℕ) (s : S)
          → offset < next
          → next ≤ length file
          → Holds s file
          → Written s more
          → Rest next more (again next s))
      → Rest offset written (after_read again write offset out)
  after_read-Rest again offset written (err e, s) le p q w k = p
  after_read-Rest again offset written (ok [], s) le p q w k =
      let at_end = at_end_of_nothing file offset chunk some_bytes p in
      (omega (arith, at_end), rw (drop_all offset file at_end, append-nil) w)
  after_read-Rest again offset written (ok (b ∷ bs), s) le p q w k =
      let bound = exact_bound file (b ∷ bs) offset p.exact in
      let (out, held) = sink.writes s file written (b ∷ bs) q w in
      rw (add_u64_exact offset (length (b ∷ bs)) (omega (arith, bound))) (
        after_write-Rest again offset (offset + length (b ∷ bs)) written (b ∷ bs) (write (b ∷ bs) s)
          (append_assoc written (b ∷ bs) (drop (offset + length (b ∷ bs)) file)
            ∙ ap (λ d. written ++ d) (drop_chunk file (b ∷ bs) offset p.exact))
          out held
          (λ s' q' w'.
            k (offset + length (b ∷ bs)) (written ++ b ∷ bs) s' (omega arith) (omega (arith, bound))
              q' w'))

  transfer_loop-Rest :
      (fuel offset : ℕ) (written : List ℕ) (s : S)
      → offset ≤ length file
      → length file < offset + fuel
      → Holds s file
      → Written s written
      → Rest offset written (transfer_loop h write chunk fuel offset s)
  unfolding transfer_loop
  transfer_loop-Rest zero offset written s le enough q w = omega arith
  transfer_loop-Rest (suc fuel) offset written s le enough q w =
      let (p, held) = serves.reads s file offset chunk q (omega arith) in
      after_read-Rest (transfer_loop h write chunk fuel) offset written (h.read_at s offset chunk)
        le p held (sink.reads_apart s file written offset chunk q (omega arith) w)
        (λ next more s' grows le' q' w'.
          transfer_loop-Rest fuel next more s' le' (omega arith) q' w')

  Rest-Whole :
      (before : List ℕ) (out : Option (Result ℕ × S))
      → Rest 0 before out
      → Whole Written Allowed file before out
  Rest-Whole before none r = r
  Rest-Whole before (some (ok n, s)) r = r
  Rest-Whole before (some (err e, s)) r = r

-- With more rounds than the file has bytes the loop of `cat` and `get` ends; where it succeeds, exactly
-- the file was written, behind what was there, whatever the chunk and however short the reads, and its
-- count is the file's size; it fails only by an error of a read or of a write. The chunk has a byte at
-- least, the handle keeps the contract of `read_at`, and sizes fit in 64 bits.
pub transfer_loop-Whole :
    {S : Type 0} (h : FileHandle S) (write : List ℕ → Run S (Unit {0}))
    (Holds : S → List ℕ → Type 0) (Written : S → List ℕ → Type 0) (Allowed : Error → Type 0)
    → Serves h Holds Allowed
    → Appends h write Holds Written Allowed
    → (file before : List ℕ) (chunk fuel : ℕ) (s : S) → 0 < chunk
    → length file < u64_mod
    → length file < fuel
    → Holds s file
    → Written s before
    → Whole Written Allowed file before (transfer_loop h write chunk fuel 0 s)
transfer_loop-Whole h write Holds Written Allowed serves sink file before chunk fuel s pos sized
      enough q w =
    Rest-Whole h write Holds Written Allowed serves sink file chunk pos sized before
      (transfer_loop h write chunk fuel 0 s)
      (transfer_loop-Rest h write Holds Written Allowed serves sink file chunk pos sized fuel 0
        before s (omega arith) (omega arith) q w)
