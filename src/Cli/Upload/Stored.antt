-- ===== src/Cli/Upload/Stored.antt =====
-- What `put` stores is the file that it was given.
use mathlib.Core.Path.{subst}
use krystallos.Common.{
  ℕ, zero, suc, ◌+◌, ◌<◌, List, [], ◌∷◌, ◌++◌, ◌≡◌, inl, refl, sym, ap, ◌∙◌, Option, none, some,
  arith, length, u64_mod, append_assoc, append-nil, length-append,
}
use krystallos.Core.Error.{Error, Result, ok, err}
use krystallos.Core.FileHandle.{FileHandle}
use krystallos.Core.Run.{Run}
use krystallos.Cli.Upload.{fill_block, write_block, after_block, after_fill, put_loop}
use krystallos.Cli.Upload.Contract.{Uploads, Failure}
use krystallos.Cli.Upload.Filled.{Filled, fill_block-Filled}
use krystallos.Cli.Upload.Written.{Written, write_block_whole}

-- The whole source is stored and its size is the count; or the upload failed.
abbrev pub Stored :
    {W : Type 0}
    → (W → List ℕ → Type 0)
    → (Error → Type 0)
    → List ℕ
    → Option (Result ℕ × W)
    → Type 0
Stored Content Allowed source none = ⊥
Stored Content Allowed source (some (ok n, w)) = (n ≡ length source) × Content w source
Stored Content Allowed source (some (err e, w)) = Failure Allowed e

append-none : (xs ys : List ℕ) → length ys ≡ 0 → xs ++ ys ≡ xs
append-none xs [] z = append-nil xs
append-none xs (y ∷ ys) z = absurd (omega (arith, z))

module _ {W : Type 0} (read : ℕ → Run W (List ℕ)) (h : FileHandle W) (Left : W → List ℕ → Type 0)
    (Content : W → List ℕ → Type 0) (Allowed : Error → Type 0)
    (contract : Uploads read h Left Content Allowed) (chunk : ℕ) (some_bytes : 0 < chunk) where
  after_block-Stored :
      (again : ℕ → W → Option (Result ℕ × W)) (source base block rest : List ℕ) (out : Result ℕ × W)
      → Written Left Content Allowed base block rest out
      → ((w : W)
          → Content w (base ++ block)
          → Left w rest
          → Stored Content Allowed source (again (length base + length block) w))
      → Stored Content Allowed source (after_block again out)
  after_block-Stored again source base block rest (err e, w) p k = p
  after_block-Stored again source base block rest (ok offset, w) p k = rw p.0 (k w p.1 p.2)

  after_fill-Stored :
      (again : ℕ → W → Option (Result ℕ × W)) (source base left : List ℕ)
      (out : Result (List ℕ) × W)
      → base ++ left ≡ source
      → length source < u64_mod
      → Filled Left Content Allowed base left out
      → ((base' rest : List ℕ) (w : W)
          → base' ++ rest ≡ source
          → length base < length base'
          → Content w base'
          → Left w rest
          → Stored Content Allowed source (again (length base') w))
      → Stored Content Allowed source (after_fill h again (length base) out)
  after_fill-Stored again source base left (err e, w) whole sized p k = inl p
  after_fill-Stored again source base left (ok [], w) whole sized (rest, e, l, c, stop) k =
      let done = stop refl in
      (
        omega (arith, ap length whole, length-append base left, done),
        subst (Content w) (sym (append-none base left done) ∙ whole) c,
      )
  after_fill-Stored again source base left (ok (b ∷ bs), w) whole sized (rest, e, l, c, stop) k =
      after_block-Stored again source base (b ∷ bs) rest
        (write_block h (length (b ∷ bs)) (b ∷ bs) 0 (length base) w)
        (write_block_whole read h Left Content Allowed contract base (b ∷ bs) rest w
          (omega (
            arith,
            ap length e,
            ap length whole,
            length-append base left,
            length-append (b ∷ bs) rest,
            sized,
          ))
          c l)
        (λ w' c' l'. rw (← length-append base (b ∷ bs)) (
          k (base ++ b ∷ bs) rest w'
            (append_assoc base (b ∷ bs) rest ∙ ap (λ r. base ++ r) e ∙ whole)
            (omega (arith, length-append base (b ∷ bs))) c' l'))

  put_loop-Stored_from :
      (fuel : ℕ) (source base left : List ℕ) (w : W)
      → base ++ left ≡ source
      → length source < u64_mod
      → length source < length base + fuel
      → Content w base
      → Left w left
      → Stored Content Allowed source (put_loop read h chunk fuel (length base) w)
  unfolding put_loop
  put_loop-Stored_from zero source base left w whole sized enough c l =
      omega (arith, ap length whole, length-append base left)
  put_loop-Stored_from (suc fuel) source base left w whole sized enough c l =
      after_fill-Stored (put_loop read h chunk fuel) source base left
        (fill_block read chunk chunk [] w) whole sized
        (fill_block-Filled read h Left Content Allowed contract chunk some_bytes chunk base left []
          left w (omega arith) refl l c)
        (λ base' rest w' whole' grows c' l'.
          put_loop-Stored_from fuel source base' rest w' whole' sized (omega arith) c' l')

-- With more rounds than the source has bytes, the loop of `put` ends; where it succeeds, the file that
-- was empty holds the source, whatever the chunk and however short the reads and the writes, and its count
-- is the source's size; it fails by an error of a read or of a write, or because a write takes no byte.
-- The chunk has a byte at least, source and handle keep the contract above, and sizes fit in 64 bits.
pub put_loop-Stored :
    {W : Type 0} (read : ℕ → Run W (List ℕ)) (h : FileHandle W) (Left : W → List ℕ → Type 0)
    (Content : W → List ℕ → Type 0) (Allowed : Error → Type 0)
    → Uploads read h Left Content Allowed
    → (chunk fuel : ℕ) (source : List ℕ) (w : W) → 0 < chunk
    → length source < u64_mod
    → length source < fuel
    → Content w []
    → Left w source
    → Stored Content Allowed source (put_loop read h chunk fuel 0 w)
put_loop-Stored read h Left Content Allowed contract chunk fuel source w pos sized enough c l =
    put_loop-Stored_from read h Left Content Allowed contract chunk pos fuel source [] source w refl
      sized (omega arith) c l
