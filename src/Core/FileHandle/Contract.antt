-- ===== src/Core/FileHandle/Contract.antt =====
-- What `FileHandle::read_at` documents, for a handle on a file that nobody changes.
use native.Mathlib.Decide.{dec_lt}
use krystallos.Common.{
  ℕ, ◌+◌, ◌-◌, ◌≤◌, ◌<◌, List, [], ◌++◌, ◌≡◌, sym, ap, ap₂, ◌∙◌, arith, length, take, drop, u64_mod,
  length-take, length-drop, take_all, take-take, take-append, drop-drop, length-append,
}
use krystallos.Core.Error.{Error, Result, ok, err}
use krystallos.Core.FileHandle.{FileHandle}

-- `bytes` stand at `offset` in the file, are at most `n`, and are none only at or past its end.
pub record IsRead (file : List ℕ) (offset n : ℕ) (bytes : List ℕ) : Type 0 where
  pub fits : length bytes ≤ n
  pub exact : bytes ≡ take (length bytes) (drop offset file)
  pub progress : 0 < n → offset < length file → 0 < length bytes

-- A success meets `P`, and a failure is one of the errors that `Allowed` holds of.
abbrev pub Returns {ℓ} : {A : Type ℓ} → (A → Type 0) → (Error → Type 0) → Result A → Type 0
Returns P Allowed (ok a) = P a
Returns P Allowed (err e) = Allowed e

-- The handle serves reads of the file that its state holds, and goes on holding it. Its errors
-- are among those that `Allowed` names, so with none allowed every read succeeds.
pub record Serves {S : Type 0} (h : FileHandle S) (Holds : S → List ℕ → Type 0)
    (Allowed : Error → Type 0) : Type 0 where
  pub reads :
      (s : S) (file : List ℕ) (offset n : ℕ)
      → Holds s file
      → offset < u64_mod
      → Returns (IsRead file offset n) Allowed (h.read_at s offset n).0
        × Holds (h.read_at s offset n).1 file

module _ {ℓ} {A : Type ℓ} where
  pub exact_of_take : (k : ℕ) (xs ys : List A) → xs ≡ take k ys → xs ≡ take (length xs) ys
  exact_of_take k xs ys e =
      e
      ∙ ap (λ l. take k l) (sym (take_all (length ys) ys (omega arith)))
      ∙ take-take k (length ys) ys
      ∙ ap (λ n. take n ys) (sym (ap length e ∙ length-take k ys))

  -- A chunk read behind what is at hand extends it.
  pub exact-append :
      (file xs ys : List A) (offset : ℕ)
      → xs ≡ take (length xs) (drop offset file)
      → ys ≡ take (length ys) (drop (offset + length xs) file)
      → xs ++ ys ≡ take (length (xs ++ ys)) (drop offset file)
  exact-append file xs ys offset p q =
      ap₂ ◌++◌ p (q ∙ ap (λ l. take (length ys) l) (sym (drop-drop (length xs) offset file)))
      ∙ take-append (length xs) (length ys) (drop offset file)
      ∙ ap (λ n. take n (drop offset file)) (sym (length-append xs ys))

  pub exact_bound :
      (file xs : List A) (offset : ℕ)
      → xs ≡ take (length xs) (drop offset file)
      → length xs ≤ length file - offset
  exact_bound file xs offset p =
      omega
        (arith, ap length p, length-take (length xs) (drop offset file), length-drop offset file)

  -- What is read up to the end is all that there is.
  pub exact_at_end :
      (file xs : List A) (offset n : ℕ)
      → xs ≡ take (length xs) (drop offset file)
      → length file ≤ offset + length xs
      → length xs ≤ n
      → xs ≡ take n (drop offset file)
  exact_at_end file xs offset n p at_end le =
      let rest = length-drop offset file in
      p
      ∙ take_all (length xs) (drop offset file) (omega (arith, rest))
      ∙ sym (take_all n (drop offset file) (omega (arith, rest)))

-- A read of nothing, where something is asked for, is the end of the file.
pub at_end_of_nothing :
    (file : List ℕ) (offset n : ℕ) → 0 < n → IsRead file offset n [] → length file ≤ offset
at_end_of_nothing file offset n pos r = elim (dec_lt offset (length file)) [
  | yes p ↦ absurd (omega (arith, r.progress pos p))
  | no p ↦ omega arith
]
