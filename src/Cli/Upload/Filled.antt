-- ===== src/Cli/Upload/Filled.antt =====
-- The blocks that `put` reads.
use krystallos.Common.{
  ℕ, zero, suc, ◌+◌, ◌-◌, ◌≤◌, ◌<◌, List, [], ◌∷◌, ◌++◌, ◌≡◌, inl, inr, refl, ap, ◌∙◌, arith,
  length, take, drop, append_assoc, length-append, Bool-cases, ltb, ltb→lt,
}
use krystallos.Core.Error.{Error, Result, ok, err}
use krystallos.Core.FileHandle.{FileHandle}
use krystallos.Core.FileHandle.Contract.{IsRead, Returns, at_end_of_nothing}
use krystallos.Core.Run.{Run}
use krystallos.Cli.Upload.{after_source, fill_block}
use krystallos.Cli.Upload.Contract.{Uploads}

take-drop : (n : ℕ) (xs : List ℕ) → take n xs ++ drop n xs ≡ xs
take-drop zero xs = refl
take-drop (suc n) [] = refl
take-drop (suc n) (x ∷ xs) = ap (λ r. x ∷ r) (take-drop n xs)

module _ {W : Type 0} (Left : W → List ℕ → Type 0) (Content : W → List ℕ → Type 0)
    (Allowed : Error → Type 0) where
  -- A block of what was left, empty only if nothing was left.
  abbrev pub Filled : List ℕ → List ℕ → Result (List ℕ) × W → Type 0
  Filled content left (err e, w) = Allowed e
  Filled content left (ok block, w) =
      (rest : List ℕ) × (block ++ rest ≡ left)
      × Left w rest
      × Content w content
      × (length block ≡ 0 → length left ≡ 0)

module _ {W : Type 0} (read : ℕ → Run W (List ℕ)) (h : FileHandle W) (Left : W → List ℕ → Type 0)
    (Content : W → List ℕ → Type 0) (Allowed : Error → Type 0)
    (contract : Uploads read h Left Content Allowed) (chunk : ℕ) (some_bytes : 0 < chunk) where
  after_source-Filled :
      (again : List ℕ → Run W (List ℕ)) (content left buf rest : List ℕ) (out : Result (List ℕ) × W)
      → length buf < chunk
      → buf ++ rest ≡ left
      → Returns
          (λ (bytes : List ℕ).
            IsRead rest 0 (chunk - length buf) bytes × Left out.1 (drop (length bytes) rest))
          Allowed
          out.0
      → Content out.1 content
      → ((more : List ℕ) (rest' : List ℕ) (w : W)
          → length buf < length more
          → more ++ rest' ≡ left
          → Left w rest'
          → Content w content
          → Filled Left Content Allowed content left (again more w))
      → Filled Left Content Allowed content left (after_source again buf out)
  after_source-Filled again content left buf rest (err e, w) lt e' p c k = p
  after_source-Filled again content left buf rest (ok [], w) lt e' p c k =
      let at_end = at_end_of_nothing rest 0 (chunk - length buf) (omega arith) p.0 in
      (rest, e', p.1, c, λ z. omega (arith, ap length e', length-append buf rest, at_end))
  after_source-Filled again content left buf rest (ok (b ∷ bs), w) lt e' p c k =
      k (buf ++ b ∷ bs) (drop (length (b ∷ bs)) rest) w (omega (arith, length-append buf (b ∷ bs)))
        (append_assoc buf (b ∷ bs) (drop (length (b ∷ bs)) rest)
          ∙ ap (λ r. buf ++ r)
              (ap (λ r. r ++ drop (length (b ∷ bs)) rest) p.0.exact
                ∙ take-drop (length (b ∷ bs)) rest)
          ∙ e')
        p.1 c

  pub fill_block-Filled :
      (fuel : ℕ) (content left buf rest : List ℕ) (w : W)
      → chunk ≤ length buf + fuel
      → buf ++ rest ≡ left
      → Left w rest
      → Content w content
      → Filled Left Content Allowed content left (fill_block read fuel chunk buf w)
  unfolding fill_block
  fill_block-Filled zero content left buf rest w enough e l c =
      (rest, e, l, c, λ z. absurd (omega arith))
  fill_block-Filled (suc fuel) content left buf rest w enough e l c =
      elim (Bool-cases (ltb (length buf) chunk)) [
        | inl t ↦
            let (p, c') = contract.supplies w rest content (chunk - length buf) l c in
            rw t (
              after_source-Filled (fill_block read fuel chunk) content left buf rest
                (read (chunk - length buf) w) (ltb→lt (length buf) chunk t) e p c'
                (λ more rest' w' grows e' l' c''.
                  fill_block-Filled fuel content left more rest' w' (omega arith) e' l' c''))
        | inr t ↦ rw t (rest, e, l, c, λ z. ground (arith, t))
      ]
