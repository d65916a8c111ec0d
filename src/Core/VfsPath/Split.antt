-- ===== src/Core/VfsPath/Split.antt =====
-- `str::split` on the texts that paths are made of.
use krystallos.Common.{
  ℕ, List, [], ◌∷◌, ◌++◌, ◌≡◌, refl, inl, inr, Bool, true, false, Text, All, Bool-cases, append-nil,
}
use krystallos.Core.VfsPath.{push_front, split, render, slash}

-- No byte of the text is a separator.
abbrev pub Free : (ℕ → Bool) → Text → Type 0
Free is_sep = All (λ c. is_sep c ≡ false)

pub split-cons :
    (is_sep : ℕ → Bool) (s : Text) → (w : Text) × (ws : List Text) × (split is_sep s ≡ w ∷ ws)
unfolding split
split-cons is_sep [] = ([], [], refl)
split-cons is_sep (c ∷ s) = elim (Bool-cases (is_sep c)) [
  | inl e ↦ ([], split is_sep s, rw e)
  | inr e ↦ let (w, ws, h) = split-cons is_sep s in (c ∷ w, ws, rw (e, h))
]

pub split-append :
    (is_sep : ℕ → Bool) (c : ℕ) (s t : Text)
    → is_sep c ≡ true
    → split is_sep (s ++ c ∷ t) ≡ split is_sep s ++ split is_sep t
unfolding split
split-append is_sep c [] t e = rw e
split-append is_sep c (d ∷ s) t e = elim (Bool-cases (is_sep d)) [
  | inl h ↦ rw (h, split-append is_sep c s t e)
  | inr h ↦ let (w, ws, g) = split-cons is_sep s in rw (h, split-append is_sep c s t e, g)
]

pub split-Free : (is_sep : ℕ → Bool) (s : Text) → Free is_sep s → split is_sep s ≡ s ∷ []
unfolding split
split-Free is_sep [] f = refl
split-Free is_sep (c ∷ s) f = rw (f.0, split-Free is_sep s f.1)

push_front-Free :
    (is_sep : ℕ → Bool) (c : ℕ) (ws : List Text)
    → is_sep c ≡ false
    → All (Free is_sep) ws
    → All (Free is_sep) (push_front c ws)
push_front-Free is_sep c [] e f = ((e, tt), tt)
push_front-Free is_sep c (w ∷ ws) e f = ((e, f.0), f.1)

pub split-All-Free : (is_sep : ℕ → Bool) (s : Text) → All (Free is_sep) (split is_sep s)
unfolding split
split-All-Free is_sep [] = (tt, tt)
split-All-Free is_sep (c ∷ s) = elim (Bool-cases (is_sep c)) [
  | inl e ↦ rw e (tt, split-All-Free is_sep s)
  | inr e ↦ rw e (push_front-Free is_sep c (split is_sep s) e (split-All-Free is_sep s))
]

-- Words behind one another, each led by a separator, split into themselves behind the first.
pub split-render :
    (is_sep : ℕ → Bool) (s : Text) (ss : List Text)
    → is_sep slash ≡ true
    → Free is_sep s
    → All (Free is_sep) ss
    → split is_sep (s ++ render ss) ≡ s ∷ ss
split-render is_sep s [] e f fs = rw append-nil (split-Free is_sep s f)
split-render is_sep s (t ∷ ts) e f fs = rw (
  split-append is_sep slash s (t ++ render ts) e,
  split-Free is_sep s f,
  split-render is_sep t ts e fs.0 fs.1,
)
