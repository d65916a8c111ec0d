-- ===== src/Core/VfsPath/Join.antt =====
-- `VfsPath::join`: a name can only lead downward.
use krystallos.Common.{
  ℕ, ◌<◌, List, [], ◌∷◌, ◌++◌, ◌≡◌, refl, sym, ap, ◌∙◌, inl, inr, false, arith, Text, All,
  Bool-cases, append-nil, append_assoc, text_eq, text_eq→eq, text_eq_refl, if◌then◌else◌, null,
  length, length-append,
}
use krystallos.Core.Error.{Result, ok, err, ◌>>=◌, invalid_path}
use krystallos.Core.VfsPath.{
  slash, is_slash, is_separator, dotdot, dotdot_reason, unchanged_reason, split, is_skipped, step,
  collect, render, of_segments, new, any_dotdot, ends_with_slash, joined_text, join,
}
use krystallos.Core.VfsPath.Split.{Free, split-append, split-All-Free, split-render}
use krystallos.Core.VfsPath.Normal.{IsSegment, collect-segments, Free-of_segments, slash-Free}

-- The words of a name that say something.
unfoldable pub kept : List Text → List Text
kept [] = []
kept (w ∷ ws) = let rest = kept ws in if is_skipped w then rest else w ∷ rest

pub kept-All :
    (ws : List Text) → All (Free is_separator) ws → any_dotdot ws ≡ false → All IsSegment (kept ws)
unfolding kept any_dotdot
kept-All [] f h = tt
kept-All (w ∷ ws) f h = elim (Bool-cases (text_eq w dotdot)) [
  | inl d ↦ cc (rw d at h)
  | inr d ↦
      let h' : any_dotdot ws ≡ false = rw d at h in
      elim (Bool-cases (is_skipped w)) [
        | inl k ↦ rw k (kept-All ws f.1 h')
        | inr k ↦ rw k (record { ordinary = k; stays = d; free = f.0 }, kept-All ws f.1 h')
      ]
]

collect-append :
    (raw : Text) (ss xs ys : List Text)
    → collect raw ss (xs ++ ys) ≡ (collect raw ss xs >>= λ next. collect raw next ys)
unfolding collect
collect-append raw ss [] ys = refl
collect-append raw ss (x ∷ xs) ys = on (step raw ss x) (λ next. collect-append raw next xs ys)
  where
    on :
        (m : Result (List Text))
        → ((next : List Text)
            → collect raw next (xs ++ ys) ≡ (collect raw next xs >>= λ n. collect raw n ys))
        → (m >>= λ next. collect raw next (xs ++ ys))
          ≡ ((m >>= λ next. collect raw next xs) >>= λ n. collect raw n ys)
    on (ok a) h = h a
    on (err e) h = refl

collect-kept :
    (raw : Text) (ss ws : List Text)
    → any_dotdot ws ≡ false
    → collect raw ss ws ≡ ok (ss ++ kept ws)
unfolding collect step kept any_dotdot
collect-kept raw ss [] h = rw append-nil
collect-kept raw ss (w ∷ ws) h = elim (Bool-cases (text_eq w dotdot)) [
  | inl d ↦ cc (rw d at h)
  | inr d ↦
      let h' : any_dotdot ws ≡ false = rw d at h in
      elim (Bool-cases (is_skipped w)) [
        | inl k ↦ rw k (collect-kept raw ss ws h')
        | inr k ↦
            rw (k, d)
              (collect-kept raw (ss ++ w ∷ []) ws h' ∙ ap ok (append_assoc ss (w ∷ []) (kept ws)))
      ]
]

ends-append : (s : Text) (c : ℕ) (t : Text) → ends_with_slash (s ++ c ∷ t) ≡ ends_with_slash (c ∷ t)
ends-append [] c t = refl
ends-append (d ∷ []) c t = refl
ends-append (d ∷ e ∷ s) c t = ends-append (e ∷ s) c t

ends-Free : (s : Text) → Free is_slash s → ends_with_slash s ≡ false
ends-Free [] f = refl
ends-Free (c ∷ []) f = f.0
ends-Free (c ∷ d ∷ s) f = ends-Free (d ∷ s) f.1

ends-segment : (s : Text) → IsSegment s → Free is_slash s → ends_with_slash (slash ∷ s) ≡ false
ends-segment [] h f = cc (h.ordinary)
ends-segment (c ∷ s) h f = ends-Free (c ∷ s) f

ends-render :
    (s : Text) (ss : List Text) → All IsSegment (s ∷ ss) → ends_with_slash (render (s ∷ ss)) ≡ false
ends-render s [] h = rw append-nil (ends-segment s h.0 (slash-Free (s ∷ []) h).0)
ends-render s (t ∷ ts) h = ends-append (slash ∷ s) slash (t ++ render ts) ∙ ends-render t ts h.1

new-words :
    (raw : Text) (ss ws : List Text)
    → split is_separator raw ≡ [] ∷ (ss ++ ws)
    → All IsSegment ss
    → any_dotdot ws ≡ false
    → new raw ≡ ok (of_segments (ss ++ kept ws))
unfolding new collect step
new-words raw ss ws e h d =
    rw (e, collect-append raw [] ss ws, collect-segments raw [] ss h, collect-kept raw ss ws d)

split-joined :
    (ss : List Text) (name : Text)
    → All IsSegment ss
    → split is_separator (joined_text (of_segments ss).raw name)
      ≡ [] ∷ (ss ++ split is_separator name)
unfolding split
split-joined [] name h = refl
split-joined (s ∷ ss) name h = rw (ends-render s ss h) (
    split-append is_separator slash (render (s ∷ ss)) name refl
    ∙ ap (λ l. [] ∷ (l ++ split is_separator name))
        (split-render is_separator s ss refl (Free-of_segments (s ∷ ss) h).0
          (Free-of_segments (s ∷ ss) h).1))

pub render-append : (xs ys : List Text) → render (xs ++ ys) ≡ render xs ++ render ys
render-append [] ys = refl
render-append (x ∷ xs) ys =
    ap (λ r. slash ∷ r)
      (ap (λ r. x ++ r) (render-append xs ys) ∙ sym (append_assoc x (render xs) (render ys)))

longer-ne : (s t : Text) → length t < length s → text_eq s t ≡ false
longer-ne s t h = elim (Bool-cases (text_eq s t)) [
  | inl e ↦ absurd (omega (arith, ap length (text_eq→eq s t e)))
  | inr e ↦ e
]

longer-than-root : (k : Text) (r : Text) → IsSegment k → 1 < length (slash ∷ (k ++ r))
longer-than-root [] r h = cc (h.ordinary)
longer-than-root (c ∷ k) r h = omega arith

-- Two paths have one text only if nothing was added.
unchanged_iff_null :
    (ss ks : List Text)
    → All IsSegment ks
    → text_eq (of_segments (ss ++ ks)).raw (of_segments ss).raw ≡ null ks
unchanged_iff_null ss [] h = rw append-nil (text_eq_refl (of_segments ss).raw)
unchanged_iff_null [] (k ∷ ks) h =
    longer-ne (slash ∷ (k ++ render ks)) (slash ∷ []) (longer-than-root k (render ks) h.0)
unchanged_iff_null (s ∷ ss) (k ∷ ks) h = longer-ne (render (s ∷ (ss ++ k ∷ ks))) (render (s ∷ ss)) (
    omega (
      arith,
      ap length (render-append (s ∷ ss) (k ∷ ks)),
      length-append (render (s ∷ ss)) (render (k ∷ ks)),
    ))

-- Joining a name to a path fails exactly if the name has a `..` word, or no word that says something;
-- otherwise the result is the path with the name's words behind it, in order: it never leads upward.
pub join_lem :
    (ss : List Text) (name : Text)
    → All IsSegment ss
    → let words = split is_separator name in
      join (of_segments ss) name ≡ (
        if any_dotdot words
        then err (invalid_path name dotdot_reason)
        else if null (kept words)
        then err (invalid_path name unchanged_reason)
        else ok (of_segments (ss ++ kept words)))
unfolding join
join_lem ss name h = elim (Bool-cases (any_dotdot (split is_separator name))) [
  | inl d ↦ rw d
  | inr d ↦ rw (
    d,
    new-words (joined_text (of_segments ss).raw name) ss (split is_separator name)
        (split-joined ss name h) h d,
    unchanged_iff_null ss (kept (split is_separator name))
        (kept-All (split is_separator name) (split-All-Free is_separator name) d),
  )
]
