-- ===== src/Core/VfsPath/Normal.antt =====
-- What `VfsPath::new` returns: the invariant of a path, the escapes, the round trips.
use krystallos.Common.{
  List, [], ◌∷◌, ◌++◌, ◌≡◌, refl, ap, inl, inr, false, arith, Text, All, All-append, Bool-cases,
  append-nil, append_assoc, text_eq,
}
use krystallos.Core.Error.{ok, Ensures, Ensures-bind}
use krystallos.Core.VfsPath.{
  VfsPath, is_slash, is_separator, dotdot, split, is_skipped, pop, but_last, pop_or_escape, step,
  collect, render, root, of_segments, new, drop_empty, segments,
}
use krystallos.Core.VfsPath.Split.{Free, split-All-Free, split-render}

-- A segment is no empty text, no `.` and no `..`, and holds no separator.
pub record IsSegment (s : Text) : Type 0 where
  pub ordinary : is_skipped s ≡ false
  pub stays : text_eq s dotdot ≡ false
  pub free : Free is_separator s

-- The documented invariant of `VfsPath`: the text is the root or `/`-led segments.
pub record IsNormal (p : VfsPath) : Type 0 where
  pub parts : List Text
  pub each : All IsSegment parts
  pub whole : p ≡ of_segments parts

pub Free-of_segments : (ss : List Text) → All IsSegment ss → All (Free is_separator) ss
Free-of_segments [] h = tt
Free-of_segments (s ∷ ss) h = (h.0.free, Free-of_segments ss h.1)

Free-slash : (s : Text) → Free is_separator s → Free is_slash s
Free-slash [] f = tt
Free-slash (c ∷ s) f = (ground (arith, f.0), Free-slash s f.1)

pub slash-Free : (ss : List Text) → All IsSegment ss → All (Free is_slash) ss
slash-Free [] h = tt
slash-Free (s ∷ ss) h = (Free-slash s h.0.free, slash-Free ss h.1)

-- The loop keeps each segment of its vector well formed.
but_last-All :
    (P : Text → Type 0) (s : Text) (ss : List Text) → All P (s ∷ ss) → All P (but_last s ss)
unfolding but_last
but_last-All P s [] h = tt
but_last-All P s (t ∷ ts) h = (h.0, but_last-All P t ts h.1)

pop_or_escape-All :
    (raw : Text) (ss : List Text)
    → All IsSegment ss
    → Ensures (All IsSegment) (pop_or_escape raw (pop ss))
unfolding pop_or_escape pop
pop_or_escape-All raw [] h = tt
pop_or_escape-All raw (s ∷ ss) h = but_last-All IsSegment s ss h

step-All :
    (raw : Text) (ss : List Text) (s : Text)
    → Free is_separator s
    → All IsSegment ss
    → Ensures (All IsSegment) (step raw ss s)
unfolding step
step-All raw ss s f h = elim (Bool-cases (is_skipped s)) [
  | inl k ↦ rw k h
  | inr k ↦ elim (Bool-cases (text_eq s dotdot)) [
    | inl d ↦ rw (k, d) (pop_or_escape-All raw ss h)
    | inr d ↦
        rw (k, d)
          (All-append IsSegment ss (s ∷ []) h (record { ordinary = k; stays = d; free = f }, tt))
  ]
]

pub collect-All :
    (raw : Text) (ss ws : List Text)
    → All (Free is_separator) ws
    → All IsSegment ss
    → Ensures (All IsSegment) (collect raw ss ws)
unfolding collect
collect-All raw ss [] f h = h
collect-All raw ss (w ∷ ws) f h =
    Ensures-bind (All IsSegment) (All IsSegment) (step raw ss w) (λ next. collect raw next ws)
      (step-All raw ss w f.0 h) (λ next g. collect-All raw next ws f.1 g)

new-Ensures : (raw : Text) → Ensures IsNormal (new raw)
unfolding new
new-Ensures raw =
    Ensures-bind (All IsSegment) IsNormal (collect raw [] (split is_separator raw))
      (λ ss. ok (of_segments ss))
      (collect-All raw [] (split is_separator raw) (split-All-Free is_separator raw) tt)
      (λ ss h. record { parts = ss; each = h; whole = refl })

-- Whatever text `new` accepts, the path it returns is absolute and its segments are normal.
pub new-IsNormal : (raw : Text) {p : VfsPath} → new raw ≡ ok p → IsNormal p
new-IsNormal raw e = rw e at (new-Ensures raw)

-- Round trip: the segments of a path are the ones that it was made of.
drop_empty-All : (ss : List Text) → All IsSegment ss → drop_empty ss ≡ ss
drop_empty-All [] h = refl
drop_empty-All ([] ∷ ss) h = cc (h.0.ordinary)
drop_empty-All ((c ∷ s) ∷ ss) h = ap (λ r. (c ∷ s) ∷ r) (drop_empty-All ss h.1)

-- `segments` recovers the segments that a path was made of.
pub segments-of_segments : (ss : List Text) → All IsSegment ss → segments (of_segments ss) ≡ ss
unfolding segments split
segments-of_segments [] h = refl
segments-of_segments (s ∷ ss) h =
    rw (split-render is_slash s ss refl (slash-Free (s ∷ ss) h).0 (slash-Free (s ∷ ss) h).1)
      (drop_empty-All (s ∷ ss) h)

pub collect-segments :
    (raw : Text) (ss ws : List Text) → All IsSegment ws → collect raw ss ws ≡ ok (ss ++ ws)
unfolding collect step
collect-segments raw ss [] h = rw append-nil
collect-segments raw ss (w ∷ ws) h = rw (
  h.0.ordinary,
  h.0.stays,
  collect-segments raw (ss ++ w ∷ []) ws h.1,
  append_assoc ss (w ∷ []) ws,
)

-- A normal path is left alone by normalisation: `new` of its text gives the path back.
pub new-of_segments :
    (ss : List Text) → All IsSegment ss → new (of_segments ss).raw ≡ ok (of_segments ss)
unfolding new split collect step
new-of_segments [] h = refl
new-of_segments (s ∷ ss) h = rw (
  split-render is_separator s ss refl (Free-of_segments (s ∷ ss) h).0
      (Free-of_segments (s ∷ ss) h).1,
  h.0.ordinary,
  h.0.stays,
  collect-segments (render (s ∷ ss)) (s ∷ []) ss h.1,
)

-- Segments with a separator between them, and none in front, are a relative path to `new`.
pub new-relative :
    (s : Text) (ss : List Text)
    → All IsSegment (s ∷ ss)
    → new (s ++ render ss) ≡ ok (of_segments (s ∷ ss))
unfolding new split collect step
new-relative s ss h = rw (
  split-render is_separator s ss refl (Free-of_segments (s ∷ ss) h).0
      (Free-of_segments (s ∷ ss) h).1,
  collect-segments (s ++ render ss) [] (s ∷ ss) h,
)

pub new-nil : new [] ≡ ok root
unfolding new split collect step
new-nil = refl

-- Normalising twice is normalising once.
pub new-idempotent : (raw : Text) {p : VfsPath} → new raw ≡ ok p → new p.raw ≡ ok p
new-idempotent raw e = let n = new-IsNormal raw e in rw (n.whole) (new-of_segments n.parts n.each)
