-- ===== src/Core/VfsPath/Parts.antt =====
-- `file_name` and `parent` of a path, and how they undo `join`.
use krystallos.Common.{
  List, [], ◌∷◌, ◌++◌, ◌≡◌, refl, ap, ◌∙◌, false, none, some, arith, Text, All, All-append,
  append-nil, text_eq, if◌then◌else◌, null, length, take_all, take-append_le,
}
use krystallos.Core.Error.{ok, err, invalid_path}
use krystallos.Core.VfsPath.{
  VfsPath, slash, is_slash, is_separator, split, render, of_segments, is_root, last_word, file_name,
  rfind, cut_at, parent, segments, any_dotdot, join, dotdot_reason, unchanged_reason,
}
use krystallos.Core.VfsPath.Split.{Free, split-Free, split-render}
use krystallos.Core.VfsPath.Normal.{IsSegment, IsNormal, slash-Free, segments-of_segments}
use krystallos.Core.VfsPath.Join.{kept, join_lem, render-append}

is_root-segment : (s : Text) (r : Text) → IsSegment s → text_eq (s ++ r) [] ≡ false
is_root-segment [] r h = cc (h.ordinary)
is_root-segment (c ∷ s) r h = refl

is_root-of_segments :
    (s : Text) (ss : List Text) → IsSegment s → is_root (of_segments (s ∷ ss)) ≡ false
is_root-of_segments s ss h = is_root-segment s (render ss) h

last_word-snoc : (w : Text) (ss : List Text) (s : Text) → last_word w (ss ++ s ∷ []) ≡ s
last_word-snoc w [] s = refl
last_word-snoc w (t ∷ ts) s = last_word-snoc t ts s

file_name_lem :
    (ss : List Text) (s : Text)
    → All IsSegment ss
    → IsSegment s
    → file_name (of_segments (ss ++ s ∷ [])) ≡ some s
unfolding file_name split
file_name_lem [] s h g =
    let f = slash-Free (s ∷ []) (g, tt) in
    rw (is_root-of_segments s [] g, split-render is_slash s [] refl f.0 f.1)
file_name_lem (t ∷ ts) s h g =
    let f = slash-Free (t ∷ (ts ++ s ∷ [])) (All-append IsSegment (t ∷ ts) (s ∷ []) h (g, tt)) in
    rw
      (
        is_root-of_segments t (ts ++ s ∷ []) h.0,
        split-render is_slash t (ts ++ s ∷ []) refl f.0 f.1,
      )
      (ap some (last_word-snoc t ts s))

rfind-Free : (s : Text) → Free is_slash s → rfind slash s ≡ none
unfolding rfind
rfind-Free [] f = refl
rfind-Free (c ∷ s) f = rw (rfind-Free s f.1, f.0)

rfind-last : (s t : Text) → Free is_slash t → rfind slash (s ++ slash ∷ t) ≡ some (length s)
unfolding rfind
rfind-last [] t f = rw (rfind-Free t f)
rfind-last (c ∷ s) t f = rw (rfind-last s t f)

render-snoc : (ss : List Text) (s : Text) → render (ss ++ s ∷ []) ≡ render ss ++ slash ∷ s
render-snoc ss s = render-append ss (s ∷ []) ∙ ap (λ r. render ss ++ slash ∷ r) (append-nil s)

cut_at-render :
    (s : Text) (ss : List Text) (t : Text)
    → cut_at (render (s ∷ ss) ++ t) (some (length (render (s ∷ ss)))) ≡ of_segments (s ∷ ss)
cut_at-render s ss t =
    ap (λ r. record { raw = r })
      (take-append_le (length (render (s ∷ ss))) (render (s ∷ ss)) t (omega arith)
        ∙ take_all (length (render (s ∷ ss))) (render (s ∷ ss)) (omega arith))

parent_lem :
    (ss : List Text) (s : Text)
    → All IsSegment ss
    → IsSegment s
    → parent (of_segments (ss ++ s ∷ [])) ≡ of_segments ss
unfolding parent
parent_lem [] s h g =
    rw (
      is_root-of_segments s [] g,
      render-snoc [] s,
      rfind-last [] s (slash-Free (s ∷ []) (g, tt)).0,
    )
parent_lem (t ∷ ts) s h g =
    rw
      (
        is_root-of_segments t (ts ++ s ∷ []) h.0,
        render-snoc (t ∷ ts) s,
        rfind-last (render (t ∷ ts)) s (slash-Free (s ∷ []) (g, tt)).0,
      )
      (cut_at-render t ts (slash ∷ s))

kept-segment :
    (s : Text)
    → IsSegment s
    → (any_dotdot (split is_separator s) ≡ false) × (kept (split is_separator s) ≡ s ∷ [])
unfolding any_dotdot kept
kept-segment s h = (
  rw (split-Free is_separator s h.free, h.stays),
  rw (split-Free is_separator s h.free, h.ordinary),
)

join-segment :
    (ss : List Text) (name : Text)
    → All IsSegment ss
    → IsSegment name
    → join (of_segments ss) name ≡ ok (of_segments (ss ++ name ∷ []))
join-segment ss name h g = let (d, k) = kept-segment name g in join_lem ss name h ∙ decided d k
  where
    decided :
        any_dotdot (split is_separator name) ≡ false
        → kept (split is_separator name) ≡ name ∷ []
        → (if any_dotdot (split is_separator name)
            then err (invalid_path name dotdot_reason)
            else if null (kept (split is_separator name))
            then err (invalid_path name unchanged_reason)
            else ok (of_segments (ss ++ kept (split is_separator name))))
          ≡ ok (of_segments (ss ++ name ∷ []))
    decided d k = rw (d, k)

-- Joining one directory entry's name to a normal path succeeds, and gives a path whose parent is the
-- path that it was joined to, whose last segment is that name, and whose segments are those of the
-- path with the name behind them.
pub join_child :
    (p : VfsPath) (name : Text)
    → IsNormal p
    → IsSegment name
    → (q : VfsPath) × (join p name ≡ ok q)
      × (parent q ≡ p)
      × (file_name q ≡ some name)
      × (segments q ≡ segments p ++ name ∷ [])
join_child p name n h = child n.parts n.each n.whole
  where
    child :
        (ss : List Text)
        → All IsSegment ss
        → p ≡ of_segments ss
        → (q : VfsPath) × (join p name ≡ ok q)
          × (parent q ≡ p)
          × (file_name q ≡ some name)
          × (segments q ≡ segments p ++ name ∷ [])
    child ss g e = (
      of_segments (ss ++ name ∷ []),
      rw e (join-segment ss name g h),
      rw e (parent_lem ss name g h),
      file_name_lem ss name g h,
      rw (e, segments-of_segments ss g)
          (segments-of_segments (ss ++ name ∷ []) (All-append IsSegment ss (name ∷ []) g (h, tt))),
    )
