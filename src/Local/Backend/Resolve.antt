-- ===== src/Local/Backend/Resolve.antt =====
-- Where a path leads in the file system.
use krystallos.Common.{
  ℕ, List, [], ◌∷◌, ◌++◌, ◌≡◌, refl, ap, ◌∙◌, sym, true, arith, Text, All, length, drop, take,
  take_all, take-append_le, append-nil,
}
use krystallos.Core.VfsPath.{VfsPath, is_separator, split, of_segments, segments}
use krystallos.Core.VfsPath.Split.{Free, split-append, split-Free}
use krystallos.Core.VfsPath.Normal.{IsSegment, IsNormal, segments-of_segments}
use krystallos.Local.Backend.{LocalBackend, behind, resolve}

drop-append : (s t : Text) → drop (length s) (s ++ t) ≡ t
drop-append [] t = refl
drop-append (c ∷ s) t = drop-append s t

split-behind :
    (sep : ℕ) (s : Text) (ss : List Text)
    → is_separator sep ≡ true
    → Free is_separator s
    → All IsSegment ss
    → split is_separator (s ++ behind sep ss) ≡ s ∷ ss
split-behind sep s [] e f h = rw append-nil (split-Free is_separator s f)
split-behind sep s (t ∷ ts) e f h = rw (
  split-append is_separator sep s (t ++ behind sep ts) e,
  split-Free is_separator s f,
  split-behind sep t ts e h.0.free h.1,
)

segments-IsSegment : (p : VfsPath) → IsNormal p → All IsSegment (segments p)
segments-IsSegment p n = of_parts n.parts n.each n.whole
  where
    of_parts : (ss : List Text) → All IsSegment ss → p ≡ of_segments ss → All IsSegment (segments p)
    of_parts ss h e = rw (e, segments-of_segments ss h) h

of_segments-segments : (p : VfsPath) → IsNormal p → of_segments (segments p) ≡ p
of_segments-segments p n = of_parts n.parts n.each n.whole
  where
    of_parts :
        (ss : List Text) → All IsSegment ss → p ≡ of_segments ss → of_segments (segments p) ≡ p
    of_parts ss h e = rw (e, segments-of_segments ss h)

-- Behind the text of the root a normal path leads down by its own segments, one for each separator:
-- none is empty, `.` or `..` or has a separator of either kind in it, so the text never leads out of
-- the root.
pub resolve_confined :
    (sep : ℕ) (b : LocalBackend) (p : VfsPath)
    → is_separator sep ≡ true
    → IsNormal p
    → (take (length b.root) (resolve sep b p) ≡ b.root)
      × (split is_separator (drop (length b.root) (resolve sep b p)) ≡ [] ∷ segments p)
      × All IsSegment (segments p)
unfolding resolve
resolve_confined sep b p e n = (
  take_front b.root (behind sep (segments p)),
  rw (drop-append b.root (behind sep (segments p)))
      (split-behind sep [] (segments p) e tt (segments-IsSegment p n)),
  segments-IsSegment p n,
)
  where
    take_front : (s t : Text) → take (length s) (s ++ t) ≡ s
    take_front s t =
        take-append_le (length s) s t (omega arith) ∙ take_all (length s) s (omega arith)

-- Two normal paths are resolved alike only if they are one.
pub resolve_injective :
    (sep : ℕ) (b : LocalBackend) (p q : VfsPath)
    → is_separator sep ≡ true
    → IsNormal p
    → IsNormal q
    → resolve sep b p ≡ resolve sep b q
    → p ≡ q
resolve_injective sep b p q e m n h =
    let u = (resolve_confined sep b p e m).1 in
    let v = (resolve_confined sep b q e n).1 in
    let same : segments p ≡ segments q =
      cc (sym u ∙ ap (λ t. split is_separator (drop (length b.root) t)) h ∙ v) in
    sym (of_segments-segments p m) ∙ ap of_segments same ∙ of_segments-segments q n
