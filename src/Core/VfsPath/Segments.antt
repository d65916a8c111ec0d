-- ===== src/Core/VfsPath/Segments.antt =====
-- A normal path is its segments, and a list of segments its path.
use std.Equiv.{IsEquiv, iso_to_equiv}
use mathlib.Core.HLevel.{Σ_prop_path}
use krystallos.Common.{List, [], ◌∷◌, ◌≡◌, ap, Text, All, false}
use krystallos.Core.Error.{ok}
use krystallos.Core.VfsPath.{VfsPath, is_separator, new, segments, of_segments}
use krystallos.Core.VfsPath.Split.{Free}
use krystallos.Core.VfsPath.Normal.{IsSegment, new-IsNormal, new-of_segments, segments-of_segments}

-- The paths that `new` gives back as they are.
abbrev pub NormalPath : Type 0
NormalPath = (p : VfsPath) × (new p.raw ≡ ok p)

abbrev pub SegmentList : Type 0
SegmentList = (ss : List Text) × All IsSegment ss

All-IsProp {ℓ} :
    {A : Type ℓ} (P : A → Type 0) → ((a : A) → IsProp (P a)) → (xs : List A) → IsProp (All P xs)
All-IsProp P h [] = hlevel
All-IsProp P h (x ∷ xs) = hlevel (h x, All-IsProp P h xs)

IsSegment-IsProp : (s : Text) → IsProp (IsSegment s)
IsSegment-IsProp s =
    let free : IsProp (Free is_separator s) =
      All-IsProp (λ c. is_separator c ≡ false) (λ c. hlevel) s in
    hlevel free

new-IsProp : (p : VfsPath) → IsProp (new p.raw ≡ ok p)
new-IsProp p = hlevel

pub segments-All : (p : VfsPath) → new p.raw ≡ ok p → All IsSegment (segments p)
segments-All p e =
    let n = new-IsNormal p.raw e in rw (n.whole, segments-of_segments n.parts n.each) n.each

abbrev pub segments_of : NormalPath → SegmentList
segments_of (p, e) = (segments p, segments-All p e)

abbrev path_of : SegmentList → NormalPath
path_of (ss, h) = (of_segments ss, new-of_segments ss h)

path_of-segments_of : (n : NormalPath) → path_of (segments_of n) ≡ n
path_of-segments_of (p, e) = Σ_prop_path new-IsProp (
    let n = new-IsNormal p.raw e in
    rw (n.whole) (ap of_segments (segments-of_segments n.parts n.each)))

segments_of-path_of : (l : SegmentList) → segments_of (path_of l) ≡ l
segments_of-path_of (ss, h) =
    Σ_prop_path (All-IsProp IsSegment IsSegment-IsProp) (segments-of_segments ss h)

-- `segments` is an equivalence between the paths that `new` gives back as they are and the lists of
-- segments: each list is that of a path, and of one only.
pub segments_of-IsEquiv : IsEquiv segments_of
segments_of-IsEquiv =
    (iso_to_equiv (record {
      fun = segments_of;
      inv = path_of;
      rinv = segments_of-path_of;
      linv = path_of-segments_of;
    })).1
