-- ===== src/Core/VfsPath/Tests.antt =====
-- Paths that the tests of path.rs name.
use krystallos.Common.{
  List, [], ◌∷◌, ◌++◌, ◌≡◌, refl, Text, codes, All, some, ltb, if◌then◌else◌, null,
}
use krystallos.Core.Error.{ok, err, invalid_path}
use krystallos.Core.VfsPath.{
  VfsPath, new, join, parent, file_name, segments, of_segments, is_separator, split, escapes_reason,
  dotdot_reason, unchanged_reason, any_dotdot,
}
use krystallos.Core.VfsPath.Normal.{IsSegment, IsNormal, new-IsNormal}
use krystallos.Core.VfsPath.Escape.{surplus, survivors, new_lem}
use krystallos.Core.VfsPath.Join.{kept, join_lem}
use krystallos.Core.VfsPath.Parts.{join_child}

abbrev ab : List Text
ab = codes "a" ∷ codes "b" ∷ []

ab-All : All IsSegment ab
ab-All = (
  record { ordinary = refl; stays = refl; free = (refl, tt) },
  (record { ordinary = refl; stays = refl; free = (refl, tt) }, tt),
)

abbrev messy : Text
messy = codes "a/./c/..//b/"

new-messy : new messy ≡ ok (of_segments ab)
unfolding new
new-messy = refl

new-IsNormal_example : IsNormal (of_segments ab)
new-IsNormal_example = new-IsNormal messy new-messy

new_lem_example : new (codes "/a/../..") ≡ (
    if ltb 0 (surplus (split is_separator (codes "/a/../..")))
    then err (invalid_path (codes "/a/../..") escapes_reason)
    else ok (of_segments (survivors (split is_separator (codes "/a/../..")))))
new_lem_example = new_lem (codes "/a/../..")

escape : new (codes "/a/../..") ≡ err (invalid_path (codes "/a/../..") escapes_reason)
unfolding new
escape = refl

join_lem_example : join (of_segments ab) (codes "c/d") ≡ (
    if any_dotdot (split is_separator (codes "c/d"))
    then err (invalid_path (codes "c/d") dotdot_reason)
    else if null (kept (split is_separator (codes "c/d")))
    then err (invalid_path (codes "c/d") unchanged_reason)
    else ok (of_segments (ab ++ kept (split is_separator (codes "c/d")))))
join_lem_example = join_lem ab (codes "c/d") ab-All

join_child_example :
    (q : VfsPath) × (join (of_segments ab) (codes "c") ≡ ok q)
    × (parent q ≡ of_segments ab)
    × (file_name q ≡ some (codes "c"))
    × (segments q ≡ segments (of_segments ab) ++ codes "c" ∷ [])
join_child_example =
    join_child (of_segments ab) (codes "c") (record { parts = ab; each = ab-All; whole = refl })
      (record { ordinary = refl; stays = refl; free = (refl, tt) })
