-- ===== src/Smb/SmbPath.antt =====
-- crates/krystallos-smb/src/path.rs: paths as libsmb2 wants them.
use krystallos.Common.{List, [], ◌∷◌, ◌++◌, ◌≡◌, ◌==◌, if◌then◌else◌, Text, codes, All, member}
use krystallos.Core.Error.{Result, ok, err, invalid_path}
use krystallos.Core.VfsPath.{VfsPath, render, of_segments, new, segments}
use krystallos.Core.VfsPath.Normal.{
  IsSegment, IsNormal, segments-of_segments, new-relative, new-nil,
}

-- `collect::<Vec<_>>().join("/")`.
abbrev pub join_words : List Text → Text
join_words [] = []
join_words (s ∷ ss) = s ++ render ss

unfoldable pub to_smb_path : VfsPath → Text
to_smb_path p = join_words (segments p)

-- `s.replace('\0', "\\0")`.
abbrev pub show_nul : Text → Text
show_nul [] = []
show_nul (c ∷ s) = let rest = show_nul s in if c == 0 then 0x5c ∷ b'0' ∷ rest else c ∷ rest

abbrev pub nul_reason : Text
nul_reason = codes "contains an interior NUL byte"

-- `CString::new` fails exactly on a NUL byte.
unfoldable pub cstring : Text → Result Text
cstring s = if member 0 s then err (invalid_path (show_nul s) nul_reason) else ok s

new-join_words : (ss : List Text) → All IsSegment ss → new (join_words ss) ≡ ok (of_segments ss)
new-join_words [] h = new-nil
new-join_words (s ∷ ss) h = new-relative s ss h

-- The path sent to libsmb2 loses nothing: normalising it gives the path back, so two normal paths
-- are sent alike only if they are one.
pub new-to_smb_path : (p : VfsPath) → IsNormal p → new (to_smb_path p) ≡ ok p
unfolding to_smb_path
new-to_smb_path p n = of_parts n.parts n.each n.whole
  where
    of_parts :
        (ss : List Text)
        → All IsSegment ss
        → p ≡ of_segments ss
        → new (join_words (segments p)) ≡ ok p
    of_parts ss h e = rw (e, segments-of_segments ss h) (new-join_words ss h)
