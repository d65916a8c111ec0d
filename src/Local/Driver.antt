-- ===== src/Local/Driver.antt =====
-- crates/krystallos-local/src/driver.rs: `file://` endpoints, and the root that they name.
pub mod Uri
use krystallos.Common.{
  ℕ, List, [], ◌∷◌, ◌++◌, Bool, true, false, ◌&&◌, ◌||◌, ◌==◌, leb, if◌then◌else◌, Text, codes,
  null,
}
use krystallos.Core.Error.{Error, Result, ok, err, invalid_path}

abbrev pub is_letter : ℕ → Bool
is_letter c = (leb b'a' c && leb c b'z') || (leb b'A' c && leb c b'Z')

-- `/`, an ASCII letter and `:` in front.
unfoldable pub looks_like_drive_path : Text → Bool
looks_like_drive_path (a ∷ b ∷ c ∷ s) = a == b'/' && is_letter b && c == b':'
looks_like_drive_path _ = false

abbrev pub no_directory_reason : Text
no_directory_reason = codes "a `file://` endpoint must name a directory, e.g. `file:///D:/media`"

abbrev pub without_first : Text → Text
without_first [] = []
without_first (c ∷ s) = s

-- `windows` is `cfg!(windows)`.
unfoldable pub parse_root : Bool → Text → Result Text
unfolding looks_like_drive_path
parse_root windows rest =
    if null rest
    then err (invalid_path (codes "file://") no_directory_reason)
    else if windows && looks_like_drive_path rest
    then ok (without_first rest)
    else ok rest

-- `replace('\\', "/")`.
unfoldable pub forward : Text → Text
forward [] = []
forward (c ∷ s) = (if c == 0x5c then b'/' else c) ∷ forward s

abbrev pub is_absolute : Text → Bool
is_absolute [] = false
is_absolute (c ∷ s) = c == b'/'

unfoldable pub uri_for : Text → Text
unfolding forward
uri_for root =
    let s = forward root in if is_absolute s then codes "file://" ++ s else codes "file:///" ++ s
