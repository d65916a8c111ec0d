-- ===== src/Core/Endpoint.antt =====
-- crates/krystallos-core/src/registry.rs: `Endpoint`, a URI cut into its scheme and what follows.
pub mod Parse
use krystallos.Common.{
  ℕ, ◌+◌, List, [], ◌∷◌, ◌++◌, Option, none, some, Bool, true, false, not, ◌&&◌, ◌||◌, ◌==◌, leb,
  if◌then◌else◌, Text, codes, starts_with, drop, length, null,
}
use krystallos.Core.Error.{Result, ok, err, invalid_path}

pub record Endpoint : Type 0 where
  pub scheme : Text
  pub authority_and_path : Text
  pub raw : Text

-- `str::split_once`, at the first place where the pattern stands; no pattern of the callers is empty.
abbrev pub longer : ℕ → Option (Text × Text) → Option (Text × Text)
longer c none = none
longer c (some (before, behind)) = some (c ∷ before, behind)

unfoldable pub split_once : Text → Text → Option (Text × Text)
split_once pattern [] = none
split_once pattern (c ∷ s) =
    let later = longer c (split_once pattern s) in
    if starts_with pattern (c ∷ s) then some ([], drop (length pattern) (c ∷ s)) else later

-- `char::is_ascii_alphanumeric`, or one of `+`, `-`, `.`. A character that is not ASCII has bytes
-- from 0x80 on only, and so is refused here too.
abbrev pub is_scheme_byte : ℕ → Bool
is_scheme_byte c =
    (leb b'a' c && leb c b'z')
    || (leb b'A' c && leb c b'Z')
    || (leb b'0' c && leb c b'9')
    || c == b'+'
    || c == b'-'
    || c == b'.'

unfoldable pub every : (ℕ → Bool) → Text → Bool
every test [] = true
every test (c ∷ s) = test c && every test s

-- `to_ascii_lowercase`.
abbrev pub lower_byte : ℕ → ℕ
lower_byte c = if leb b'A' c && leb c b'Z' then c + 32 else c

unfoldable pub to_lower : Text → Text
to_lower [] = []
to_lower (c ∷ s) = lower_byte c ∷ to_lower s

abbrev pub separator : Text
separator = codes "://"

abbrev pub missing_reason : Text
missing_reason = codes "endpoint is missing a `scheme://` prefix"

abbrev pub empty_reason : Text
empty_reason = codes "endpoint has an empty scheme"

abbrev pub invalid_reason : Text → Text
invalid_reason scheme = codes "`" ++ (scheme ++ codes "` is not a valid URI scheme")

pub of_parts : Text → Option (Text × Text) → Result Endpoint
unfolding every
of_parts uri none = err (invalid_path uri missing_reason)
of_parts uri (some (scheme, rest)) =
    if null scheme
    then err (invalid_path uri empty_reason)
    else if not (every is_scheme_byte scheme)
    then err (invalid_path uri (invalid_reason scheme))
    else ok (record { scheme = to_lower scheme; authority_and_path = rest; raw = uri })

pub parse : Text → Result Endpoint
parse uri = of_parts uri (split_once separator uri)
