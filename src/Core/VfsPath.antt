-- ===== src/Core/VfsPath.antt =====
-- crates/krystallos-core/src/path.rs: normalised absolute paths. A `&str` is the list of its bytes;
-- the separators are ASCII, so splitting bytes is splitting characters.
pub mod Split
pub mod Normal
pub mod Segments
pub mod Escape
pub mod Join
pub mod Parts
mod Tests
use krystallos.Common.{
  ℕ, zero, suc, List, [], ◌∷◌, ◌++◌, Option, none, some, Bool, true, false, ◌&&◌, ◌||◌, Text, codes,
  text_eq, ◌==◌, if◌then◌else◌, take, null,
}
use krystallos.Core.Error.{Result, ok, err, ◌>>=◌, Error, invalid_path}

pub record VfsPath : Type 0 where
  pub raw : Text

abbrev pub slash : ℕ
slash = b'/'

abbrev pub is_slash : ℕ → Bool
is_slash c = c == b'/'

-- Either separator that `new` accepts: `/` or a backslash.
abbrev pub is_separator : ℕ → Bool
is_separator c = c == b'/' || c == 0x5c

abbrev pub dot : Text
dot = b'.' ∷ []

abbrev pub dotdot : Text
dotdot = b'.' ∷ b'.' ∷ []

abbrev pub escapes_reason : Text
escapes_reason = codes "path escapes the backend root"

abbrev pub dotdot_reason : Text
dotdot_reason =
    codes
      "`..` is not allowed in a joined name; build the full path with VfsPath::new if you mean to traverse upward"

abbrev pub unchanged_reason : Text
unchanged_reason = codes "joining this name does not change the path"

-- `str::split`: one more word than there are separators.
abbrev pub push_front : ℕ → List Text → List Text
push_front c [] = (c ∷ []) ∷ []
push_front c (w ∷ ws) = (c ∷ w) ∷ ws

pub split : (ℕ → Bool) → Text → List Text
split is_sep [] = [] ∷ []
split is_sep (c ∷ s) =
    let rest = split is_sep s in if is_sep c then [] ∷ rest else push_front c rest

-- `Vec::pop`, with the vector that it leaves.
pub but_last : Text → List Text → List Text
but_last s [] = []
but_last s (t ∷ ts) = s ∷ but_last t ts

pub pop : List Text → Option (List Text)
unfolding but_last
pop [] = none
pop (s ∷ ss) = some (but_last s ss)

abbrev pub is_skipped : Text → Bool
is_skipped s = text_eq s [] || text_eq s dot

pub pop_or_escape : Text → Option (List Text) → Result (List Text)
pop_or_escape raw none = err (invalid_path raw escapes_reason)
pop_or_escape raw (some popped) = ok popped

-- One round of the loop in `VfsPath::new`: the `match segment`.
pub step : Text → List Text → Text → Result (List Text)
unfolding pop_or_escape pop
step raw segments s =
    if is_skipped s
    then ok segments
    else if text_eq s dotdot
    then pop_or_escape raw (pop segments)
    else ok (segments ++ s ∷ [])

pub collect : Text → List Text → List Text → Result (List Text)
unfolding step
collect raw segments [] = ok segments
collect raw segments (s ∷ rest) = step raw segments s >>= λ next. collect raw next rest

-- The loop that builds `out`.
abbrev pub render : List Text → Text
render [] = []
render (s ∷ ss) = slash ∷ (s ++ render ss)

abbrev pub root : VfsPath
root = record { raw = slash ∷ [] }

abbrev pub of_segments : List Text → VfsPath
of_segments [] = root
of_segments (s ∷ ss) = record { raw = render (s ∷ ss) }

pub new : Text → Result VfsPath
unfolding collect split
new raw = collect raw [] (split is_separator raw) >>= λ segments. ok (of_segments segments)

abbrev pub is_root : VfsPath → Bool
is_root p = elim p.raw [ [] ↦ false | c ∷ s ↦ text_eq s [] ]

abbrev pub drop_empty : List Text → List Text
drop_empty [] = []
drop_empty ([] ∷ ws) = drop_empty ws
drop_empty ((c ∷ w) ∷ ws) = (c ∷ w) ∷ drop_empty ws

pub segments : VfsPath → List Text
unfolding split
segments p = drop_empty (split is_slash p.raw)

-- The last word of a split, which is never empty.
abbrev pub last_word : Text → List Text → Text
last_word w [] = w
last_word w (v ∷ vs) = last_word v vs

-- `rsplit('/').next()`.
abbrev pub rsplit_next : List Text → Option Text
rsplit_next [] = none
rsplit_next (w ∷ ws) = some (last_word w ws)

pub file_name : VfsPath → Option Text
unfolding split
file_name p = if is_root p then none else rsplit_next (split is_slash p.raw)

pub rfind : ℕ → Text → Option ℕ
rfind c [] = none
rfind c (d ∷ s) = elim (rfind c s) [
  | some i ↦ some (suc i)
  | none ↦ if d == c then some 0 else none
]

abbrev pub cut_at : Text → Option ℕ → VfsPath
cut_at s none = root
cut_at s (some zero) = root
cut_at s (some (suc i)) = record { raw = take (suc i) s }

pub parent : VfsPath → VfsPath
unfolding rfind
parent p = if is_root p then root else cut_at p.raw (rfind slash p.raw)

pub any_dotdot : List Text → Bool
any_dotdot [] = false
any_dotdot (w ∷ ws) = text_eq w dotdot || any_dotdot ws

abbrev pub ends_with_slash : Text → Bool
ends_with_slash [] = false
ends_with_slash (c ∷ []) = is_slash c
ends_with_slash (c ∷ d ∷ s) = ends_with_slash (d ∷ s)

-- `out` of `join`: the path, a separator unless it ends in one, and the name.
abbrev pub joined_text : Text → Text → Text
joined_text raw name = if ends_with_slash raw then raw ++ name else raw ++ slash ∷ name

pub join : VfsPath → Text → Result VfsPath
unfolding any_dotdot split new
join p name =
    if any_dotdot (split is_separator name)
    then err (invalid_path name dotdot_reason)
    else new (joined_text p.raw name) >>= λ joined.
        if text_eq joined.raw p.raw then err (invalid_path name unchanged_reason) else ok joined

-- `trim_end_matches('/')`.
pub trim_end_slashes : Text → Text
trim_end_slashes [] = []
trim_end_slashes (c ∷ s) =
    let rest = trim_end_slashes s in if is_slash c && null rest then [] else c ∷ rest

pub to_uri : VfsPath → Text → Text
unfolding trim_end_slashes
to_uri p endpoint = trim_end_slashes endpoint ++ p.raw
