-- ===== src/Smb/Operations/Listing.antt =====
-- A listing of a directory of a share.
use mathlib.Core.List.{Perm}
use Prim.Native.Nat.{bit_and}
use krystallos.Common.{
  List, [], ◌∷◌, ◌≡◌, ◌⊎◌, refl, sym, member, inl, inr, Option, none, some, true, Bool-cases, Text,
  codes, text_eq, text_eq→eq, ◌<◌, ◌==◌, ℕ, not, arith,
}
use krystallos.Core.Error.{Result, ok, err}
use krystallos.Core.Entry.{Entry, EntryKind, file, directory, symlink, other}
use krystallos.Core.Entry.Sorting.{IsSorted, sort_entries-IsSorted, sort_entries-perm}
use krystallos.Core.VfsPath.{VfsPath}
use krystallos.Smb.Libsmb2.{Libsmb2, Dirent}
use krystallos.Smb.SmbPath.{to_smb_path, cstring}
use krystallos.Smb.Errors.{Errno}
use krystallos.Smb.Operations.{
  kind_of, metadata_from_stat, is_self_or_parent, read_entries, listed, list_dir,
}
use krystallos.Smb.Operations.Times.{Told, timestamp-Told}

-- The kinds by the numbers of the protocol.
abbrev pub IsKind : ℕ → EntryKind → Type 0
IsKind n file = n ≡ 0
IsKind n directory = n ≡ 1
IsKind n symlink = n ≡ 2
IsKind n other = 2 < n

-- An entry tells of what the server sent its name, its kind, its size and its times; it is read-only
-- where the lowest bit of the attributes is set.
pub record Shows (d : Dirent) (e : Entry) : Type 0 where
  pub name : e.name ≡ d.name
  pub kind : IsKind d.st.smb2_type e.metadata.kind
  pub len : e.metadata.len ≡ d.st.smb2_size
  pub modified : Told d.st.smb2_mtime d.st.smb2_mtime_nsec e.metadata.modified
  pub created : Told d.st.smb2_btime d.st.smb2_btime_nsec e.metadata.created
  pub accessed : Told d.st.smb2_atime d.st.smb2_atime_nsec e.metadata.accessed
  pub read_only : e.metadata.read_only ≡ not (bit_and d.st.smb2_attributes 1 == 0)

-- `.` or `..`.
abbrev pub IsDots : Text → Type 0
IsDots name = (name ≡ b'.' ∷ []) ⊎ (name ≡ b'.' ∷ b'.' ∷ [])

-- The entries tell, one by one, of what the server sent, less `.` and `..` and nothing else.
pub data Tells : List Dirent → List Entry → Type 0 where
  nothing : Tells [] []
  left_out :
      {d : Dirent} {ds : List Dirent} {es : List Entry}
      → IsDots d.name
      → Tells ds es
      → Tells (d ∷ ds) es
  shown :
      {d : Dirent} {e : Entry} {ds : List Dirent} {es : List Entry}
      → ¬ IsDots d.name
      → Shows d e
      → Tells ds es
      → Tells (d ∷ ds) (e ∷ es)

-- In the order of their names, each as often as it is told.
pub record ListingOf (sent : List Dirent) (es : List Entry) : Type 0 where
  pub sorted : IsSorted es
  pub told : List Entry
  pub tells : Tells sent told
  pub same : Perm es told

kind_of-IsKind : (n : ℕ) → IsKind n (kind_of n)
unfolding kind_of
kind_of-IsKind n = elim (Bool-cases (n == 1)) [
  | inl t ↦ rw t (ground (arith, t))
  | inr t ↦ elim (Bool-cases (n == 0)) [
    | inl s ↦ rw (t, s) (ground (arith, s))
    | inr s ↦ elim (Bool-cases (n == 2)) [
      | inl r ↦ rw (t, s, r) (ground (arith, r))
      | inr r ↦ rw (t, s, r) (ground (arith, t, s, r))
    ]
  ]
]

entry-Shows : (d : Dirent) → Shows d (record { name = d.name; metadata = metadata_from_stat d.st })
unfolding metadata_from_stat
entry-Shows d = record {
  name = refl;
  kind = kind_of-IsKind d.st.smb2_type;
  len = refl;
  modified = timestamp-Told d.st.smb2_mtime d.st.smb2_mtime_nsec;
  created = timestamp-Told d.st.smb2_btime d.st.smb2_btime_nsec;
  accessed = timestamp-Told d.st.smb2_atime d.st.smb2_atime_nsec;
  read_only = refl;
}

is_self_or_parent-IsDots : (name : Text) → is_self_or_parent name ≡ true → IsDots name
is_self_or_parent-IsDots name t = elim (Bool-cases (text_eq name (codes "."))) [
  | inl s ↦ inl (text_eq→eq name (codes ".") s)
  | inr s ↦ inr (text_eq→eq name (codes "..") (ground (arith, s, t)))
]

IsDots-is_self_or_parent : (name : Text) → IsDots name → is_self_or_parent name ≡ true
IsDots-is_self_or_parent name (inl e) = rw e refl
IsDots-is_self_or_parent name (inr e) = rw e refl

read_entries-Tells : (ds : List Dirent) → Tells ds (read_entries ds)
unfolding read_entries
read_entries-Tells [] = nothing
read_entries-Tells (d ∷ ds) = elim (Bool-cases (is_self_or_parent d.name)) [
  | inl t ↦ rw t (left_out (is_self_or_parent-IsDots d.name t) (read_entries-Tells ds))
  | inr t ↦ rw t (
      shown (λ e. let s = IsDots-is_self_or_parent d.name e in cc) (entry-Shows d)
        (read_entries-Tells ds))
]

abbrev pub Lists : {C : Type 0} → Libsmb2 C → C → Text → Result (List Entry) → Type 0
Lists f c s (err e) = (member 0 s ≡ true) ⊎ ((f.opendir c s).0 ≡ none)
Lists f c s (ok es) = (sent : List Dirent) × ((f.opendir c s).0 ≡ some sent) × ListingOf sent es

module _ {C : Type 0} (f : Libsmb2 C) (errno : Errno) (c : C) (path : VfsPath) where
  listed-Lists :
      (s : Text) (out : Option (List Dirent) × C)
      → out.0 ≡ (f.opendir c s).0
      → Lists f c s (listed f errno path out).0
  listed-Lists s (none, c') e = inr (sym e)
  listed-Lists s (some sent, c') e = (
    sent,
    sym e,
    record {
      sorted = sort_entries-IsSorted (read_entries sent);
      told = read_entries sent;
      tells = read_entries-Tells sent;
      same = sort_entries-perm (read_entries sent);
    },
  )

  -- `list_dir` answers with one entry for each that the server sent, less `.` and `..` and no other, in the
  -- order of their names; each has the name that was sent, the kind of its number, its size, and its read-only
  -- bit, and its three times, each left out exactly where its second is zero or past the year 3000. It fails
  -- exactly where the path has a NUL byte or `smb2_opendir` returns null.
  pub list_dir-Lists : Lists f c (to_smb_path path) (list_dir f errno c path).0
  unfolding list_dir cstring
  list_dir-Lists = elim (Bool-cases (member 0 (to_smb_path path))) [
    | inl t ↦ rw t (inl t)
    | inr t ↦ rw t (listed-Lists (to_smb_path path) (f.opendir c (to_smb_path path)) refl)
  ]
