-- ===== src/Local/Backend/Listing.antt =====
-- A listing of a local directory.
use mathlib.Core.List.{Perm}
use krystallos.Common.{
  ℕ, List, [], ◌∷◌, ◌++◌, ◌≡◌, refl, sym, ap, ◌∙◌, Option, none, some, Text, append_assoc,
  append-nil,
}
use krystallos.Core.Error.{Result, ok, err}
use krystallos.Core.Entry.{Entry}
use krystallos.Core.Entry.Sorting.{sort_entries, IsSorted, sort_entries-IsSorted, sort_entries-perm}
use krystallos.Core.VfsPath.{VfsPath}
use krystallos.Core.Run.{after}
use krystallos.Local.Files.{IoError, Io, done, failed, FileMetadata, FileSystem}
use krystallos.Local.Backend.{
  LocalBackend, map_io, mapped, to_metadata, looked, resolve, read_items, sorted, list_entries,
}

-- The first item of a directory that the iterator fails at.
abbrev pub first_failure : List (Io (Text × Text)) → Option IoError
first_failure [] = none
first_failure (failed e ∷ rest) = some e
first_failure (done item ∷ rest) = first_failure rest

abbrev pub entry_of : Text → Io FileMetadata → List Entry
entry_of name (done m) = record { name = name; metadata = to_metadata m } ∷ []
entry_of name (failed e) = []

-- The items whose own metadata, not that of what they link to, can be had.
abbrev pub seen : {W : Type 0} → FileSystem W → W → List (Io (Text × Text)) → List Entry
seen fs w [] = []
seen fs w (failed e ∷ rest) = seen fs w rest
seen fs w (done (name, path) ∷ rest) =
    entry_of name (fs.symlink_metadata path w).0 ++ seen fs w rest

abbrev finished : VfsPath → Option IoError → List Entry → Result (List Entry)
finished p none es = ok es
finished p (some e) es = err (map_io p e)

-- What a listing of a directory answers: the failure of `read_dir` or of its iterator, or what is seen of
-- the items, each once and in the order of the names.
abbrev pub ListedItems :
    {W : Type 0}
    → FileSystem W
    → VfsPath
    → W
    → List (Io (Text × Text))
    → Option IoError
    → Result (List Entry)
    → Type 0
ListedItems fs p w items (some e) out = out ≡ err (map_io p e)
ListedItems fs p w items none out =
    (es : List Entry) × (out ≡ ok es) × IsSorted es × Perm es (seen fs w items)

abbrev pub Listed :
    {W : Type 0}
    → FileSystem W
    → VfsPath
    → Io (List (Io (Text × Text))) × W
    → Result (List Entry)
    → Type 0
Listed fs p (failed e, w) out = out ≡ err (map_io p e)
Listed fs p (done items, w) out = ListedItems fs p w items (first_failure items) out

module _ {W : Type 0} (fs : FileSystem W)
    (quiet : (path : Text) (w : W) → (fs.symlink_metadata path w).1 ≡ w) (p : VfsPath) where
  looked_lem :
      (again : List Entry → W → Result (List Entry) × W) (out : List Entry) (name : Text)
      (answer : Io FileMetadata × W)
      → looked fs again out name answer ≡ again (out ++ entry_of name answer.0) answer.1
  looked_lem again out name (done m, w) = refl
  looked_lem again out name (failed e, w) = ap (λ l. again l w) (sym (append-nil out))

  read_items_lem :
      (items : List (Io (Text × Text))) (out : List Entry) (w : W)
      → read_items fs p items out w ≡ (finished p (first_failure items) (out ++ seen fs w items), w)
  unfolding read_items
  read_items_lem [] out w = ap (λ l. (ok l, w)) (sym (append-nil out))
  read_items_lem (failed e ∷ rest) out w = refl
  read_items_lem (done (name, path) ∷ rest) out w =
      let answer = fs.symlink_metadata path w in
      looked_lem (read_items fs p rest) out name answer
      ∙ ap (λ v. read_items fs p rest (out ++ entry_of name answer.0) v) (quiet path w)
      ∙ read_items_lem rest (out ++ entry_of name answer.0) w
      ∙ ap (λ l. (finished p (first_failure rest) l, w))
          (append_assoc out (entry_of name answer.0) (seen fs w rest))

  finished-Listed :
      (items : List (Io (Text × Text))) (w : W) (failure : Option IoError)
      → ListedItems fs p w items failure
          (after (sorted fs) (finished p failure (seen fs w items), w)).0
  finished-Listed items w (some e) = refl
  finished-Listed items w none = (
    sort_entries (seen fs w items),
    refl,
    sort_entries-IsSorted (seen fs w items),
    sort_entries-perm (seen fs w items),
  )

  answered-Listed :
      (answer : Io (List (Io (Text × Text))) × W)
      → Listed fs p answer
          (after
            (λ items. λ w. after (sorted fs) (read_items fs p items [] w))
            (mapped (map_io p) answer)).0
  answered-Listed (failed e, w) = refl
  answered-Listed (done items, w) =
      rw (read_items_lem items [] w) (finished-Listed items w (first_failure items))

-- A listing of the local backend fails exactly where `read_dir` or its iterator does, as that failure
-- of the path; otherwise it has each item once whose own metadata can be had, with that metadata, in the
-- order of the names. To ask for metadata changes nothing.
pub list_entries-Listed :
    {W : Type 0} (fs : FileSystem W)
    → ((path : Text) (w : W) → (fs.symlink_metadata path w).1 ≡ w)
    → (separator : ℕ) (b : LocalBackend) (p : VfsPath) (w : W)
    → Listed fs p (fs.read_dir (resolve separator b p) w) (list_entries fs separator b p w).0
unfolding list_entries
list_entries-Listed fs quiet separator b p w =
    answered-Listed fs quiet p (fs.read_dir (resolve separator b p) w)
