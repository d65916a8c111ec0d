-- ===== src/Local/Tests.antt =====
-- A root, a path below it, and a directory there.
use krystallos.Common.{
  ℕ, List, none, true, [], ◌∷◌, ◌≡◌, refl, false, Text, codes, All, length, take, drop,
}
use krystallos.Core.Error.{ok}
use krystallos.Core.VfsPath.{VfsPath, is_separator, split, segments, of_segments}
use krystallos.Core.VfsPath.Normal.{IsSegment, IsNormal}
use krystallos.Local.Backend.{LocalBackend, backend_at, resolve, list_entries}
use krystallos.Local.Files.{Io, done, failed, permission_denied, FileMetadata, FileSystem}
use krystallos.Local.Backend.Listing.{Listed, list_entries-Listed}
use krystallos.Local.Backend.Resolve.{resolve_confined}
use krystallos.Local.Driver.{uri_for}
use krystallos.Local.Driver.Uri.{root_of, root_of-uri_for}

abbrev srv : Text
srv = codes "/srv"

abbrev a_root : LocalBackend
a_root = backend_at srv

abbrev a_path : VfsPath
a_path = of_segments (codes "a" ∷ codes "b" ∷ [])

a_path-IsNormal : IsNormal a_path
a_path-IsNormal = record {
  parts = codes "a" ∷ codes "b" ∷ [];
  each = (
    record { ordinary = refl; stays = refl; free = (refl, tt) },
    (record { ordinary = refl; stays = refl; free = (refl, tt) }, tt),
  );
  whole = refl;
}

resolve_confined_example :
    (take (length a_root.root) (resolve b'/' a_root a_path) ≡ a_root.root)
    × (split is_separator (drop (length a_root.root) (resolve b'/' a_root a_path))
        ≡ [] ∷ segments a_path)
    × All IsSegment (segments a_path)
resolve_confined_example = resolve_confined b'/' a_root a_path refl a_path-IsNormal

root_of-uri_for_example : root_of false (uri_for srv) ≡ ok srv
root_of-uri_for_example = root_of-uri_for srv refl (refl, (refl, (refl, (refl, tt))))

-- A file system of one directory, where the metadata of one of its items cannot be had.
abbrev an_item : FileMetadata
an_item = record {
  is_symlink = false;
  is_dir = false;
  is_file = true;
  len = 5;
  modified = none;
  created = none;
  accessed = none;
  read_only = false;
}

abbrev own_metadata : Text → ℕ → Io FileMetadata × ℕ
own_metadata [] w = (failed permission_denied, w)
own_metadata (c ∷ s) w = (done an_item, w)

abbrev items : List (Io (Text × Text))
items =
    done (codes "b", codes "/srv/b")
    ∷ done (codes "gone", [])
    ∷ done (codes "a", codes "/srv/a")
    ∷ []

abbrev files : FileSystem ℕ
files = record {
  canonicalize = λ path w. (done path, w);
  metadata = λ path w. (done an_item, w);
  symlink_metadata = own_metadata;
  read_dir = λ path w. (done items, w);
  open_with = λ options path w. (done 3, w);
  file_metadata = λ f w. (done an_item, w);
  drop_file = λ f w. w;
  remove_file = λ path w. (failed permission_denied, w);
  remove_dir = λ path w. (failed permission_denied, w);
  rename = λ from to w. (failed permission_denied, w);
  create_dir = λ path w. (failed permission_denied, w);
  copy_bytes = λ from to w. (done 0, w);
  pread = λ f n offset w. (done [], w);
  pwrite = λ f bytes offset w. (done 0, w);
  file_set_len = λ f n w. (done tt, w);
  sync_all = λ f w. (done tt, w);
}

own_metadata-quiet : (path : Text) (w : ℕ) → (own_metadata path w).1 ≡ w
own_metadata-quiet [] w = refl
own_metadata-quiet (c ∷ s) w = refl

list_entries-Listed_example :
    Listed files a_path
      (files.read_dir (resolve b'/' a_root a_path) 0)
      (list_entries files b'/' a_root a_path 0).0
list_entries-Listed_example = list_entries-Listed files own_metadata-quiet b'/' a_root a_path 0
