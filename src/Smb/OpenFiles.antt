-- ===== src/Smb/OpenFiles.antt =====
-- crates/krystallos-smb/src/actor.rs: the open-file table. A `HashMap` is an association list, and a
-- `smb2fh` pointer is a number.
pub mod Table
use krystallos.Common.{
  ℕ, List, [], ◌∷◌, Option, none, some, Bool, true, false, ◌==◌, if◌then◌else◌, map, add_u64,
}

module _ {ℓ} {V : Type ℓ} where
  unfoldable pub lookup : ℕ → List (ℕ × V) → Option V
  lookup k [] = none
  lookup k ((j, v) ∷ m) = let rest = lookup k m in if j == k then some v else rest

  unfoldable pub put : ℕ → V → List (ℕ × V) → List (ℕ × V)
  put k v [] = (k, v) ∷ []
  put k v ((j, w) ∷ m) = let rest = put k v m in if j == k then (k, v) ∷ m else (j, w) ∷ rest

  unfoldable pub remove : ℕ → List (ℕ × V) → List (ℕ × V)
  remove k [] = []
  remove k ((j, w) ∷ m) = let rest = remove k m in if j == k then m else (j, w) ∷ rest

pub record OpenFiles : Type 0 where
  pub handles : List (ℕ × ℕ)
  pub next_id : ℕ

abbrev pub no_files : OpenFiles
no_files = record { handles = []; next_id = 0 }

unfoldable pub insert : OpenFiles → ℕ → ℕ × OpenFiles
insert files handle =
    let id = add_u64 files.next_id 1 in
    (id, record files { handles = put id handle files.handles; next_id = id })

unfoldable pub get : OpenFiles → ℕ → Option ℕ
get files id = lookup id files.handles

-- `HashMap::remove`: the handle, and the table without it.
unfoldable pub take : OpenFiles → ℕ → Option ℕ × OpenFiles
take files id = (lookup id files.handles, record files { handles = remove id files.handles })
