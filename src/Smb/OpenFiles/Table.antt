-- ===== src/Smb/OpenFiles/Table.antt =====
-- Ids are fresh, and an operation on one handle leaves the others alone.
use krystallos.Common.{
  ℕ, ◌+◌, ◌≤◌, ◌<◌, List, [], ◌∷◌, ◌≡◌, ◌≢◌, refl, none, some, inl, inr, ◌==◌, if◌then◌else◌, All,
  arith, u64_mod, add_u64_exact, Bool-cases,
}
use krystallos.Smb.OpenFiles.{OpenFiles, lookup, put, remove, insert, get, take}

-- No two entries share an id, and ids were handed out by the counter.
abbrev pub Absent : ℕ → List (ℕ × ℕ) → Type 0
Absent k = All (λ (e : ℕ × ℕ). e.0 ≢ k)

abbrev pub Distinct : List (ℕ × ℕ) → Type 0
Distinct [] = Unit
Distinct (e ∷ m) = Absent e.0 m × Distinct m

abbrev pub Below : ℕ → List (ℕ × ℕ) → Type 0
Below n = All (λ (e : ℕ × ℕ). e.0 ≤ n)

pub record IsTable (files : OpenFiles) : Type 0 where
  pub distinct : Distinct files.handles
  pub below : Below files.next_id files.handles

pub lookup-put :
    (k j v : ℕ) (m : List (ℕ × ℕ)) → lookup j (put k v m) ≡ (if k == j then some v else lookup j m)
unfolding lookup put
lookup-put k j v [] = refl
lookup-put k j v ((i, w) ∷ m) = ground (arith, lookup-put k j v m)

lookup-Absent : (k : ℕ) (m : List (ℕ × ℕ)) → Absent k m → lookup k m ≡ none
unfolding lookup
lookup-Absent k [] h = refl
lookup-Absent k ((i, w) ∷ m) h = ground (arith, lookup-Absent k m h.1, h.0)

pub lookup-remove :
    (k j : ℕ) (m : List (ℕ × ℕ))
    → Distinct m
    → lookup j (remove k m) ≡ (if k == j then none else lookup j m)
unfolding lookup remove
lookup-remove k j [] d = ground arith
lookup-remove k j ((i, w) ∷ m) d = ground (arith, lookup-remove k j m d.1, lookup-Absent i m d.0)

Below-Absent : (n k : ℕ) (m : List (ℕ × ℕ)) → Below n m → n < k → Absent k m
Below-Absent n k [] h lt = tt
Below-Absent n k (e ∷ m) h lt = (λ p. omega (arith, h.0), Below-Absent n k m h.1 lt)

Below-mono : (n k : ℕ) (m : List (ℕ × ℕ)) → Below n m → n ≤ k → Below k m
Below-mono n k [] h le = tt
Below-mono n k (e ∷ m) h le = (omega (arith, h.0), Below-mono n k m h.1 le)

put-Below : (n k v : ℕ) (m : List (ℕ × ℕ)) → k ≤ n → Below n m → Below n (put k v m)
unfolding put
put-Below n k v [] le h = (le, tt)
put-Below n k v ((i, w) ∷ m) le h = elim (Bool-cases (i == k)) [
  | inl e ↦ rw e (le, h.1)
  | inr e ↦ rw e (h.0, put-Below n k v m le h.1)
]

put-Absent : (k j v : ℕ) (m : List (ℕ × ℕ)) → k ≢ j → Absent j m → Absent j (put k v m)
unfolding put
put-Absent k j v [] ne h = (ne, tt)
put-Absent k j v ((i, w) ∷ m) ne h = elim (Bool-cases (i == k)) [
  | inl e ↦ rw e (ne, h.1)
  | inr e ↦ rw e (h.0, put-Absent k j v m ne h.1)
]

put-Distinct : (k v : ℕ) (m : List (ℕ × ℕ)) → Distinct m → Distinct (put k v m)
unfolding put
put-Distinct k v [] d = (tt, tt)
put-Distinct k v ((i, w) ∷ m) d = elim (Bool-cases (i == k)) [
  | inl e ↦ rw e (let p : i ≡ k = ground (arith, e) in rw p at d.0, d.1)
  | inr e ↦ rw e (put-Absent k i v m (ground (arith, e)) d.0, put-Distinct k v m d.1)
]

remove-All : (P : ℕ × ℕ → Type 0) (k : ℕ) (m : List (ℕ × ℕ)) → All P m → All P (remove k m)
unfolding remove
remove-All P k [] h = tt
remove-All P k (e ∷ m) h = elim (Bool-cases (e.0 == k)) [
  | inl t ↦ rw t h.1
  | inr t ↦ rw t (h.0, remove-All P k m h.1)
]

remove-Distinct : (k : ℕ) (m : List (ℕ × ℕ)) → Distinct m → Distinct (remove k m)
unfolding remove
remove-Distinct k [] d = tt
remove-Distinct k (e ∷ m) d = elim (Bool-cases (e.0 == k)) [
  | inl t ↦ rw t d.1
  | inr t ↦ rw t (remove-All (λ (f : ℕ × ℕ). f.0 ≢ e.0) k m d.0, remove-Distinct k m d.1)
]

-- Until the counter wraps, `insert` hands out an id that no open handle has, the handle is found
-- under it, every other id keeps its handle, and the table stays well formed.
pub insert_fresh :
    (files : OpenFiles) (handle : ℕ)
    → IsTable files
    → files.next_id + 1 < u64_mod
    → let (id, files') = insert files handle in
      (get files id ≡ none)
      × ((j : ℕ) → get files' j ≡ (if id == j then some handle else get files j))
      × IsTable files'
unfolding insert get
insert_fresh files handle t room =
    let e = add_u64_exact files.next_id 1 room in
    rw e (
      lookup-Absent (files.next_id + 1) files.handles
          (Below-Absent files.next_id (files.next_id + 1) files.handles t.below (omega arith)),
      λ j. lookup-put (files.next_id + 1) j handle files.handles,
      record {
        distinct = put-Distinct (files.next_id + 1) handle files.handles t.distinct;
        below =
            put-Below (files.next_id + 1) (files.next_id + 1) handle files.handles (omega arith)
              (Below-mono files.next_id (files.next_id + 1) files.handles t.below (omega arith));
      },
    )

-- `take` returns the handle and forgets it, exactly once: the id is gone, every other id keeps its
-- handle, and the table stays well formed.
pub take_lem :
    (files : OpenFiles) (id : ℕ)
    → IsTable files
    → let (handle, files') = take files id in
      (handle ≡ get files id)
      × ((j : ℕ) → get files' j ≡ (if id == j then none else get files j))
      × IsTable files'
unfolding take get
take_lem files id t = (
  refl,
  λ j. lookup-remove id j files.handles t.distinct,
  record {
    distinct = remove-Distinct id files.handles t.distinct;
    below = remove-All (λ (e : ℕ × ℕ). e.0 ≤ files.next_id) id files.handles t.below;
  },
)
