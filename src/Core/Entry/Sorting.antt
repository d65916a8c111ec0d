-- ===== src/Core/Entry/Sorting.antt =====
-- `entries.sort_by(|a, b| a.name.cmp(&b.name))`, with which both backends end a listing.
use mathlib.Core.List.{Perm}
use mathlib.Core.List.Perm
use krystallos.Common.{
  List, [], ◌∷◌, ◌≡◌, refl, inl, inr, Bool, true, false, ltb, ◌==◌, if◌then◌else◌, Text, Bool-cases,
  arith,
}
use krystallos.Core.Entry.{Entry}

-- The bytes of two texts in order, as `str::cmp` compares them.
unfoldable pub text_leb : Text → Text → Bool
text_leb [] t = true
text_leb (c ∷ s) [] = false
text_leb (c ∷ s) (d ∷ t) =
    let rest = text_leb s t in if ltb c d then true else if c == d then rest else false

unfoldable pub insert_entry : Entry → List Entry → List Entry
insert_entry e [] = e ∷ []
insert_entry e (f ∷ fs) =
    let rest = insert_entry e fs in if text_leb e.name f.name then e ∷ f ∷ fs else f ∷ rest

-- `sort_by`, which is stable.
unfoldable pub sort_entries : List Entry → List Entry
sort_entries [] = []
sort_entries (e ∷ es) = insert_entry e (sort_entries es)

-- The name stands no later than that of the first entry.
abbrev pub Leads : Text → List Entry → Type 0
Leads name [] = Unit
Leads name (f ∷ es) = text_leb name f.name ≡ true

-- Each entry's name stands no later than that of the next.
abbrev pub IsSorted : List Entry → Type 0
IsSorted [] = Unit
IsSorted (e ∷ es) = Leads e.name es × IsSorted es

text_leb_total : (s t : Text) → text_leb s t ≡ false → text_leb t s ≡ true
unfolding text_leb
text_leb_total [] t h = cc
text_leb_total (c ∷ s) [] h = refl
text_leb_total (c ∷ s) (d ∷ t) h = ground (arith, text_leb_total s t)

insert_entry-Leads :
    (name : Text) (e : Entry) (es : List Entry)
    → text_leb name e.name ≡ true
    → Leads name es
    → Leads name (insert_entry e es)
unfolding insert_entry
insert_entry-Leads name e [] t h = t
insert_entry-Leads name e (f ∷ es) t h = elim (Bool-cases (text_leb e.name f.name)) [
  | inl u ↦ rw u t
  | inr u ↦ rw u h
]

insert_entry-IsSorted : (e : Entry) (es : List Entry) → IsSorted es → IsSorted (insert_entry e es)
unfolding insert_entry
insert_entry-IsSorted e [] h = (tt, tt)
insert_entry-IsSorted e (f ∷ es) h = elim (Bool-cases (text_leb e.name f.name)) [
  | inl t ↦ rw t (t, h)
  | inr t ↦ rw t (
    insert_entry-Leads f.name e es (text_leb_total e.name f.name t) h.0,
    insert_entry-IsSorted e es h.1,
  )
]

pub sort_entries-IsSorted : (es : List Entry) → IsSorted (sort_entries es)
unfolding sort_entries
sort_entries-IsSorted [] = tt
sort_entries-IsSorted (e ∷ es) =
    insert_entry-IsSorted e (sort_entries es) (sort_entries-IsSorted es)

insert_entry-perm : (e : Entry) (es : List Entry) → Perm (insert_entry e es) (e ∷ es)
unfolding insert_entry
insert_entry-perm e [] = Perm.refl (e ∷ [])
insert_entry-perm e (f ∷ es) = elim (Bool-cases (text_leb e.name f.name)) [
  | inl t ↦ rw t (Perm.refl (e ∷ f ∷ es))
  | inr t ↦ rw t (Perm.trans (Perm.cons f (insert_entry-perm e es)) (Perm.swap e f es))
]

pub sort_entries-perm : (es : List Entry) → Perm (sort_entries es) es
unfolding sort_entries
sort_entries-perm [] = Perm.refl []
sort_entries-perm (e ∷ es) =
    Perm.trans (insert_entry-perm e (sort_entries es)) (Perm.cons e (sort_entries-perm es))
