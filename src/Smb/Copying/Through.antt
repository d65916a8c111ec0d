-- ===== src/Smb/Copying/Through.antt =====
-- What the copy through this process writes is the source.
use mathlib.Core.Path.{subst}
use krystallos.Common.{
  ℕ, zero, suc, ◌+◌, ◌-◌, ◌≤◌, ◌<◌, min, List, [], ◌++◌, ◌≡◌, ◌⊎◌, inl, inr, refl, sym, ap, ◌∙◌,
  true, false, arith, length, take, drop, u64_mod, add_u64_exact, append_assoc, append-nil,
  length-append, length-take, length-drop, take_all, take-append, Bool-cases, ltb, ltb→lt, ℤ, pos,
  negsuc, is_zero, is_negative, magnitude, codes, ◌||◌,
}
use krystallos.Core.Error.{Error, Result, ok, err}
use krystallos.Core.FileHandle.Contract.{IsRead, exact_bound}
use krystallos.Smb.Libsmb2.{Libsmb2}
use krystallos.Smb.Errors.{Errno}
use krystallos.Smb.Operations.{context_error}
use krystallos.Smb.Copying.{
  copy_chunk_bytes, after_write, write_loop, after_block, after_pread, through_loop,
  copy_through_here,
}

-- What `smb2_pread` documents of the source, which nobody changes, and `smb2_pwrite` of the destination,
-- at its end: a code that is no failure counts the bytes, and each may move fewer than it is asked to.
pub record Moves {C : Type 0} (f : Libsmb2 C) (errno : Errno) (src dst : ℕ)
    (From To : C → List ℕ → Type 0) (Allowed : Error → Type 0) : Type 0 where
  pub preads :
      (c : C) (file out : List ℕ) (n offset : ℕ)
      → From c file
      → To c out
      → offset < u64_mod
      → let ((rc, buf), c') = f.pread c src n offset in
        ((is_negative rc ≡ true) × Allowed (context_error f errno c' rc (codes "copy (read)"))
          ⊎ ((is_negative rc ≡ false)
              × (magnitude rc ≡ length (take (magnitude rc) buf))
              × IsRead file offset n (take (magnitude rc) buf)))
        × From c' file
        × To c' out
  pub pwrites :
      (c : C) (file out bytes : List ℕ)
      → From c file
      → To c out
      → length out < u64_mod
      → 0 < length bytes
      → let (rc, c') = f.pwrite c dst bytes (length out) in
        (((is_negative rc || is_zero rc) ≡ true)
            × Allowed (context_error f errno c' rc (codes "copy (write)"))
          ⊎ (((is_negative rc || is_zero rc) ≡ false)
              × (0 < magnitude rc)
              × (magnitude rc ≤ length bytes)
              × To c' (out ++ take (magnitude rc) bytes)))
        × From c' file

-- The whole source is written, and its size is the count.
abbrev pub Copies :
    {C : Type 0}
    → (C → List ℕ → Type 0)
    → (C → List ℕ → Type 0)
    → (Error → Type 0)
    → List ℕ
    → Result ℕ × C
    → Type 0
Copies From To Allowed file (err e, c) = Allowed e
Copies From To Allowed file (ok n, c) = (n ≡ length file) × To c file × From c file

module _ {C : Type 0} (f : Libsmb2 C) (errno : Errno) (src dst : ℕ) (From To : C → List ℕ → Type 0)
    (Allowed : Error → Type 0) (moves : Moves f errno src dst From To Allowed) (file : List ℕ)
    (sized : length file < u64_mod) where
  -- The bytes stand behind what was there.
  abbrev Wrote : List ℕ → List ℕ → Result (Unit {0}) × C → Type 0
  Wrote base bytes (err e, c) = Allowed e
  Wrote base bytes (ok u, c) = To c (base ++ bytes) × From c file

  pwrites_at :
      (c : C) (out bytes : List ℕ) (offset : ℕ)
      → offset ≡ length out
      → From c file
      → To c out
      → offset < u64_mod
      → 0 < length bytes
      → let (rc, c') = f.pwrite c dst bytes offset in
        (((is_negative rc || is_zero rc) ≡ true)
            × Allowed (context_error f errno c' rc (codes "copy (write)"))
          ⊎ (((is_negative rc || is_zero rc) ≡ false)
              × (0 < magnitude rc)
              × (magnitude rc ≤ length bytes)
              × To c' (out ++ take (magnitude rc) bytes)))
        × From c' file
  pwrites_at c out bytes offset e s t lt more =
      rw e (moves.pwrites c file out bytes s t (rw (← e) lt) more)

  length-append-take :
      (base bytes : List ℕ) (n : ℕ)
      → n ≤ length bytes
      → length (base ++ take n bytes) ≡ length base + n
  length-append-take base bytes n le =
      omega (arith, length-append base (take n bytes), length-take n bytes)

  after_write-Wrote :
      (again : ℕ → C → Result (Unit {0}) × C) (base bytes : List ℕ) (written : ℕ) (out : ℤ × C)
      → written ≤ length bytes
      → ((((is_negative out.0 || is_zero out.0) ≡ true)
            × Allowed (context_error f errno out.1 out.0 (codes "copy (write)")))
          ⊎ (((is_negative out.0 || is_zero out.0) ≡ false)
              × (0 < magnitude out.0)
              × (magnitude out.0 ≤ length (drop written bytes))
              × To out.1
                  ((base ++ take written bytes) ++ take (magnitude out.0) (drop written bytes))))
      → From out.1 file
      → ((n : ℕ) (c : C)
          → 0 < n
          → written + n ≤ length bytes
          → To c (base ++ take (written + n) bytes)
          → From c file
          → Wrote base bytes (again (written + n) c))
      → Wrote base bytes (after_write f errno again written out)
  after_write-Wrote again base bytes written (rc, c) le (inl (t, p)) s k = rw t p
  after_write-Wrote again base bytes written (rc, c) le (inr (t, moved, fits, p)) s k = rw t (
      k (magnitude rc) c moved (omega (arith, length-drop written bytes))
        (subst (To c)
          (append_assoc base (take written bytes) (take (magnitude rc) (drop written bytes))
            ∙ ap (λ b. base ++ b) (take-append written (magnitude rc) bytes))
          p)
        s)

  write_loop-Wrote :
      (base bytes : List ℕ)
      → length base + length bytes < u64_mod
      → (fuel written : ℕ) (c : C) → written ≤ length bytes
      → length bytes ≤ written + fuel
      → To c (base ++ take written bytes)
      → From c file
      → Wrote base bytes (write_loop f errno fuel dst bytes (length base) written c)
  unfolding write_loop
  write_loop-Wrote base bytes small zero written c le enough t s =
      (subst (λ b. To c (base ++ b)) (take_all written bytes (omega arith)) t, s)
  write_loop-Wrote base bytes small (suc fuel) written c le enough t s =
      elim (Bool-cases (ltb written (length bytes))) [
        | inl l ↦
            let lt = ltb→lt written (length bytes) l in
            let (p, s') =
              pwrites_at c (base ++ take written bytes) (drop written bytes) (length base + written)
                (sym (length-append-take base bytes written le)) s t (omega arith)
                (omega (arith, length-drop written bytes)) in
            rw (l, add_u64_exact (length base) written (omega arith))
              (after_write-Wrote (write_loop f errno fuel dst bytes (length base)) base bytes
                written (f.pwrite c dst (drop written bytes) (length base + written)) le p s'
                (λ n c' moved fits t' s''.
                  write_loop-Wrote base bytes small fuel (written + n) c' fits (omega arith) t'
                    s''))
        | inr l ↦
            rw l (subst (λ b. To c (base ++ b)) (take_all written bytes (ground (arith, l))) t, s)
      ]

  length-take_le : (offset : ℕ) → offset ≤ length file → length (take offset file) ≡ offset
  length-take_le offset le = omega (arith, length-take offset file)

  write_block-Wrote :
      (bytes : List ℕ) (offset : ℕ) (c : C)
      → offset + length bytes ≤ length file
      → To c (take offset file)
      → From c file
      → Wrote (take offset file) bytes (write_loop f errno (length bytes) dst bytes offset 0 c)
  write_block-Wrote bytes offset c fits t s =
      let e = length-take_le offset (omega arith) in
      subst
        (λ o. Wrote (take offset file) bytes (write_loop f errno (length bytes) dst bytes o 0 c)) e
        (write_loop-Wrote (take offset file) bytes (omega (arith, e)) (length bytes) 0 c
          (omega arith) (omega arith) (subst (To c) (sym (append-nil (take offset file))) t) s)

  abbrev Whole : Result ℕ × C → Type 0
  Whole = Copies From To Allowed file

  after_block-Whole :
      (again : ℕ → C → Result ℕ × C) (base bytes : List ℕ) (next : ℕ) (out : Result (Unit {0}) × C)
      → Wrote base bytes out
      → ((c : C) → To c (base ++ bytes) → From c file → Whole (again next c))
      → Whole (after_block f errno again next out)
  after_block-Whole again base bytes next (err e, c) p k = p
  after_block-Whole again base bytes next (ok u, c) p k = k c p.0 p.1

  after_pread-Whole :
      (again : ℕ → C → Result ℕ × C) (offset want : ℕ) (rc : ℤ) (buf : List ℕ) (c : C)
      → offset < length file
      → 0 < want
      → ((is_negative rc ≡ true) × Allowed (context_error f errno c rc (codes "copy (read)")))
        ⊎ ((is_negative rc ≡ false)
            × (magnitude rc ≡ length (take (magnitude rc) buf))
            × IsRead file offset want (take (magnitude rc) buf))
      → From c file
      → To c (take offset file)
      → ((n : ℕ) (c' : C)
          → 0 < n
          → offset + n ≤ length file
          → To c' (take (offset + n) file)
          → From c' file
          → Whole (again (offset + n) c'))
      → Whole (after_pread f errno again dst offset ((rc, buf), c))
  unfolding after_pread
  after_pread-Whole again offset want rc buf c lt wanted (inl (t, p)) s t' k = rw t p
  after_pread-Whole again offset want rc buf c lt wanted (inr (t, full, r)) s t' k =
      let some_byte : 0 < magnitude rc = omega (arith, full, r.progress wanted lt) in
      let fits : offset + magnitude rc ≤ length file =
        omega (arith, full, exact_bound file (take (magnitude rc) buf) offset r.exact) in
      rw (t, nonzero rc some_byte, add_u64_exact offset (magnitude rc) (omega arith))
        (after_block-Whole again (take offset file) (take (magnitude rc) buf)
          (offset + magnitude rc)
          (write_loop f errno (length (take (magnitude rc) buf)) dst (take (magnitude rc) buf)
            offset 0 c)
          (write_block-Wrote (take (magnitude rc) buf) offset c (omega (arith, full)) t' s)
          (λ c' w s'.
            k (magnitude rc) c' some_byte fits
              (subst (To c')
                (ap (λ b. take offset file ++ b)
                    (r.exact ∙ ap (λ n. take n (drop offset file)) (sym full))
                  ∙ take-append offset (magnitude rc) file)
                w)
              s'))
    where
      nonzero : (z : ℤ) → 0 < magnitude z → is_zero z ≡ false
      nonzero (pos n) p = ground arith
      nonzero (negsuc n) p = refl

  through_loop-Whole :
      (fuel offset : ℕ) (c : C)
      → offset ≤ length file
      → length file ≤ offset + fuel
      → From c file
      → To c (take offset file)
      → Whole (through_loop f errno fuel src dst (length file) offset c)
  unfolding through_loop
  through_loop-Whole zero offset c le enough s t =
      (omega arith, subst (To c) (take_all offset file (omega arith)) t, s)
  through_loop-Whole (suc fuel) offset c le enough s t =
      elim (Bool-cases (ltb offset (length file))) [
        | inl l ↦
            let lt = ltb→lt offset (length file) l in
            let want = min (length file - offset) copy_chunk_bytes in
            let (p, s', t') =
              moves.preads c file (take offset file) want offset s t (omega arith) in
            rw l (
              after_pread-Whole (through_loop f errno fuel src dst (length file)) offset want
                (f.pread c src want offset).0.0 (f.pread c src want offset).0.1
                (f.pread c src want offset).1 lt (omega arith) p s' t'
                (λ n c' moved fits t'' s''.
                  through_loop-Whole fuel (offset + n) c' fits (omega arith) s'' t''))
        | inr l ↦
            rw l (ground (arith, l), subst (To c) (take_all offset file (ground (arith, l))) t, s)
      ]

-- The copy through this process ends, for a source of any size below 2^64: where it succeeds, the
-- destination that was empty holds the source, however few bytes a read or a write moves, and the count is
-- its size; it fails only by an error of a read or of a write. libsmb2 does what `Moves` says of it.
pub copy_through_here-Copies :
    {C : Type 0} (f : Libsmb2 C) (errno : Errno) (src dst : ℕ) (From To : C → List ℕ → Type 0)
    (Allowed : Error → Type 0)
    → Moves f errno src dst From To Allowed
    → (file : List ℕ) (c : C) → length file < u64_mod
    → From c file
    → To c []
    → Copies From To Allowed file (copy_through_here f errno c src dst (length file))
unfolding copy_through_here
copy_through_here-Copies f errno src dst From To Allowed moves file c sized s t =
    through_loop-Whole f errno src dst From To Allowed moves file sized (length file) 0 c
      (omega arith) (omega arith) s t
