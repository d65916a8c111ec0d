-- ===== src/Cli/Upload/Written.antt =====
-- The blocks that `put` writes.
use mathlib.Core.Path.{subst}
use krystallos.Common.{
  ℕ, zero, suc, ◌+◌, ◌≤◌, ◌<◌, List, ◌++◌, ◌≡◌, inl, inr, refl, sym, ap, ◌∙◌, arith, length, take,
  drop, u64_mod, add_u64_exact, append_assoc, append-nil, length-append, length-take, length-drop,
  take_all, take-append, Bool-cases, ltb, ltb→lt, ◌==◌,
}
use krystallos.Core.Error.{Error, Result, ok, err}
use krystallos.Core.FileHandle.{FileHandle}
use krystallos.Core.FileHandle.Contract.{Returns}
use krystallos.Core.Run.{Run}
use krystallos.Cli.Upload.{after_put, write_block}
use krystallos.Cli.Upload.Contract.{Uploads, Failure}

plus_assoc : (a b c : ℕ) → a + (b + c) ≡ (a + b) + c
plus_assoc a b c = omega arith

plus_zero : (n : ℕ) → n + 0 ≡ n
plus_zero n = omega arith

length-append-take :
    (base block : List ℕ) (written : ℕ)
    → written ≤ length block
    → length (base ++ take written block) ≡ length base + written
length-append-take base block written le =
    omega (arith, length-append base (take written block), length-take written block)

module _ {W : Type 0} (Left : W → List ℕ → Type 0) (Content : W → List ℕ → Type 0)
    (Allowed : Error → Type 0) where
  -- The block stands behind what was stored, and the offset behind both.
  abbrev pub Written : List ℕ → List ℕ → List ℕ → Result ℕ × W → Type 0
  Written base block rest (err e, w) = Failure Allowed e
  Written base block rest (ok offset, w) =
      (offset ≡ length base + length block) × Content w (base ++ block) × Left w rest

module _ {W : Type 0} (read : ℕ → Run W (List ℕ)) (h : FileHandle W) (Left : W → List ℕ → Type 0)
    (Content : W → List ℕ → Type 0) (Allowed : Error → Type 0)
    (contract : Uploads read h Left Content Allowed) where
  stores_at :
      (w : W) (rest content bytes : List ℕ) (offset : ℕ)
      → offset ≡ length content
      → Left w rest
      → Content w content
      → offset < u64_mod
      → Returns
          (λ (n : ℕ).
            (n ≤ length bytes) × Content (h.write_at w offset bytes).1 (content ++ take n bytes))
          Allowed
          (h.write_at w offset bytes).0
        × Left (h.write_at w offset bytes).1 rest
  stores_at w rest content bytes offset e l c lt =
      rw e (contract.stores w rest content bytes l c (rw (← e) lt))

  after_put-Written :
      (again : ℕ → ℕ → Run W ℕ) (base block rest : List ℕ) (written : ℕ) (out : Result ℕ × W)
      → length base + length block < u64_mod
      → written ≤ length block
      → Returns
          (λ (n : ℕ).
            (n ≤ length (drop written block))
            × Content out.1 ((base ++ take written block) ++ take n (drop written block)))
          Allowed
          out.0
      → Left out.1 rest
      → ((n : ℕ) (w : W)
          → 0 < n
          → written + n ≤ length block
          → Content w (base ++ take (written + n) block)
          → Left w rest
          → Written Left Content Allowed base block rest
              (again (written + n) (length base + (written + n)) w))
      → Written Left Content Allowed base block rest
          (after_put again written (length base + written) out)
  after_put-Written again base block rest written (err e, w) sized le p l k = inl p
  after_put-Written again base block rest written (ok n, w) sized le p l k =
      elim (Bool-cases (n == 0)) [
        | inl z ↦ rw z (inr refl)
        | inr z ↦
            let fits : written + n ≤ length block = omega (arith, p.0, length-drop written block) in
            rw z (
              rw
                (
                  add_u64_exact (length base + written) n (omega arith),
                  sym (plus_assoc (length base) written n),
                )
                (k n w (ground (arith, z)) fits
                  (subst (Content w)
                    (append_assoc base (take written block) (take n (drop written block))
                      ∙ ap (λ b. base ++ b) (take-append written n block))
                    p.1)
                  l))
      ]

  write_block-Written :
      (base block rest : List ℕ)
      → length base + length block < u64_mod
      → (fuel written : ℕ) (w : W) → written ≤ length block
      → length block ≤ written + fuel
      → Content w (base ++ take written block)
      → Left w rest
      → Written Left Content Allowed base block rest
          (write_block h fuel block written (length base + written) w)
  unfolding write_block
  write_block-Written base block rest sized zero written w le enough c l =
      (omega arith, subst (λ b. Content w (base ++ b)) (take_all written block (omega arith)) c, l)
  write_block-Written base block rest sized (suc fuel) written w le enough c l =
      elim (Bool-cases (ltb written (length block))) [
        | inl t ↦
            let (p, l') =
              stores_at w rest (base ++ take written block) (drop written block)
                (length base + written) (sym (length-append-take base block written le)) l c
                (omega (arith, ltb→lt written (length block) t)) in
            rw t (
              after_put-Written (write_block h fuel block) base block rest written
                (h.write_at w (length base + written) (drop written block)) sized le p l'
                (λ n w' pos fits c' l''.
                  write_block-Written base block rest sized fuel (written + n) w' fits (omega arith)
                    c' l''))
        | inr t ↦ rw t (
          ground (arith, t),
          subst (λ b. Content w (base ++ b)) (take_all written block (ground (arith, t))) c,
          l,
        )
      ]

  pub write_block_whole :
      (base block rest : List ℕ) (w : W)
      → length base + length block < u64_mod
      → Content w base
      → Left w rest
      → Written Left Content Allowed base block rest
          (write_block h (length block) block 0 (length base) w)
  write_block_whole base block rest w sized c l =
      subst
        (λ o.
          Written Left Content Allowed base block rest (write_block h (length block) block 0 o w))
        (plus_zero (length base))
        (write_block-Written base block rest sized (length block) 0 w (omega arith) (omega arith)
          (subst (Content w) (sym (append-nil base)) c) l)
