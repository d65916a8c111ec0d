-- ===== src/Cache/ReadAhead/Serve.antt =====
-- `ReadAhead` keeps the contract of the handle that it wraps.
use mathlib.Core.Path.{subst}
use krystallos.Common.{
  ℕ, ◌≤◌, ◌<◌, List, [], ◌≡◌, refl, sym, inl, inr, true, not, arith, u64_mod, ltb, ◌==◌, Bool-cases,
}
use krystallos.Core.Error.{Error, Result, ok, err}
use krystallos.Core.FileHandle.{FileHandle}
use krystallos.Core.FileHandle.Contract.{IsRead, Returns, Serves}
use krystallos.Cache.Window.{covers}
use krystallos.Cache.Window.Copy.{WindowOf, copy_out-IsRead}
use krystallos.Cache.ReadAhead.{
  ReadAhead, read_through, worth_fetching, fill, serve, window_start, read_at, read_ahead,
}
use krystallos.Cache.ReadAhead.Fill.{Coherent, read_through-Returns, fill-Coherent}

IsRead-empty : (file : List ℕ) (offset n : ℕ) → (n == 0) ≡ true → IsRead file offset n []
IsRead-empty file offset n e = record {
  fits = omega arith;
  exact = refl;
  progress = λ p q. ground (arith, e);
}

pub window_start-le : {S : Type 0} (r : ReadAhead S) (offset : ℕ) → window_start r offset ≤ offset
window_start-le r offset = grind arith

module _ {S : Type 0} (h : FileHandle S) (usize_mod : ℕ) (Holds : S → List ℕ → Type 0)
    (Allowed : Error → Type 0) (serves : Serves h Holds Allowed) (file : List ℕ)
    (wide : u64_mod ≤ usize_mod) where
  abbrev Post : ℕ → ℕ → Result (List ℕ) × ReadAhead S → Type 0
  Post offset n out = Returns (IsRead file offset n) Allowed out.0 × Coherent Holds out.1 file

  through-Post :
      (r : ReadAhead S) (offset n : ℕ)
      → offset < u64_mod
      → Coherent Holds r file
      → Post offset n (read_through h usize_mod r offset n)
  through-Post r offset n small c =
      let (p, held, same) =
        read_through-Returns h usize_mod Holds Allowed serves file r offset n c.held small in
      (
        p,
        record { held = held; window = subst (WindowOf file) (sym same) c.window; sized = c.sized },
      )

  pub serve-Post :
      (offset n : ℕ) (out : Result (Unit {0}) × ReadAhead S)
      → offset < u64_mod
      → 0 < n
      → Returns (λ _. Unit {0}) Allowed out.0
      → Coherent Holds out.1 file
      → Post offset n (serve h usize_mod offset n out)
  unfolding serve
  serve-Post offset n (err e, r) small pos p c = (p, c)
  serve-Post offset n (ok u, r) small pos p c = elim (Bool-cases (covers r.state offset n)) [
    | inl t ↦ rw t (copy_out-IsRead usize_mod r.state offset n c.window wide c.sized small pos t, c)
    | inr t ↦
        let (q, held) = serves.reads r.inner file offset n c.held small in
        rw t (q, record { held = held; window = c.window; sized = c.sized })
  ]

  read_at-Post :
      (r : ReadAhead S) (offset n : ℕ)
      → offset < u64_mod
      → Coherent Holds r file
      → Post offset n (read_at h usize_mod r offset n)
  unfolding read_at
  read_at-Post r offset n small c = elim (Bool-cases (n == 0)) [
    | inl t ↦ rw t (IsRead-empty file offset n t, c)
    | inr t ↦
        let pos : 0 < n = ground (arith, t) in
        elim (Bool-cases (r.window_size == 0)) [
          | inl d ↦ rw (t, d) (through-Post r offset n small c)
          | inr d ↦ elim (Bool-cases (covers r.state offset n)) [
            | inl u ↦
                rw (t, d, u)
                  (copy_out-IsRead usize_mod r.state offset n c.window wide c.sized small pos u, c)
            | inr u ↦ elim (Bool-cases (ltb r.window_size n)) [
              | inl b ↦ rw (t, d, u, b) (through-Post r offset n small c)
              | inr b ↦ elim (Bool-cases (not (worth_fetching r offset))) [
                | inl k ↦ rw (t, d, u, b, k) (through-Post r offset n small c)
                | inr k ↦
                    let le : window_start r offset ≤ offset = window_start-le r offset in
                    let (p, q) =
                      fill-Coherent h usize_mod Holds Allowed serves file r (window_start r offset)
                        (omega arith) c in
                    rw (t, d, u, b, k)
                      (serve-Post offset n (fill h usize_mod r (window_start r offset)) small pos p
                        q)
              ]
            ]
          ]
        ]
  ]

-- Where a `usize` has 64 bits, wrapping a handle that keeps the contract of `read_at` gives a handle
-- that keeps it: over any window size, any short reads and any advisory `len`, every read returns
-- bytes that stand at its offset, none only at the end of the file, and fails only by an error of
-- the wrapped handle; and the window goes on being a window of the file.
pub read_ahead-Serves :
    {S : Type 0} (h : FileHandle S) (usize_mod : ℕ) (Holds : S → List ℕ → Type 0)
    (Allowed : Error → Type 0)
    → Serves h Holds Allowed
    → u64_mod ≤ usize_mod
    → Serves (read_ahead h usize_mod) (Coherent Holds) Allowed
read_ahead-Serves h usize_mod Holds Allowed serves wide = record {
  reads = λ r file offset n c small.
      read_at-Post h usize_mod Holds Allowed serves file wide r offset n small c;
}
