-- ===== src/Cache/ReadAhead/Fill.antt =====
-- `fill`: the window that it publishes holds bytes of the file, however short the reads are.
use mathlib.Core.Path.{subst}
use native.Mathlib.Decide.{dec_lt}
use krystallos.Common.{
  ℕ, zero, suc, ◌+◌, ◌-◌, ◌≤◌, ◌<◌, min, List, [], ◌∷◌, ◌++◌, ◌≡◌, refl, sym, inl, inr, Bool, true,
  false, arith, length, take, drop, u64_mod, ltb, ltb→lt, Bool-cases, add_u64_exact, length-append,
}
use krystallos.Core.Error.{Error, Result, ok, err}
use krystallos.Core.FileHandle.{FileHandle}
use krystallos.Core.FileHandle.Contract.{IsRead, Returns, Serves, exact-append, exact_bound}
use krystallos.Cache.Window.{Window}
use krystallos.Cache.Window.Copy.{WindowOf}
use krystallos.Cache.ReadAhead.{
  ReadAhead, read_through, remaining_from, after_fetch, fill_loop, publish, fill,
}

-- The wrapped handle holds the file, and the window is a window of it.
pub record Coherent {S : Type 0} (Holds : S → List ℕ → Type 0) (r : ReadAhead S) (file : List ℕ)
    : Type 0 where
  pub held : Holds r.inner file
  pub window : WindowOf file r.state
  pub sized : length file < u64_mod

-- The bytes that the loop has, and what its verdict about the end is worth.
pub record IsFetched (file : List ℕ) (start len : ℕ) (buf : List ℕ) (hit_eof : Bool) : Type 0 where
  pub bounded : length buf ≤ len
  pub exact : buf ≡ take (length buf) (drop start file)
  pub ended : hit_eof ≡ true → length file ≤ start + length buf
  pub full : hit_eof ≡ false → length buf ≡ len

-- An empty answer to a request is the end of the file.
pub read_end : (l a k : ℕ) → (0 < k → a < l → 0 < 0) → 0 < k → l ≤ a
read_end l a k progress pos = elim (dec_lt a l) [
  | yes p ↦ absurd (omega (arith, progress pos p))
  | no p ↦ omega arith
]

module _ {S : Type 0} (h : FileHandle S) (usize_mod : ℕ) (Holds : S → List ℕ → Type 0)
    (Allowed : Error → Type 0) (serves : Serves h Holds Allowed) (file : List ℕ) where
  -- A counted read of the wrapped handle, and the window as it was.
  pub read_through-Returns :
      (r : ReadAhead S) (offset n : ℕ)
      → Holds r.inner file
      → offset < u64_mod
      → Returns (IsRead file offset n) Allowed (read_through h usize_mod r offset n).0
        × Holds (read_through h usize_mod r offset n).1.inner file
        × ((read_through h usize_mod r offset n).1.state ≡ r.state)
  unfolding read_through
  read_through-Returns r offset n q small =
      let (p, held) = serves.reads r.inner file offset n q small in (p, held, refl)

  abbrev FetchPost : ℕ → ℕ → Window → Result (List ℕ × Bool) × ReadAhead S → Type 0
  FetchPost start len w out =
      Returns (λ (p : List ℕ × Bool). IsFetched file start len p.0 p.1) Allowed out.0
      × Holds out.1.inner file
      × (out.1.state ≡ w)

  after_fetch-Post :
      (start len : ℕ) (w : Window)
      (again : List ℕ → ReadAhead S → Result (List ℕ × Bool) × ReadAhead S) (buf : List ℕ)
      (out : Result (List ℕ) × ReadAhead S)
      → length buf < len
      → buf ≡ take (length buf) (drop start file)
      → Returns (IsRead file (start + length buf) (len - length buf)) Allowed out.0
      → Holds out.1.inner file
      → out.1.state ≡ w
      → ((more : List ℕ) (r : ReadAhead S)
          → length more ≤ len
          → length buf < length more
          → more ≡ take (length more) (drop start file)
          → Holds r.inner file
          → r.state ≡ w
          → FetchPost start len w (again more r))
      → FetchPost start len w (after_fetch again buf out)
  after_fetch-Post start len w again buf (err e, r) lt e' p q s k = (p, q, s)
  after_fetch-Post start len w again buf (ok [], r) lt e' p q s k =
      let at_end : length file ≤ start + length buf =
        read_end (length file) (start + length buf) (len - length buf) p.progress (omega arith) in
      (record { bounded = omega arith; exact = e'; ended = λ _. at_end; full = λ c. cc }, q, s)
  after_fetch-Post start len w again buf (ok (b ∷ bs), r) lt e' p q s k =
      k (buf ++ b ∷ bs) r (omega (arith, length-append buf (b ∷ bs), p.fits))
        (omega (arith, length-append buf (b ∷ bs)))
        (exact-append file buf (b ∷ bs) start e' p.exact) q s

  fill_loop-Post :
      (fuel start len : ℕ) (buf : List ℕ) (r : ReadAhead S)
      → start < u64_mod
      → length file < u64_mod
      → length buf ≤ len
      → len ≤ length buf + fuel
      → buf ≡ take (length buf) (drop start file)
      → Holds r.inner file
      → FetchPost start len r.state (fill_loop h usize_mod fuel start len buf r)
  unfolding fill_loop
  fill_loop-Post zero start len buf r small sized le enough e q =
      (record { bounded = le; exact = e; ended = λ c. cc; full = λ _. omega arith }, q, refl)
  fill_loop-Post (suc fuel) start len buf r small sized le enough e q =
      elim (Bool-cases (ltb (length buf) len)) [
        | inl t ↦
            let bound : start + length buf < u64_mod =
              omega (arith, exact_bound file buf start e) in
            let (p, held, same) =
              read_through-Returns r (start + length buf) (len - length buf) q bound in
            rw (t, add_u64_exact start (length buf) bound)
              (after_fetch-Post start len r.state (fill_loop h usize_mod fuel start len) buf
                (read_through h usize_mod r (start + length buf) (len - length buf))
                (ltb→lt (length buf) len t) e p held same
                (λ more r' le' grows e' q' s'.
                  subst (λ w. FetchPost start len w (fill_loop h usize_mod fuel start len more r'))
                    s' (fill_loop-Post fuel start len more r' small sized le' (omega arith) e' q')))
        | inr t ↦
            let full : length buf ≡ len = ground (arith, t) in
            rw t (record { bounded = le; exact = e; ended = λ c. cc; full = λ _. full }, q, refl)
      ]

  publish-Coherent :
      (start len : ℕ) (w : Window) (out : Result (List ℕ × Bool) × ReadAhead S)
      → start < u64_mod
      → length file < u64_mod
      → WindowOf file w
      → FetchPost start len w out
      → Returns (λ _. Unit {0}) Allowed (publish start out).0
        × Coherent Holds (publish start out).1 file
  publish-Coherent start len w (err e, r) small sized v (p, q, s) =
      (p, record { held = q; window = subst (WindowOf file) (sym s) v; sized = sized })
  publish-Coherent start len w (ok (buf, hit_eof), r) small sized v (p, q, s) = (
    tt,
    record {
      held = q;
      window = record { exact = p.exact; ended = p.ended; small = small };
      sized = sized;
    },
  )

  -- A fetch publishes a window of the file, or fails by an error of the handle and keeps the window.
  pub fill-Coherent :
      (r : ReadAhead S) (start : ℕ)
      → start < u64_mod
      → Coherent Holds r file
      → Returns (λ _. Unit {0}) Allowed (fill h usize_mod r start).0
        × Coherent Holds (fill h usize_mod r start).1 file
  unfolding fill
  fill-Coherent r start small c =
      let len = min r.window_size (remaining_from h usize_mod r start) in
      publish-Coherent start len r.state (fill_loop h usize_mod len start len [] r) small c.sized
        c.window
        (fill_loop-Post len start len [] r small c.sized (omega arith) (omega arith) refl c.held)
