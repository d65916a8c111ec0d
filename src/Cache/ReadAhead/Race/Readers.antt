-- ===== src/Cache/ReadAhead/Race/Readers.antt =====
-- Readers that run at a time do not mislead each other while nobody writes.
use mathlib.Core.Path.{subst}
use krystallos.Common.{
  ℕ, zero, suc, ◌+◌, ◌-◌, ◌≤◌, ◌<◌, List, [], ◌∷◌, ◌≡◌, refl, sym, inl, inr, arith, length, take,
  drop, u64_mod, ltb, ltb→lt, Bool-cases, add_u64_exact, length-append, All,
}
use krystallos.Core.Error.{Error, Result, ok, err}
use krystallos.Core.FileHandle.{FileHandle}
use krystallos.Core.FileHandle.Contract.{IsRead, Returns, Serves, exact-append, exact_bound}
use krystallos.Cache.Window.Copy.{WindowOf}
use krystallos.Cache.ReadAhead.{ReadAhead, read_through, serve}
use krystallos.Cache.ReadAhead.Fill.{Coherent, read_through-Returns, read_end}
use krystallos.Cache.ReadAhead.Serve.{serve-Post, window_start-le}
use krystallos.Cache.ReadAhead.Race.{
  Pending, Shared, Action, miss, resume, direct, put_pending, after_round, round, resume_at, step,
  run,
}

-- A fetch in flight holds bytes of the file.
pub record InFlight (file : List ℕ) (p : Pending) : Type 0 where
  pub small : p.start < u64_mod
  pub bounded : length p.buf ≤ p.len
  pub exact : p.buf ≡ take (length p.buf) (drop p.start file)

-- The offsets of the calls fit in 64 bits.
abbrev pub Fits : Action → Type 0
Fits (miss offset) = offset < u64_mod
Fits (resume i) = Unit
Fits (direct offset n) = offset < u64_mod

module _ {S : Type 0} (h : FileHandle S) (usize_mod : ℕ) (Holds : S → List ℕ → Type 0)
    (Allowed : Error → Type 0) (serves : Serves h Holds Allowed) (file : List ℕ) where
  pub record Agrees (s : Shared S) : Type 0 where
    pub window : Coherent Holds s.reader file
    pub fetches : All (InFlight file) s.pending

  after_round-Agrees :
      (p : Pending) (ps : List Pending) (r : ReadAhead S) (out : Result (List ℕ) × ReadAhead S)
      → InFlight file p
      → All (InFlight file) ps
      → length p.buf < p.len
      → Coherent Holds r file
      → Returns (IsRead file (p.start + length p.buf) (p.len - length p.buf)) Allowed out.0
      → Holds out.1.inner file
      → out.1.state ≡ r.state
      → Agrees (put_pending ps (after_round p out))
  after_round-Agrees p ps r (err e, r') v vs lt c q held same = record {
    window = record {
      held = held;
      window = subst (WindowOf file) (sym same) c.window;
      sized = c.sized;
    };
    fetches = vs;
  }
  after_round-Agrees p ps r (ok [], r') v vs lt c q held same =
      let at_end : length file ≤ p.start + length p.buf =
        read_end (length file) (p.start + length p.buf) (p.len - length p.buf) q.progress
          (omega arith) in
      record {
        window = record {
          held = held;
          window = record { exact = v.exact; ended = λ _. at_end; small = v.small };
          sized = c.sized;
        };
        fetches = vs;
      }
  after_round-Agrees p ps r (ok (b ∷ bs), r') v vs lt c q held same = record {
    window = record {
      held = held;
      window = subst (WindowOf file) (sym same) c.window;
      sized = c.sized;
    };
    fetches = (
      record {
        small = v.small;
        bounded = omega (arith, length-append p.buf (b ∷ bs), q.fits);
        exact = exact-append file p.buf (b ∷ bs) p.start v.exact q.exact;
      },
      vs,
    );
  }

  round-Agrees :
      (p : Pending) (ps : List Pending) (r : ReadAhead S)
      → InFlight file p
      → All (InFlight file) ps
      → Coherent Holds r file
      → Agrees (put_pending ps (round h usize_mod p r))
  unfolding round
  round-Agrees p ps r v vs c = elim (Bool-cases (ltb (length p.buf) p.len)) [
    | inl t ↦
        let bound : p.start + length p.buf < u64_mod =
          omega (arith, exact_bound file p.buf p.start v.exact, v.small, c.sized) in
        let (q, held, same) =
          read_through-Returns h usize_mod Holds Allowed serves file r (p.start + length p.buf)
            (p.len - length p.buf) c.held bound in
        rw (t, add_u64_exact p.start (length p.buf) bound)
          (after_round-Agrees p ps r
            (read_through h usize_mod r (p.start + length p.buf) (p.len - length p.buf)) v vs
            (ltb→lt (length p.buf) p.len t) c q held same)
    | inr t ↦ rw t (record {
      window = record {
        held = c.held;
        window = record { exact = v.exact; ended = λ e. cc; small = v.small };
        sized = c.sized;
      };
      fetches = vs;
    })
  ]

  resume_at-Agrees :
      (i : ℕ) (ps : List Pending) (r : ReadAhead S)
      → All (InFlight file) ps
      → Coherent Holds r file
      → Agrees (resume_at h usize_mod i ps r)
  unfolding resume_at
  resume_at-Agrees i [] r vs c = record { window = c; fetches = tt }
  resume_at-Agrees zero (p ∷ ps) r vs c = round-Agrees p ps r vs.0 vs.1 c
  resume_at-Agrees (suc i) (p ∷ ps) r vs c =
      let others = resume_at-Agrees i ps r vs.1 c in
      record { window = others.window; fetches = (vs.0, others.fetches) }

  pub step-Agrees : (a : Action) (s : Shared S) → Fits a → Agrees s → Agrees (step h usize_mod a s)
  unfolding step
  step-Agrees (miss offset) s small v = record {
    window = v.window;
    fetches = (
      record {
        small = omega (arith, small, window_start-le s.reader offset);
        bounded = omega arith;
        exact = refl;
      },
      v.fetches,
    );
  }
  step-Agrees (resume i) s small v = resume_at-Agrees i s.pending s.reader v.fetches v.window
  step-Agrees (direct offset n) s small v =
      let (q, held, same) =
        read_through-Returns h usize_mod Holds Allowed serves file s.reader offset n v.window.held
          small in
      record {
        window = record {
          held = held;
          window = subst (WindowOf file) (sym same) v.window.window;
          sized = v.window.sized;
        };
        fetches = v.fetches;
      }

  run-Agrees :
      (rest : List Action) (s : Shared S)
      → All Fits rest
      → Agrees s
      → Agrees (run h usize_mod rest s)
  unfolding run
  run-Agrees [] s fit v = v
  run-Agrees (a ∷ rest) s fit v =
      run-Agrees rest (step h usize_mod a s) fit.1 (step-Agrees a s fit.0 v)

-- However the rounds of many fetches and direct reads interleave, while nobody writes the window is
-- one of the file, and a call whose fetch has ended, whichever fetch published last, returns bytes
-- that stand at its offset, none only at the end of the file, or fails by an error of the handle.
-- A `usize` has 64 bits, and offsets fit in 64 bits.
pub readers-agree :
    {S : Type 0} (h : FileHandle S) (usize_mod : ℕ) (Holds : S → List ℕ → Type 0)
    (Allowed : Error → Type 0)
    → Serves h Holds Allowed
    → u64_mod ≤ usize_mod
    → (file : List ℕ) (r : ReadAhead S) (actions : List Action) (offset n : ℕ)
    → Coherent Holds r file
    → All Fits actions
    → offset < u64_mod
    → 0 < n
    → let r' = (run h usize_mod actions (record { reader = r; pending = [] })).reader in
      Returns (IsRead file offset n) Allowed (serve h usize_mod offset n (ok tt, r')).0
      × Coherent Holds r' file
readers-agree h usize_mod Holds Allowed serves wide file r actions offset n c fit small pos =
    let done =
      run-Agrees h usize_mod Holds Allowed serves file actions (record { reader = r; pending = [] })
        fit (record { window = c; fetches = tt }) in
    (
      (serve-Post h usize_mod Holds Allowed serves file wide offset n
          (ok tt, (run h usize_mod actions (record { reader = r; pending = [] })).reader) small pos
          tt done.window).0,
      done.window,
    )
