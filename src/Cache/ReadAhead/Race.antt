-- ===== src/Cache/ReadAhead/Race.antt =====
-- crates/krystallos-cache/src/lib.rs: many readers of one `ReadAhead`. The lock guards the window
-- only, never a read of the wrapped handle, so between two reads of a fetch other calls run. Here a
-- fetch is taken one round at a time, in any order with the rounds of others.
pub mod Readers
pub mod Edits
pub mod Stale
use krystallos.Common.{
  ℕ, zero, suc, ◌-◌, min, List, [], ◌∷◌, ◌++◌, Option, none, some, true, false, ltb, if◌then◌else◌,
  length, add_u64,
}
use krystallos.Core.Error.{Result, ok, err}
use krystallos.Core.FileHandle.{FileHandle}
use krystallos.Cache.ReadAhead.{ReadAhead, read_through, remaining_from, publish, window_start}

-- The local state of a call of `fill` that waits for the wrapped handle.
pub record Pending : Type 0 where
  pub start : ℕ
  pub len : ℕ
  pub buf : List ℕ

pub record Shared (S : Type 0) : Type 0 where
  pub reader : ReadAhead S
  pub pending : List Pending

-- A miss starts a fetch; a fetch that waits goes on; or a read goes by the window.
pub data Action : Type 0 where
  miss : ℕ → Action
  resume : ℕ → Action
  direct : ℕ → ℕ → Action

module _ {S : Type 0} where
  abbrev pub put_pending : List Pending → Option Pending × ReadAhead S → Shared S
  put_pending ps (none, r) = record { reader = r; pending = ps }
  put_pending ps (some p, r) = record { reader = r; pending = p ∷ ps }

  abbrev pub behind : Pending → Shared S → Shared S
  behind p s = record s { pending = p ∷ s.pending }

  -- The arms behind the read of a round: an error ends the fetch, no bytes are the end of the file.
  abbrev pub after_round : Pending → Result (List ℕ) × ReadAhead S → Option Pending × ReadAhead S
  after_round p (err e, r) = (none, r)
  after_round p (ok [], r) = (none, (publish p.start (ok (p.buf, true), r)).1)
  after_round p (ok (b ∷ bs), r) = (some (record p { buf = p.buf ++ b ∷ bs }), r)

module _ {S : Type 0} (h : FileHandle S) (usize_mod : ℕ) where
  pub round : Pending → ReadAhead S → Option Pending × ReadAhead S
  unfolding read_through
  round p r =
      let more =
        after_round p
          (read_through h usize_mod r (add_u64 p.start (length p.buf)) (p.len - length p.buf)) in
      if ltb (length p.buf) p.len then more else (none, (publish p.start (ok (p.buf, false), r)).1)

  pub resume_at : ℕ → List Pending → ReadAhead S → Shared S
  unfolding round
  resume_at i [] r = record { reader = r; pending = [] }
  resume_at zero (p ∷ ps) r = put_pending ps (round p r)
  resume_at (suc i) (p ∷ ps) r = behind p (resume_at i ps r)

  abbrev pub started : ReadAhead S → ℕ → Pending
  started r offset = record {
    start = window_start r offset;
    len = min r.window_size (remaining_from h usize_mod r (window_start r offset));
    buf = [];
  }

  pub step : Action → Shared S → Shared S
  unfolding resume_at read_through
  step (miss offset) s = behind (started s.reader offset) s
  step (resume i) s = resume_at i s.pending s.reader
  step (direct offset n) s = record s { reader = (read_through h usize_mod s.reader offset n).1 }

  pub run : List Action → Shared S → Shared S
  unfolding step
  run [] s = s
  run (a ∷ rest) s = run rest (step a s)
