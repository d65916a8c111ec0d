-- ===== src/Cache/ReadAhead/Race/Edits.antt =====
-- Readers that run at a time while the file changes, as long as no fetch is in flight at a change.
use krystallos.Common.{ℕ, ◌≤◌, ◌<◌, List, [], ◌≡◌, refl, arith, length, u64_mod}
use krystallos.Core.Error.{Error, Result, ok, err}
use krystallos.Core.FileHandle.{FileHandle}
use krystallos.Core.FileHandle.Contract.{IsRead, Returns, Serves}
use krystallos.Cache.ReadAhead.{
  ReadAhead, invalidate, put_inner, then_invalidate, serve, write_at, set_len,
}
use krystallos.Cache.ReadAhead.Fill.{Coherent}
use krystallos.Cache.ReadAhead.Serve.{serve-Post}
use krystallos.Cache.ReadAhead.Race.{Shared, Action, step}
use krystallos.Cache.ReadAhead.Race.Readers.{Fits, Agrees, step-Agrees}

module _ {S : Type 0} (h : FileHandle S) (usize_mod : ℕ) (Holds : S → List ℕ → Type 0) where
  -- One event, from a state and the file that the wrapped handle holds in it to another: a round of a
  -- fetch or a direct read; or, with no fetch in flight, a write or a change of the length that succeeds,
  -- whatever file the handle holds behind it.
  pub data Event : Shared S → List ℕ → Shared S → List ℕ → Type 0 where
    reads :
        (a : Action) (s : Shared S) (file : List ℕ)
        → Fits a
        → Event s file (step h usize_mod a s) file
    writes :
        (s : Shared S) (file written : List ℕ) (offset : ℕ) (buf : List ℕ) (n : ℕ)
        → s.pending ≡ []
        → (h.write_at s.reader.inner offset buf).0 ≡ ok n
        → Holds (h.write_at s.reader.inner offset buf).1 written
        → length written < u64_mod
        → Event s file (record s { reader = (write_at h usize_mod s.reader offset buf).1 }) written
    resizes :
        (s : Shared S) (file resized : List ℕ) (n : ℕ)
        → s.pending ≡ []
        → (h.set_len s.reader.inner n).0 ≡ ok tt
        → Holds (h.set_len s.reader.inner n).1 resized
        → length resized < u64_mod
        → Event s file (record s { reader = (set_len h usize_mod s.reader n).1 }) resized

  pub data Reach (s : Shared S) (file : List ℕ) : Shared S → List ℕ → Type 0 where
    here : Reach s file s file
    next :
        {t u : Shared S} {now then_ : List ℕ}
        → Reach s file t now
        → Event t now u then_
        → Reach s file u then_

  module _ (Allowed : Error → Type 0) (serves : Serves h Holds Allowed) where
    edited-Coherent {ℓ} :
        {A : Type ℓ} (r : ReadAhead S) (file : List ℕ) (out : Result A × S) (a : A)
        → out.0 ≡ ok a
        → Holds out.1 file
        → length file < u64_mod
        → Coherent Holds (then_invalidate (put_inner r out)).1 file
    unfolding invalidate
    edited-Coherent r file (ok b, s) a e held sized = record {
      held = held;
      window = record { exact = refl; ended = λ c. cc; small = omega arith };
      sized = sized;
    }
    edited-Coherent r file (err x, s) a e held sized = absurd cc

    Event-Agrees :
        {s t : Shared S} {file now : List ℕ}
        → Event s file t now
        → Agrees h usize_mod Holds Allowed serves file s
        → Agrees h usize_mod Holds Allowed serves now t
    unfolding write_at set_len
    Event-Agrees (reads a s file fit) v =
        step-Agrees h usize_mod Holds Allowed serves file a s fit v
    Event-Agrees (writes s file written offset buf n none_pending e held small) v = record {
      window =
          edited-Coherent s.reader written (h.write_at s.reader.inner offset buf) n e held small;
      fetches = rw none_pending tt;
    }
    Event-Agrees (resizes s file resized n none_pending e held small) v = record {
      window = edited-Coherent s.reader resized (h.set_len s.reader.inner n) tt e held small;
      fetches = rw none_pending tt;
    }

    Reach-Agrees :
        {s : Shared S} {file : List ℕ} {t : Shared S} {now : List ℕ}
        → Reach s file t now
        → Agrees h usize_mod Holds Allowed serves file s
        → Agrees h usize_mod Holds Allowed serves now t
    Reach-Agrees here v = v
    Reach-Agrees (next r e) v = Event-Agrees e (Reach-Agrees r v)

-- However fetches, direct reads, writes and changes of the length interleave, as long as every change
-- succeeds and is made while no fetch is in flight, the window is one of the file as it is now, and a call whose fetch
-- has ended returns bytes of that file, none only at its end, or fails by an error of the handle. A `usize`
-- has 64 bits, and sizes and offsets fit in 64 bits.
pub edits-agree :
    {S : Type 0} (h : FileHandle S) (usize_mod : ℕ) (Holds : S → List ℕ → Type 0)
    (Allowed : Error → Type 0)
    → Serves h Holds Allowed
    → u64_mod ≤ usize_mod
    → (file now : List ℕ) (r : ReadAhead S) (t : Shared S) (offset n : ℕ) → Coherent Holds r file
    → Reach h usize_mod Holds (record { reader = r; pending = [] }) file t now
    → offset < u64_mod
    → 0 < n
    → Returns (IsRead now offset n) Allowed (serve h usize_mod offset n (ok tt, t.reader)).0
      × Coherent Holds t.reader now
edits-agree h usize_mod Holds Allowed serves wide file now r t offset n c reached small pos =
    let done =
      Reach-Agrees h usize_mod Holds Allowed serves reached (record { window = c; fetches = tt }) in
    (
      (serve-Post h usize_mod Holds Allowed serves now wide offset n (ok tt, t.reader) small pos tt
          done.window).0,
      done.window,
    )
