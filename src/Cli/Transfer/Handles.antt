-- ===== src/Cli/Transfer/Handles.antt =====
-- The handle that `cat` and `get` read, with read-ahead or without it, serves the file.
use krystallos.Common.{
  ℕ, ◌≤◌, ◌<◌, List, ◌++◌, refl, Bool-cases, arith, length, u64_mod, ltb, inl, inr,
}
use krystallos.Core.Error.{Error}
use krystallos.Core.FileHandle.{FileHandle}
use krystallos.Core.FileHandle.Contract.{IsRead, Returns, Serves}
use krystallos.Core.Run.{Run}
use krystallos.Cache.ReadAhead.{read_ahead}
use krystallos.Cache.Window.{empty_window}
use krystallos.Cache.Window.Copy.{WindowOf}
use krystallos.Cache.ReadAhead.Fill.{Coherent}
use krystallos.Cache.ReadAhead.Serve.{read_ahead-Serves}
use krystallos.Cli.Transfer.{
  ReadHandle, plain, buffered, wrapped, unwrapped, beside, read_at, read_handle,
}
use krystallos.Cli.Transfer.Whole.{Appends}

empty-WindowOf : (file : List ℕ) → WindowOf file empty_window
empty-WindowOf file = record { exact = refl; ended = λ c. cc; small = omega arith }

module _ {W : Type 0} (Holds : W → List ℕ → Type 0) where
  -- The file that the handle's state holds, with a window that is one of it.
  abbrev pub HeldBy : ReadHandle W → List ℕ → Type 0
  HeldBy (plain w) file = Holds w file
  HeldBy (buffered r) file = Coherent Holds r file

  module _ (h : FileHandle W) (usize_mod : ℕ) (Allowed : Error → Type 0)
      (serves : Serves h Holds Allowed) (wide : u64_mod ≤ usize_mod) where
    pub read_at-Serves :
        (s : ReadHandle W) (file : List ℕ) (offset n : ℕ)
        → HeldBy s file
        → offset < u64_mod
        → Returns (IsRead file offset n) Allowed (read_at h usize_mod s offset n).0
          × HeldBy (read_at h usize_mod s offset n).1 file
    unfolding read_at
    read_at-Serves (plain w) file offset n q small = serves.reads w file offset n q small
    read_at-Serves (buffered r) file offset n q small =
        (read_ahead-Serves h usize_mod Holds Allowed serves wide).reads r file offset n q small

    pub read_handle-Serves : Serves (read_handle h usize_mod) HeldBy Allowed
    read_handle-Serves = record { reads = read_at-Serves }

  pub wrapped-HeldBy :
      (read_ahead : ℕ) (w : W) (file : List ℕ)
      → length file < u64_mod
      → Holds w file
      → HeldBy (wrapped read_ahead w) file
  wrapped-HeldBy read_ahead w file sized q = elim (Bool-cases (ltb 0 read_ahead)) [
    | inl t ↦ rw t (record { held = q; window = empty-WindowOf file; sized = sized })
    | inr t ↦ rw t q
  ]

-- What was written, beside the handle.
abbrev pub WrittenBy : {W : Type 0} → (W → List ℕ → Type 0) → ReadHandle W → List ℕ → Type 0
WrittenBy Written s written = Written (unwrapped s) written

module _ {W : Type 0} (h : FileHandle W) (usize_mod : ℕ) (write : List ℕ → Run W (Unit {0}))
    (Holds : W → List ℕ → Type 0) (Written : W → List ℕ → Type 0) (Allowed : Error → Type 0)
    (serves : Serves h Holds Allowed) (sink : Appends h write Holds Written Allowed)
    (wide : u64_mod ≤ usize_mod) where
  -- The file, and what was written beside it.
  abbrev Both : List ℕ → W → List ℕ → Type 0
  Both written w file = Holds w file × Written w written

  Both-Serves : (written : List ℕ) → Serves h (Both written) Allowed
  Both-Serves written = record {
    reads = λ w file offset n (q, o) small.
        let (p, q') = serves.reads w file offset n q small in
        (p, (q', sink.reads_apart w file written offset n q small o));
  }

  HeldBy-Both :
      (s : ReadHandle W) (file written : List ℕ)
      → HeldBy Holds s file
      → WrittenBy Written s written
      → HeldBy (Both written) s file
  HeldBy-Both (plain w) file written q o = (q, o)
  HeldBy-Both (buffered r) file written q o = record {
    held = (q.held, o);
    window = q.window;
    sized = q.sized;
  }

  Both-WrittenBy :
      (s : ReadHandle W) (file written : List ℕ)
      → HeldBy (Both written) s file
      → WrittenBy Written s written
  Both-WrittenBy (plain w) file written q = q.1
  Both-WrittenBy (buffered r) file written q = q.held.1

  writes_by :
      (s : ReadHandle W) (file written bytes : List ℕ)
      → HeldBy Holds s file
      → WrittenBy Written s written
      → Returns
          (λ _. WrittenBy Written (beside (write bytes) s).1 (written ++ bytes))
          Allowed
          (beside (write bytes) s).0
        × HeldBy Holds (beside (write bytes) s).1 file
  writes_by (plain w) file written bytes q o = sink.writes w file written bytes q o
  writes_by (buffered r) file written bytes q o =
      let (p, q') = sink.writes r.inner file written bytes q.held o in
      (p, record { held = q'; window = q.window; sized = q.sized })

  reads_apart_by :
      (s : ReadHandle W) (file written : List ℕ) (offset n : ℕ)
      → HeldBy Holds s file
      → offset < u64_mod
      → WrittenBy Written s written
      → WrittenBy Written (read_at h usize_mod s offset n).1 written
  reads_apart_by s file written offset n q small o =
      Both-WrittenBy (read_at h usize_mod s offset n).1 file written
        (read_at-Serves (Both written) h usize_mod Allowed (Both-Serves written) wide s file offset
          n (HeldBy-Both s file written q o) small).1

  pub beside-Appends :
      Appends
        (read_handle h usize_mod)
        (λ bytes. beside (write bytes))
        (HeldBy Holds)
        (WrittenBy Written)
        Allowed
  beside-Appends = record { writes = writes_by; reads_apart = reads_apart_by }
