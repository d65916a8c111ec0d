-- ===== src/Cli/Commands/Streamed.antt =====
-- What the loop of `cat` leaves on standard output, with what follows it.
use krystallos.Common.{
  ℕ, ◌≤◌, ◌<◌, List, ◌++◌, Option, none, some, Bool-cases, length, u64_mod, ltb, inl, inr,
}
use krystallos.Core.Error.{Error, Result, ok, err}
use krystallos.Core.FileHandle.{FileHandle}
use krystallos.Core.FileHandle.Contract.{Returns, Serves}
use krystallos.Core.Run.{Run, after, ◌>>◌}
use krystallos.Core.Backend.{StorageBackend}
use krystallos.Cache.ReadAhead
use krystallos.Cache.ReadAhead.{read_ahead, with_window, invalidate}
use krystallos.Cli.Transfer.{
  ReadHandle, plain, buffered, wrapped, beside, close, read_handle, transfer_loop,
}
use krystallos.Cli.Transfer.Whole.{Appends, Whole, transfer_loop-Whole}
use krystallos.Cli.Commands.{settled, finish, out_of, transferred, stream}
use krystallos.Cli.Transfer.Handles.{
  HeldBy, read_handle-Serves, wrapped-HeldBy, WrittenBy, beside-Appends,
}

-- A call that leads from one view of what was written to another, or fails by an error that is allowed.
abbrev pub Leads :
    {W : Type 0}
    → (W → List ℕ → Type 0)
    → (W → List ℕ → Type 0)
    → (Error → Type 0)
    → Run W (Unit {0})
    → Type 0
Leads {W} Before After Allowed call =
    (w : W) (written : List ℕ)
    → Before w written
    → Returns (λ _. After (call w).1 written) Allowed (call w).0

-- A call that goes on from what was written: it stays, or the call fails by an error that is allowed.
abbrev pub Keeps :
    {W : Type 0} → (W → List ℕ → Type 0) → (Error → Type 0) → Run W (Unit {0}) → Type 0
Keeps Written Allowed call = Leads Written Written Allowed call

-- A success has exactly `written`, and a failure is one of the errors that `Allowed` holds of.
abbrev pub Printed :
    {W : Type 0}
    → (W → List ℕ → Type 0)
    → (Error → Type 0)
    → List ℕ
    → Option (Result (Unit {0}) × W)
    → Type 0
Printed Written Allowed written none = ⊥
Printed Written Allowed written (some (ok u, w)) = Written w written
Printed Written Allowed written (some (err e, w)) = Allowed e

module _ {W : Type 0} (h : FileHandle W) (usize_mod : ℕ) (write : List ℕ → Run W (Unit {0}))
    (Holds : W → List ℕ → Type 0) (Written : W → List ℕ → Type 0) (Allowed : Error → Type 0)
    (serves : Serves h Holds Allowed) (sink : Appends h write Holds Written Allowed)
    (wide : u64_mod ≤ usize_mod) where
  abbrev KeepsBy : Run (ReadHandle W) (Unit {0}) → Type 0
  KeepsBy call =
      (s : ReadHandle W) (written : List ℕ)
      → WrittenBy Written s written
      → Returns (λ _. WrittenBy Written (call s).1 written) Allowed (call s).0

  beside-Keeps : (call : Run W (Unit {0})) → Keeps Written Allowed call → KeepsBy (beside call)
  beside-Keeps call keeps (plain w) written o = keeps w written o
  beside-Keeps call keeps (buffered r) written o = keeps r.inner written o

  close-Keeps : Keeps Written Allowed h.close → KeepsBy (close h usize_mod)
  unfolding close ReadAhead.close invalidate
  close-Keeps keeps (plain w) written o = keeps w written o
  close-Keeps keeps (buffered r) written o = keeps r.inner written o

  then-Keeps :
      (next : Run (ReadHandle W) (Unit {0})) (written : List ℕ)
      (out : Result (Unit {0}) × ReadHandle W)
      → KeepsBy next
      → Returns (λ _. WrittenBy Written out.1 written) Allowed out.0
      → Printed Written Allowed written (some (out_of (after (λ _. next) out)))
  then-Keeps next written (err e, s) keeps p = p
  then-Keeps next written (ok u, s) keeps p = ends (next s) (keeps s written p)
    where
      ends :
          (out : Result (Unit {0}) × ReadHandle W)
          → Returns (λ _. WrittenBy Written out.1 written) Allowed out.0
          → Printed Written Allowed written (some (out_of out))
      ends (err e, s) p = p
      ends (ok u, s) p = p

  transferred-Printed :
      (next : Run (ReadHandle W) (Unit {0})) (file before : List ℕ)
      (out : Option (Result ℕ × ReadHandle W))
      → Whole (WrittenBy Written) Allowed file before out
      → ((s : ReadHandle W)
          → WrittenBy Written s (before ++ file)
          → Printed Written Allowed (before ++ file) (some (out_of (next s))))
      → Printed Written Allowed (before ++ file) (transferred next out)
  transferred-Printed next file before none p k = p
  transferred-Printed next file before (some (err e, s)) p k = p
  transferred-Printed next file before (some (ok n, s)) p k = k s p.1

  pub stream-Printed :
      (flush_it : Run W (Unit {0})) (read_ahead chunk fuel : ℕ) (file before : List ℕ) (w : W)
      → Keeps Written Allowed flush_it
      → Keeps Written Allowed h.close
      → 0 < chunk
      → length file < u64_mod
      → length file < fuel
      → Holds w file
      → Written w before
      → Printed Written Allowed
          (before ++ file)
          (stream usize_mod read_ahead chunk h write flush_it fuel w)
  unfolding stream
  stream-Printed flush_it read_ahead chunk fuel file before w flushes closes pos sized enough q o =
      transferred-Printed (beside flush_it >> close h usize_mod) file before
        (transfer_loop (read_handle h usize_mod) (λ bytes. beside (write bytes)) chunk fuel 0
          (wrapped read_ahead w))
        (transfer_loop-Whole (read_handle h usize_mod) (λ bytes. beside (write bytes))
          (HeldBy Holds) (WrittenBy Written) Allowed
          (read_handle-Serves Holds h usize_mod Allowed serves wide)
          (beside-Appends h usize_mod write Holds Written Allowed serves sink wide) file before
          chunk fuel (wrapped read_ahead w) pos sized enough
          (wrapped-HeldBy Holds read_ahead w file sized q) (wrapped-WrittenBy read_ahead))
        (λ s o'.
          then-Keeps (close h usize_mod) (before ++ file) (beside flush_it s) (close-Keeps closes)
            (beside-Keeps flush_it flushes s (before ++ file) o'))
    where
      wrapped-WrittenBy : (n : ℕ) → WrittenBy Written (wrapped n w) before
      wrapped-WrittenBy n = elim (Bool-cases (ltb 0 n)) [ inl t ↦ rw t o | inr t ↦ rw t o ]

settled-Printed :
    {W : Type 0} (Written : W → List ℕ → Type 0) (Allowed : Error → Type 0) (written : List ℕ)
    (out : Result (Unit {0}) × W)
    → Returns (λ _. Written out.1 written) Allowed out.0
    → Printed Written Allowed written (some (settled (ok tt) out))
settled-Printed Written Allowed written (err e, w) p = p
settled-Printed Written Allowed written (ok u, w) p = p

pub shut-Printed :
    {W : Type 0} (backend : StorageBackend W) (Written Final : W → List ℕ → Type 0)
    (Allowed : Error → Type 0) (written : List ℕ) (out : Option (Result (Unit {0}) × W))
    → Leads Written Final Allowed backend.shutdown
    → Printed Written Allowed written out
    → Printed Final Allowed written (finish backend out)
unfolding finish
shut-Printed backend Written Final Allowed written none leads p = p
shut-Printed backend Written Final Allowed written (some (err e, w)) leads p = p
shut-Printed backend Written Final Allowed written (some (ok u, w)) leads p =
    settled-Printed Final Allowed written (backend.shutdown w) (leads w written p)
