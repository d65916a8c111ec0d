-- ===== src/Cli/Transfer/Zero.antt =====
-- A transfer in chunks of no bytes.
use krystallos.Common.{ℕ, suc, List, [], ◌∷◌, ◌≡◌, refl, Option, none, some, arith}
use krystallos.Core.Error.{Error, Result, ok, err}
use krystallos.Core.FileHandle.{FileHandle}
use krystallos.Core.FileHandle.Contract.{IsRead, Returns, Serves}
use krystallos.Core.Run.{Run}
use krystallos.Cli.Transfer.{after_read, transfer_loop}
use krystallos.Cli.Transfer.Whole.{Appends}

-- A success that counted no byte and wrote none; or a read failed.
abbrev pub Nothing :
    {S : Type 0}
    → (S → List ℕ → Type 0)
    → (Error → Type 0)
    → List ℕ
    → Option (Result ℕ × S)
    → Type 0
Nothing Written Allowed before none = ⊥
Nothing Written Allowed before (some (ok n, s)) = (n ≡ 0) × Written s before
Nothing Written Allowed before (some (err e, s)) = Allowed e

after_read-Nothing :
    {S : Type 0} (Written : S → List ℕ → Type 0) (Allowed : Error → Type 0)
    (again : ℕ → S → Option (Result ℕ × S)) (write : List ℕ → Run S (Unit {0}))
    (file before : List ℕ) (out : Result (List ℕ) × S)
    → Returns (IsRead file 0 0) Allowed out.0
    → Written out.1 before
    → Nothing Written Allowed before (after_read again write 0 out)
after_read-Nothing Written Allowed again write file before (err e, s) p w = p
after_read-Nothing Written Allowed again write file before (ok [], s) p w = (refl, w)
after_read-Nothing Written Allowed again write file before (ok (b ∷ bs), s) p w =
    absurd (omega (arith, p.fits))

-- With a chunk of zero bytes the loop of `cat` and `get` ends at once as a success with nothing written,
-- whatever the file: a read of no bytes looks like the end of the file.
pub transfer_loop_zero :
    {S : Type 0} (h : FileHandle S) (write : List ℕ → Run S (Unit {0}))
    (Holds : S → List ℕ → Type 0) (Written : S → List ℕ → Type 0) (Allowed : Error → Type 0)
    → Serves h Holds Allowed
    → Appends h write Holds Written Allowed
    → (file before : List ℕ) (fuel : ℕ) (s : S) → Holds s file
    → Written s before
    → Nothing Written Allowed before (transfer_loop h write 0 (suc fuel) 0 s)
unfolding transfer_loop
transfer_loop_zero h write Holds Written Allowed serves sink file before fuel s q w =
    after_read-Nothing Written Allowed (transfer_loop h write 0 fuel) write file before
      (h.read_at s 0 0) (serves.reads s file 0 0 q (omega arith)).0
      (sink.reads_apart s file before 0 0 q (omega arith) w)
