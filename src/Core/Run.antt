-- ===== src/Core/Run.antt =====
-- Calls that run in a world `W` and may fail: an `async fn` of the crates is run to its end, and a `?`
-- is the bind.
use krystallos.Core.Error.{Error, Result, ok, err}

abbrev pub Run : Type 0 → Type 0 → Type 0
Run W A = W → Result A × W

-- What follows a call: nothing behind an error.
abbrev pub after {ℓ} :
    {W A : Type 0} {B : Type ℓ} → (A → W → Result B × W) → Result A × W → Result B × W
after next (ok a, w) = next a w
after next (err e, w) = (err e, w)

infixl 5 ◌>>=◌ ◌>>◌
abbrev pub ◌>>=◌ : {W A B : Type 0} → Run W A → (A → Run W B) → Run W B
◌>>=◌ call next w = after next (call w)

abbrev pub ◌>>◌ : {W B : Type 0} → Run W (Unit {0}) → Run W B → Run W B
◌>>◌ call next w = after (λ _. next) (call w)

abbrev pub return : {W A : Type 0} → A → Run W A
return a w = (ok a, w)

abbrev pub throw : {W A : Type 0} → Error → Run W A
throw e w = (err e, w)

-- `?` on a value that is no call.
abbrev pub lift : {W A : Type 0} → Result A → Run W A
lift r w = (r, w)

-- `map_err`.
abbrev pub map_error : {A : Type 0} → (Error → Error) → Result A → Result A
map_error f (ok a) = ok a
map_error f (err e) = err (f e)
