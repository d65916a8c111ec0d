-- ===== src/Ffi/Call.antt =====
-- Calls of the facade: they run in the state of an object and raise a `KernelError`, into which a `?`
-- turns an error of the kernel.
use krystallos.Core.Error
use krystallos.Core.Error.{Result, IoKind}
use krystallos.Common.{Text}
use krystallos.Ffi.Error.{Outcome, ok, err, from_core}

abbrev pub Call : Type 0 → Type 0 → Type 0
Call S A = S → Outcome A × S

abbrev pub after : {S A B : Type 0} → (A → Call S B) → Outcome A × S → Outcome B × S
after next (ok a, s) = next a s
after next (err e, s) = (err e, s)

infixl 5 ◌>>=◌ ◌>>◌
abbrev pub ◌>>=◌ : {S A B : Type 0} → Call S A → (A → Call S B) → Call S B
◌>>=◌ call next s = after next (call s)

abbrev pub ◌>>◌ : {S B : Type 0} → Call S (Unit {0}) → Call S B → Call S B
◌>>◌ call next s = after (λ _. next) (call s)

abbrev pub return : {S A : Type 0} → A → Call S A
return a s = (ok a, s)

abbrev pub converted : {A : Type 0} → (IoKind → Text) → Result A → Outcome A
converted io_text (Error.ok a) = ok a
converted io_text (Error.err e) = err (from_core io_text e)
