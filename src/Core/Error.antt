-- ===== src/Core/Error.antt =====
-- crates/krystallos-core/src/error.rs: the errors of every backend, as values.
use krystallos.Common.{Text, Bool, true, false, codes, ◌++◌}

-- The kinds of `std::io::Error` that the crates name, and the rest.
pub data IoKind : Type 0 where
  interrupted unexpected_eof other_kind : IoKind

pub data Error : Type 0 where
  not_found : Text → Error
  permission_denied : Text → Error
  already_exists : Text → Error
  not_a_directory : Text → Error
  is_a_directory : Text → Error
  directory_not_empty : Text → Error
  invalid_path : Text → Text → Error
  unsupported : Text → Error
  connection_lost : Text → Error
  auth : Text → Error
  backend : Text → Error
  io : IoKind → Error

pub data Result {ℓ} (A : Type ℓ) : Type ℓ where
  ok : A → Result A
  err : Error → Result A

-- The `?` of a call that returns early: what follows it runs on the value.
infixl 5 ◌>>=◌
abbrev pub ◌>>=◌ {ℓ κ} : {A : Type ℓ} {B : Type κ} → Result A → (A → Result B) → Result B
err failure >>= next = err failure
ok value >>= next = next value

unfoldable pub is_retryable : Error → Bool
is_retryable (io interrupted) = true
is_retryable _ = false

unfoldable pub is_fatal_to_session : Error → Bool
is_fatal_to_session (connection_lost m) = true
is_fatal_to_session (auth m) = true
is_fatal_to_session _ = false

-- `Display`, from the `#[error]` of each variant; `io_text` is that of a `std::io::Error`.
unfoldable pub display : (IoKind → Text) → Error → Text
display io_text (not_found path) = codes "not found: " ++ path
display io_text (permission_denied path) = codes "permission denied: " ++ path
display io_text (already_exists path) = codes "already exists: " ++ path
display io_text (not_a_directory path) = codes "not a directory: " ++ path
display io_text (is_a_directory path) = codes "is a directory: " ++ path
display io_text (directory_not_empty path) = codes "directory not empty: " ++ path
display io_text (invalid_path path reason) =
    codes "path not representable on this backend: "
    ++ (path ++ (codes " (" ++ (reason ++ codes ")")))
display io_text (unsupported operation) =
    codes "operation not supported by this backend: " ++ operation
display io_text (connection_lost message) = codes "connection lost: " ++ message
display io_text (auth message) = codes "authentication failed: " ++ message
display io_text (backend message) = codes "backend error: " ++ message
display io_text (io kind) = io_text kind

-- The value of a success meets `P`.
abbrev pub Ensures {ℓ κ} : {A : Type ℓ} → (A → Type κ) → Result A → Type κ
Ensures P (ok a) = P a
Ensures P (err e) = Unit

pub Ensures-bind {ℓ κ μ ν} :
    {A : Type ℓ} {B : Type κ} (Q : A → Type μ) (P : B → Type ν) (m : Result A) (f : A → Result B)
    → Ensures Q m
    → ((a : A) → Q a → Ensures P (f a))
    → Ensures P (m >>= f)
Ensures-bind Q P (ok a) f h k = k a h
Ensures-bind Q P (err e) f h k = tt
