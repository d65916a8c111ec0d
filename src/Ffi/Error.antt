-- ===== src/Ffi/Error.antt =====
-- crates/krystallos-ffi/src/error.rs: the errors that cross the boundary.
use krystallos.Common.{Text}
use krystallos.Core.Error.{Error, IoKind}

pub data KernelError : Type 0 where
  not_found : Text → KernelError
  permission_denied : Text → KernelError
  already_exists : Text → KernelError
  not_a_directory : Text → KernelError
  is_a_directory : Text → KernelError
  directory_not_empty : Text → KernelError
  invalid_path : Text → Text → KernelError
  unsupported : Text → KernelError
  connection_lost : Text → KernelError
  auth : Text → KernelError
  backend : Text → KernelError

pub data Outcome (A : Type 0) : Type 0 where
  ok : A → Outcome A
  err : KernelError → Outcome A

-- `From<CoreError>`; `io_text` is the `Display` of a `std::io::Error`.
unfoldable pub from_core : (IoKind → Text) → Error → KernelError
from_core io_text (Error.not_found p) = not_found p
from_core io_text (Error.permission_denied p) = permission_denied p
from_core io_text (Error.already_exists p) = already_exists p
from_core io_text (Error.not_a_directory p) = not_a_directory p
from_core io_text (Error.is_a_directory p) = is_a_directory p
from_core io_text (Error.directory_not_empty p) = directory_not_empty p
from_core io_text (Error.invalid_path p reason) = invalid_path p reason
from_core io_text (Error.unsupported operation) = unsupported operation
from_core io_text (Error.connection_lost message) = connection_lost message
from_core io_text (Error.auth message) = auth message
from_core io_text (Error.backend message) = backend message
from_core io_text (Error.io kind) = backend (io_text kind)
