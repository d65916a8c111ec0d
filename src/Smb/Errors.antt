-- ===== src/Smb/Errors.antt =====
-- crates/krystallos-smb/src/error.rs: one error of the crate from the three channels of libsmb2.
pub mod Classes
pub mod Status
pub mod Statuses
use krystallos.Common.{
  trim_start, trim_end, ℕ, List, [], ◌∷◌, ◌++◌, Option, none, some, Bool, true, false, not, ◌&&◌,
  ◌||◌, ◌==◌, leb, if◌then◌else◌, ◌+◌, Text, codes, text_eq, null, member, starts_with, decimal, ℤ,
  pos, negsuc, is_zero, is_minus_one, int_eq, neg_i32,
}
use krystallos.Core.Error.{
  Error, not_found, permission_denied, already_exists, not_a_directory, is_a_directory,
  directory_not_empty, invalid_path, unsupported, connection_lost, auth, backend, io,
}

-- `mod status`, by the class that `from_status` puts each code in.
abbrev pub missing : List ℕ
missing = 0xC0000034 ∷ 0xC000003A ∷ 0xC000000F ∷ 0xC00000CC ∷ []

abbrev pub denied : List ℕ
denied = 0xC0000022 ∷ 0xC00000CA ∷ []

abbrev pub collision : ℕ
collision = 0xC0000035

abbrev pub no_directory : ℕ
no_directory = 0xC0000103

abbrev pub a_directory : List ℕ
a_directory = 0xC00000BA ∷ 0xC0000121 ∷ []

abbrev pub not_empty : ℕ
not_empty = 0xC0000101

abbrev pub rejected : List ℕ
rejected = 0xC000006D ∷ 0xC000006E ∷ 0xC0000072 ∷ 0xC0000071 ∷ []

abbrev pub gone : List ℕ
gone = 0xC00000C9 ∷ 0xC0000203 ∷ 0xC000020C ∷ 0xC000020D ∷ 0xC000035C ∷ []

abbrev pub no_support : List ℕ
no_support = 0xC00000BB ∷ 0xC0000010 ∷ []

-- `errno` values, which differ between platforms; on unix they are those of the C library.
pub record Errno : Type 0 where
  pub enoent : ℕ
  pub eacces : ℕ
  pub einval : ℕ
  pub enotdir : ℕ
  pub eisdir : ℕ
  pub enotempty : ℕ
  pub econnrefused : ℕ

abbrev pub windows_errno : Errno
windows_errno = record {
  enoent = 2;
  eacces = 13;
  einval = 22;
  enotdir = 20;
  eisdir = 21;
  enotempty = 41;
  econnrefused = 107;
}

abbrev pub operation_reason : Text
operation_reason = codes "this operation on this server"

unfoldable pub auth_message : Text → Text
auth_message text =
    let detail = trim_end (trim_start text) in
    if null detail
    then codes "the server rejected the credentials"
    else codes "the server rejected the credentials (libsmb2 reported: " ++ (detail ++ codes ")")

-- `path` is the empty text where the source has `None`.
unfoldable pub from_status : ℕ → Text → Text → Option Error
from_status status message path =
    if member status missing
    then some (not_found path)
    else if member status denied
    then some (permission_denied path)
    else if status == collision
    then some (already_exists path)
    else if status == no_directory
    then some (not_a_directory path)
    else if member status a_directory
    then some (is_a_directory path)
    else if status == not_empty
    then some (directory_not_empty path)
    else if member status rejected
    then some (auth (auth_message message))
    else if member status gone
    then some (connection_lost message)
    else if member status no_support
    then some (unsupported operation_reason)
    else none

unfoldable pub from_errno : Errno → ℤ → Text → Text → Option Error
from_errno e errno message path =
    if int_eq errno (pos e.enoent)
    then some (not_found path)
    else if int_eq errno (pos e.eacces)
    then some (permission_denied path)
    else if int_eq errno (pos e.enotdir)
    then some (not_a_directory path)
    else if int_eq errno (pos e.eisdir)
    then some (is_a_directory path)
    else if int_eq errno (pos e.enotempty)
    then some (directory_not_empty path)
    else if int_eq errno (pos e.econnrefused)
    then some (auth (auth_message message))
    else if int_eq errno (pos e.einval)
    then some (unsupported operation_reason)
    else none

abbrev pub status_prefix : Text
status_prefix = codes "STATUS_"

abbrev pub is_token_byte : ℕ → Bool
is_token_byte c = (leb b'A' c && leb c b'Z') || (leb b'0' c && leb c b'9') || c == b'_'

abbrev pub take_token : Text → Text
take_token [] = []
take_token (c ∷ s) = let rest = take_token s in if is_token_byte c then c ∷ rest else []

-- The identifier at the first `STATUS_` of the message.
unfoldable pub status_token : Text → Option Text
status_token [] = none
status_token (c ∷ s) =
    let later = status_token s in
    if starts_with status_prefix (c ∷ s) then some (take_token (c ∷ s)) else later

abbrev pub lookup_name : Text → List (Text × ℕ) → Option ℕ
lookup_name name [] = none
lookup_name name ((n, code) ∷ rest) =
    let later = lookup_name name rest in if text_eq name n then some code else later

abbrev pub status_names : List (Text × ℕ)
status_names =
    (codes "STATUS_OBJECT_NAME_NOT_FOUND", 0xC0000034)
    ∷ (codes "STATUS_OBJECT_PATH_NOT_FOUND", 0xC000003A)
    ∷ (codes "STATUS_NO_SUCH_FILE", 0xC000000F)
    ∷ (codes "STATUS_BAD_NETWORK_NAME", 0xC00000CC)
    ∷ (codes "STATUS_ACCESS_DENIED", 0xC0000022)
    ∷ (codes "STATUS_NETWORK_ACCESS_DENIED", 0xC00000CA)
    ∷ (codes "STATUS_OBJECT_NAME_COLLISION", 0xC0000035)
    ∷ (codes "STATUS_NOT_A_DIRECTORY", 0xC0000103)
    ∷ (codes "STATUS_FILE_IS_A_DIRECTORY", 0xC00000BA)
    ∷ (codes "STATUS_DIRECTORY_NOT_EMPTY", 0xC0000101)
    ∷ (codes "STATUS_CANNOT_DELETE", 0xC0000121)
    ∷ (codes "STATUS_LOGON_FAILURE", 0xC000006D)
    ∷ (codes "STATUS_ACCOUNT_RESTRICTION", 0xC000006E)
    ∷ (codes "STATUS_ACCOUNT_DISABLED", 0xC0000072)
    ∷ (codes "STATUS_PASSWORD_EXPIRED", 0xC0000071)
    ∷ (codes "STATUS_NETWORK_NAME_DELETED", 0xC00000C9)
    ∷ (codes "STATUS_USER_SESSION_DELETED", 0xC0000203)
    ∷ (codes "STATUS_CONNECTION_DISCONNECTED", 0xC000020C)
    ∷ (codes "STATUS_CONNECTION_RESET", 0xC000020D)
    ∷ (codes "STATUS_NETWORK_SESSION_EXPIRED", 0xC000035C)
    ∷ (codes "STATUS_NOT_SUPPORTED", 0xC00000BB)
    ∷ []

unfoldable pub status_from_name : Text → Option ℕ
status_from_name name = lookup_name name status_names

abbrev pub tap_path : Text → Error → Error
tap_path [] e = e
tap_path (c ∷ path) (not_found _) = not_found (c ∷ path)
tap_path (c ∷ path) (permission_denied _) = permission_denied (c ∷ path)
tap_path (c ∷ path) (already_exists _) = already_exists (c ∷ path)
tap_path (c ∷ path) (not_a_directory _) = not_a_directory (c ∷ path)
tap_path (c ∷ path) (is_a_directory _) = is_a_directory (c ∷ path)
tap_path (c ∷ path) (directory_not_empty _) = directory_not_empty (c ∷ path)
tap_path (c ∷ path) (invalid_path p r) = invalid_path p r
tap_path (c ∷ path) (unsupported o) = unsupported o
tap_path (c ∷ path) (connection_lost m) = connection_lost m
tap_path (c ∷ path) (auth m) = auth m
tap_path (c ∷ path) (backend m) = backend m
tap_path (c ∷ path) (io k) = io k

abbrev pub decimal_int : ℤ → Text
decimal_int (pos n) = decimal n
decimal_int (negsuc n) = b'-' ∷ decimal (n + 1)

-- The text of a failure that no channel describes. `status_text` is libsmb2's table of names.
unfoldable pub no_description : (ℕ → Text) → ℕ → ℤ → Text
no_description status_text nterror rc =
    if not (nterror == 0)
    then codes "SMB operation failed with no description ("
      ++ (status_text nterror ++ (codes ", errno " ++ (decimal_int (neg_i32 rc) ++ codes ")")))
    else codes "SMB operation failed with no description (errno "
      ++ (decimal_int (neg_i32 rc) ++ codes ")")

-- The first channel that classifies the failure decides; the next is asked where it is silent.
abbrev pub or_else : Option Error → Error → Error
or_else (some e) next = e
or_else none next = next

abbrev pub from_token : Text → Text → Option Text → Option Error
from_token message path none = none
from_token message path (some token) = elim (status_from_name token) [
  | none ↦ none
  | some code ↦ from_status code message path
]

unfoldable pub from_rc : Errno → ℤ → Text → Text → Option Error
from_rc e rc message path =
    if is_zero rc
    then none
    else if is_minus_one rc
    then some
        (connection_lost (if null message then codes "the SMB connection was lost" else message))
    else from_errno e (neg_i32 rc) message path

unfoldable pub from_parts : Errno → (ℕ → Text) → ℕ → ℤ → Text → Text → Error
from_parts e status_text nterror rc message path =
    or_else (if nterror == 0 then none else from_status nterror message path) (
      or_else (from_token message path (status_token message)) (
        or_else (from_rc e rc message path) (
          tap_path path
            (backend (if null message then no_description status_text nterror rc else message)))))
