-- ===== src/Smb/Errors/Statuses.antt =====
-- A status of a server means the same to a caller through whichever channel it comes.
use krystallos.Common.{
  ap, ◌∙◌, Option, ℕ, ◌≡◌, refl, none, some, false, ◌==◌, Text, ℤ, if◌then◌else◌, if_both,
}
use krystallos.Core.Error.{Error, is_fatal_to_session}
use krystallos.Smb.Errors.{
  Errno, from_status, status_token, status_from_name, from_token, from_parts,
}
use krystallos.Smb.Errors.Status.{
  Status, spelling, number, meaning, ends_session, object_name_not_found, object_path_not_found,
  no_such_file, bad_network_name, access_denied, network_access_denied, object_name_collision,
  not_a_directory_status, file_is_a_directory, directory_not_empty_status, cannot_delete,
  logon_failure, account_restriction, account_disabled, password_expired, network_name_deleted,
  user_session_deleted, connection_disconnected, connection_reset, network_session_expired,
  not_supported,
}

from_status-number :
    (s : Status) (message path : Text)
    → from_status (number s) message path ≡ some (meaning s message path)
unfolding from_status
from_status-number object_name_not_found message path = refl
from_status-number object_path_not_found message path = refl
from_status-number no_such_file message path = refl
from_status-number bad_network_name message path = refl
from_status-number access_denied message path = refl
from_status-number network_access_denied message path = refl
from_status-number object_name_collision message path = refl
from_status-number not_a_directory_status message path = refl
from_status-number file_is_a_directory message path = refl
from_status-number directory_not_empty_status message path = refl
from_status-number cannot_delete message path = refl
from_status-number logon_failure message path = refl
from_status-number account_restriction message path = refl
from_status-number account_disabled message path = refl
from_status-number password_expired message path = refl
from_status-number network_name_deleted message path = refl
from_status-number user_session_deleted message path = refl
from_status-number connection_disconnected message path = refl
from_status-number connection_reset message path = refl
from_status-number network_session_expired message path = refl
from_status-number not_supported message path = refl

status_from_name-spelling : (s : Status) → status_from_name (spelling s) ≡ some (number s)
unfolding status_from_name
status_from_name-spelling object_name_not_found = refl
status_from_name-spelling object_path_not_found = refl
status_from_name-spelling no_such_file = refl
status_from_name-spelling bad_network_name = refl
status_from_name-spelling access_denied = refl
status_from_name-spelling network_access_denied = refl
status_from_name-spelling object_name_collision = refl
status_from_name-spelling not_a_directory_status = refl
status_from_name-spelling file_is_a_directory = refl
status_from_name-spelling directory_not_empty_status = refl
status_from_name-spelling cannot_delete = refl
status_from_name-spelling logon_failure = refl
status_from_name-spelling account_restriction = refl
status_from_name-spelling account_disabled = refl
status_from_name-spelling password_expired = refl
status_from_name-spelling network_name_deleted = refl
status_from_name-spelling user_session_deleted = refl
status_from_name-spelling connection_disconnected = refl
status_from_name-spelling connection_reset = refl
status_from_name-spelling network_session_expired = refl
status_from_name-spelling not_supported = refl

number-nonzero : (s : Status) → (number s == 0) ≡ false
number-nonzero object_name_not_found = refl
number-nonzero object_path_not_found = refl
number-nonzero no_such_file = refl
number-nonzero bad_network_name = refl
number-nonzero access_denied = refl
number-nonzero network_access_denied = refl
number-nonzero object_name_collision = refl
number-nonzero not_a_directory_status = refl
number-nonzero file_is_a_directory = refl
number-nonzero directory_not_empty_status = refl
number-nonzero cannot_delete = refl
number-nonzero logon_failure = refl
number-nonzero account_restriction = refl
number-nonzero account_disabled = refl
number-nonzero password_expired = refl
number-nonzero network_name_deleted = refl
number-nonzero user_session_deleted = refl
number-nonzero connection_disconnected = refl
number-nonzero connection_reset = refl
number-nonzero network_session_expired = refl
number-nonzero not_supported = refl

meaning-fatal :
    (s : Status) (message path : Text)
    → is_fatal_to_session (meaning s message path) ≡ ends_session s
unfolding is_fatal_to_session
meaning-fatal object_name_not_found message path = refl
meaning-fatal object_path_not_found message path = refl
meaning-fatal no_such_file message path = refl
meaning-fatal bad_network_name message path = refl
meaning-fatal access_denied message path = refl
meaning-fatal network_access_denied message path = refl
meaning-fatal object_name_collision message path = refl
meaning-fatal not_a_directory_status message path = refl
meaning-fatal file_is_a_directory message path = refl
meaning-fatal directory_not_empty_status message path = refl
meaning-fatal cannot_delete message path = refl
meaning-fatal logon_failure message path = refl
meaning-fatal account_restriction message path = refl
meaning-fatal account_disabled message path = refl
meaning-fatal password_expired message path = refl
meaning-fatal network_name_deleted message path = refl
meaning-fatal user_session_deleted message path = refl
meaning-fatal connection_disconnected message path = refl
meaning-fatal connection_reset message path = refl
meaning-fatal network_session_expired message path = refl
meaning-fatal not_supported message path = refl

from_token-code :
    (message path name : Text) (code : ℕ)
    → status_from_name name ≡ some code
    → from_token message path (some name) ≡ from_status code message path
from_token-code message path name code e =
    ap
      (λ (o : Option ℕ). elim o as (λ x. Option Error) [
        | none ↦ none
        | some c ↦ from_status c message path
      ])
      e

-- Each of the twenty-one statuses means the same to a caller through both channels: as the numeric status,
-- whatever the message and the return value say, and as the name that stands first in the message, whatever
-- the return value says, where the number is zero or one that no class takes, such as a stale
-- one. The error ends the session exactly for the nine that reject the user or say that the session or the
-- share is gone.
pub from_parts_status :
    (e : Errno) (status_text : ℕ → Text) (s : Status) (stale : ℕ) (rc : ℤ)
    (message said path : Text)
    → from_status stale said path ≡ none
    → status_token said ≡ some (spelling s)
    → (from_parts e status_text (number s) rc message path ≡ meaning s message path)
      × (from_parts e status_text stale rc said path ≡ meaning s said path)
      × (is_fatal_to_session (from_parts e status_text (number s) rc message path) ≡ ends_session s)
      × (is_fatal_to_session (from_parts e status_text stale rc said path) ≡ ends_session s)
unfolding from_parts
from_parts_status e status_text s stale rc message said path unknown named = (
  numbered,
  spelled,
  rw numbered (meaning-fatal s message path),
  rw spelled (meaning-fatal s said path),
)
  where
    numbered : from_parts e status_text (number s) rc message path ≡ meaning s message path
    numbered = rw (number-nonzero s, from_status-number s message path) refl

    silent : (if stale == 0 then none else from_status stale said path) ≡ none
    silent = if_both (λ o. o ≡ none) (stale == 0) none (from_status stale said path) refl unknown

    by_token : from_token said path (status_token said) ≡ some (meaning s said path)
    by_token =
        ap (from_token said path) named
        ∙ from_token-code said path (spelling s) (number s) (status_from_name-spelling s)
        ∙ from_status-number s said path

    spelled : from_parts e status_text stale rc said path ≡ meaning s said path
    spelled = rw (silent, by_token) refl
