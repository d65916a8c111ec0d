-- ===== src/Smb/Tests/Errors.antt =====
-- Failures of a server.
use krystallos.Common.{[], ◌≡◌, refl, none, some, true, Text, codes, negsuc}
use krystallos.Core.Error.{connection_lost, is_fatal_to_session}
use krystallos.Smb.Errors.{windows_errno, from_parts, from_status, status_token}
use krystallos.Smb.Errors.Classes.{NamesPath, from_parts-NamesPath}
use krystallos.Smb.Errors.Status.{spelling, network_session_expired}
use krystallos.Smb.Errors.Statuses.{from_parts_status}

from_parts-NamesPath_example :
    NamesPath
      (codes "/a")
      (from_parts windows_errno (λ n. []) 0xC0000034 (negsuc 1) [] (codes "/a"))
from_parts-NamesPath_example =
    from_parts-NamesPath windows_errno (λ n. []) 0xC0000034 (negsuc 1) [] (codes "/a")

-- A number that an earlier call left behind, and the status in the message.
abbrev said : Text
said = codes "Create failed with status STATUS_NETWORK_SESSION_EXPIRED."

stale_number : from_status 1 said (codes "/a") ≡ none
unfolding from_status
stale_number = refl

expired_token : status_token said ≡ some (spelling network_session_expired)
unfolding status_token
expired_token = refl

from_parts_status_example :
    (from_parts windows_errno (λ n. []) 0xC000035C (negsuc 1) [] (codes "/a") ≡ connection_lost [])
    × (from_parts windows_errno (λ n. []) 1 (negsuc 1) said (codes "/a") ≡ connection_lost said)
    × (is_fatal_to_session
          (from_parts windows_errno (λ n. []) 0xC000035C (negsuc 1) [] (codes "/a"))
        ≡ true)
    × (is_fatal_to_session (from_parts windows_errno (λ n. []) 1 (negsuc 1) said (codes "/a"))
        ≡ true)
from_parts_status_example =
    from_parts_status windows_errno (λ n. []) network_session_expired 1 (negsuc 1) [] said
      (codes "/a") stale_number expired_token

abbrev no_message : Text
no_message = []

no_code : from_status 0 [] (codes "/a") ≡ none
unfolding from_status
no_code = refl
