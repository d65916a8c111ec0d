-- ===== src/Smb/Errors/Status.antt =====
-- The statuses of a server by name, and what each means to a caller.
use krystallos.Common.{Bool, true, false, ℕ, Text, codes}
use krystallos.Core.Error.{
  Error, not_found, permission_denied, already_exists, not_a_directory, is_a_directory,
  directory_not_empty, unsupported, connection_lost, auth,
}
use krystallos.Smb.Errors.{auth_message, operation_reason}

-- The NT statuses that libsmb2 writes into its messages and a caller is told of, as [MS-ERREF] calls them.
pub data Status : Type 0 where
  object_name_not_found : Status
  object_path_not_found : Status
  no_such_file : Status
  bad_network_name : Status
  access_denied : Status
  network_access_denied : Status
  object_name_collision : Status
  not_a_directory_status : Status
  file_is_a_directory : Status
  directory_not_empty_status : Status
  cannot_delete : Status
  logon_failure : Status
  account_restriction : Status
  account_disabled : Status
  password_expired : Status
  network_name_deleted : Status
  user_session_deleted : Status
  connection_disconnected : Status
  connection_reset : Status
  network_session_expired : Status
  not_supported : Status

-- As libsmb2 spells them.
abbrev pub spelling : Status → Text
spelling object_name_not_found = codes "STATUS_OBJECT_NAME_NOT_FOUND"
spelling object_path_not_found = codes "STATUS_OBJECT_PATH_NOT_FOUND"
spelling no_such_file = codes "STATUS_NO_SUCH_FILE"
spelling bad_network_name = codes "STATUS_BAD_NETWORK_NAME"
spelling access_denied = codes "STATUS_ACCESS_DENIED"
spelling network_access_denied = codes "STATUS_NETWORK_ACCESS_DENIED"
spelling object_name_collision = codes "STATUS_OBJECT_NAME_COLLISION"
spelling not_a_directory_status = codes "STATUS_NOT_A_DIRECTORY"
spelling file_is_a_directory = codes "STATUS_FILE_IS_A_DIRECTORY"
spelling directory_not_empty_status = codes "STATUS_DIRECTORY_NOT_EMPTY"
spelling cannot_delete = codes "STATUS_CANNOT_DELETE"
spelling logon_failure = codes "STATUS_LOGON_FAILURE"
spelling account_restriction = codes "STATUS_ACCOUNT_RESTRICTION"
spelling account_disabled = codes "STATUS_ACCOUNT_DISABLED"
spelling password_expired = codes "STATUS_PASSWORD_EXPIRED"
spelling network_name_deleted = codes "STATUS_NETWORK_NAME_DELETED"
spelling user_session_deleted = codes "STATUS_USER_SESSION_DELETED"
spelling connection_disconnected = codes "STATUS_CONNECTION_DISCONNECTED"
spelling connection_reset = codes "STATUS_CONNECTION_RESET"
spelling network_session_expired = codes "STATUS_NETWORK_SESSION_EXPIRED"
spelling not_supported = codes "STATUS_NOT_SUPPORTED"

-- As [MS-ERREF] numbers them.
abbrev pub number : Status → ℕ
number object_name_not_found = 0xC0000034
number object_path_not_found = 0xC000003A
number no_such_file = 0xC000000F
number bad_network_name = 0xC00000CC
number access_denied = 0xC0000022
number network_access_denied = 0xC00000CA
number object_name_collision = 0xC0000035
number not_a_directory_status = 0xC0000103
number file_is_a_directory = 0xC00000BA
number directory_not_empty_status = 0xC0000101
number cannot_delete = 0xC0000121
number logon_failure = 0xC000006D
number account_restriction = 0xC000006E
number account_disabled = 0xC0000072
number password_expired = 0xC0000071
number network_name_deleted = 0xC00000C9
number user_session_deleted = 0xC0000203
number connection_disconnected = 0xC000020C
number connection_reset = 0xC000020D
number network_session_expired = 0xC000035C
number not_supported = 0xC00000BB

-- What a caller is to be told, with the message of libsmb2 and the path of the operation.
abbrev pub meaning : Status → Text → Text → Error
meaning object_name_not_found message path = not_found path
meaning object_path_not_found message path = not_found path
meaning no_such_file message path = not_found path
meaning bad_network_name message path = not_found path
meaning access_denied message path = permission_denied path
meaning network_access_denied message path = permission_denied path
meaning object_name_collision message path = already_exists path
meaning not_a_directory_status message path = not_a_directory path
meaning file_is_a_directory message path = is_a_directory path
meaning directory_not_empty_status message path = directory_not_empty path
meaning cannot_delete message path = is_a_directory path
meaning logon_failure message path = auth (auth_message message)
meaning account_restriction message path = auth (auth_message message)
meaning account_disabled message path = auth (auth_message message)
meaning password_expired message path = auth (auth_message message)
meaning network_name_deleted message path = connection_lost message
meaning user_session_deleted message path = connection_lost message
meaning connection_disconnected message path = connection_lost message
meaning connection_reset message path = connection_lost message
meaning network_session_expired message path = connection_lost message
meaning not_supported message path = unsupported operation_reason

-- The server rejected the user, or the session or the share under it is gone.
abbrev pub ends_session : Status → Bool
ends_session logon_failure = true
ends_session account_restriction = true
ends_session account_disabled = true
ends_session password_expired = true
ends_session network_name_deleted = true
ends_session user_session_deleted = true
ends_session connection_disconnected = true
ends_session connection_reset = true
ends_session network_session_expired = true
ends_session _ = false
