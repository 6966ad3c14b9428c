-- ===== src/Model/Status.antt =====
-- `ErrorCode` (include/common/error_code.h) and `RepositoryStatus` (include/db/user_repository.h).
use linux_server.Base.{Bool, true, false}

pub data ErrorCode : Type 0 where
  code_ok invalid_param invalid_json invalid_packet unknown_message_type : ErrorCode
  user_already_exists user_not_found wrong_password invalid_credentials : ErrorCode
  user_already_online : ErrorCode
  db_init_failed db_query_failed db_insert_failed : ErrorCode
  message_too_long user_not_online cannot_send_to_self not_logged_in : ErrorCode
  idempotency_conflict rate_limited : ErrorCode
  friend_request_already_exists friendship_already_exists friend_request_not_found : ErrorCode
  friendship_not_found friendship_blocked : ErrorCode
  group_not_found group_member_already_exists permission_denied : ErrorCode
  internal_error : ErrorCode

pub data RepositoryStatus : Type 0 where
  status_ok not_found query_failed duplicate insert_failed : RepositoryStatus
  connection_unavailable borrow_timeout : RepositoryStatus

abbrev pub is_ok : RepositoryStatus → Bool
is_ok status_ok = true
is_ok _ = false

abbrev pub is_not_found : RepositoryStatus → Bool
is_not_found not_found = true
is_not_found _ = false

abbrev pub is_duplicate : RepositoryStatus → Bool
is_duplicate duplicate = true
is_duplicate _ = false
