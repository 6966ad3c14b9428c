-- ===== src/Service/Inbox.antt =====
-- The methods of `ChatService` (src/service/chat_service.cc) for messages that were stored: pulling
-- them, and marking them as delivered and as read.
pub mod Marking
use linux_server.Base.{
  ℕ, suc, Bool, true, false, not, ◌&&◌, ◌||◌, List, [], ◌∷◌, ◌++◌, map, Option, none, some, Bytes,
  codes, length, is_empty, leb, ltb, nat_beq, ℤ, pos, le_zero, int_ltb, to_string, hex_fixed,
  shift_left, to_uint64, ◌==◌, int_eq, nat_eq, list_eq, if◌then◌else◌,
}
use Prim.Native.Nat.{bit_xor}
use linux_server.Model.Status.{
  ErrorCode, invalid_param, message_too_long, not_logged_in, cannot_send_to_self, rate_limited,
  user_not_found, idempotency_conflict, RepositoryStatus, status_ok, is_ok, is_not_found,
}
use linux_server.Model.Records.{
  MessageRecord, MessageStatus, stored, is_stored, to_protocol_message_status, StoredUserPresence,
  RemotePushEvent, RedisConfig,
}
use linux_server.Session.Manager.{ConnectionSession, SessionManager, contains, get_connection_ids}
use linux_server.Validation.Validator.{
  ValidationResult, message_content, client_message_id, message_max_bytes, cursor,
}
use linux_server.Service.Exec.{
  Exec, Outcome, answered, refused, pure, refuse, refuse_until, call, check, ◌>>=◌, ◌>>◌,
}
use linux_server.Service.Interfaces.{
  FindUserResult, UserRepository, MessageRepository, CreateMessageResult, FindMessageResult,
  RateLimiter, RateLimitResult, MessageDedupCache, GlobalSessionStore, RemotePushPublisher,
  MarkResult, ListOfflineMessagesResult,
}
use linux_server.Service.Common.{map_repository_error, require_session}
use linux_server.Service.Chat.{ChatService}
use linux_server.Validation.Validator

pub record PullOfflineMessagesRequest : Type 0 where
  pub limit : ℤ
  pub since_message_id : Bytes
  pub before_message_id : Bytes

pub record OfflineMessage : Type 0 where
  pub message_id : Bytes
  pub conversation_id : Bytes
  pub sequence : ℤ
  pub from_user_id : ℤ
  pub to_user_id : ℤ
  pub content : Bytes
  pub created_at : ℤ
  pub status : ℤ

pub record PullOfflineMessagesResult : Type 0 where
  pub messages : List OfflineMessage
  pub has_more : Bool

abbrev pub max_pull_offline_limit : ℤ
max_pull_offline_limit = pos 100

unfoldable pub to_offline_message : MessageRecord → OfflineMessage
to_offline_message m = record {
  message_id = m.id;
  conversation_id = m.conversation_id;
  sequence = m.sequence;
  from_user_id = m.from_user_id;
  to_user_id = m.to_user_id;
  content = m.content;
  created_at = m.created_at;
  status = to_protocol_message_status m.status;
}

unfoldable pub pull_offline_messages :
    {W : Type 0}
    → ChatService W
    → SessionManager
    → ℕ
    → PullOfflineMessagesRequest
    → Exec W PullOfflineMessagesResult
pull_offline_messages service sessions conn_id req = do
  session ← require_session sessions conn_id
  check (is_empty req.before_message_id) invalid_param (codes "before_message_id is not supported")
  check (not (le_zero req.limit || int_ltb max_pull_offline_limit req.limit)) invalid_param
      (codes "limit must be between 1 and 100")
  let since = cursor req.since_message_id
  check since.valid invalid_param since.message
  list ← call (
      service.message_repository.list_offline_messages session.user_id req.limit
        req.since_message_id)
  check (is_ok list.status) (map_repository_error list.status)
      (codes "list offline messages failed")
  pure (record { messages = map to_offline_message list.messages; has_more = list.has_more })

-- `ValidateMessageIds`: the first complaint, if there is one.
unfoldable pub first_invalid_id : List Bytes → Option Bytes
first_invalid_id [] = none
first_invalid_id (id ∷ ids) =
    let result = Validator.message_id id in
    let later = first_invalid_id ids in if result.valid then later else some result.message

unfoldable pub validate_message_ids : List Bytes → Option Bytes
unfolding first_invalid_id
validate_message_ids ids =
    if is_empty ids
    then some (codes "message_ids is empty")
    else if ltb 100 (length ids)
    then some (codes "message_ids exceeds maximum batch size")
    else first_invalid_id ids

abbrev refuse_invalid : {W : Type 0} → Option Bytes → Exec W (Unit {0})
refuse_invalid none = pure tt
refuse_invalid (some message) = refuse invalid_param message

pub record MessageStateUpdateResult : Type 0 where
  pub message_ids : List Bytes
  pub affected_rows : ℤ

unfoldable pub acknowledge_messages :
    {W : Type 0} → ChatService W → SessionManager → ℕ → List Bytes → Exec W MessageStateUpdateResult
acknowledge_messages service sessions conn_id message_ids = do
  session ← require_session sessions conn_id
  refuse_invalid (validate_message_ids message_ids)
  marked ← call (service.message_repository.mark_delivered session.user_id message_ids)
  check (is_ok marked.status) (map_repository_error marked.status)
      (codes "mark messages delivered failed")
  pure (record { message_ids = message_ids; affected_rows = marked.affected_rows })

unfoldable pub mark_messages_read :
    {W : Type 0} → ChatService W → SessionManager → ℕ → List Bytes → Exec W MessageStateUpdateResult
mark_messages_read service sessions conn_id message_ids = do
  session ← require_session sessions conn_id
  refuse_invalid (validate_message_ids message_ids)
  marked ← call (service.message_repository.mark_read session.user_id message_ids)
  check (is_ok marked.status) (map_repository_error marked.status)
      (codes "mark messages read failed")
  pure (record { message_ids = message_ids; affected_rows = marked.affected_rows })

abbrev all_valid_ids : List Bytes → Bool
all_valid_ids [] = true
all_valid_ids (id ∷ ids) = (Validator.message_id id).valid && all_valid_ids ids

-- The callback of the I/O thread; what the repository answers is not looked at.
unfoldable pub mark_messages_delivered : {W : Type 0} → ChatService W → ℤ → List Bytes → W → W
mark_messages_delivered service user_id message_ids w =
    if le_zero user_id || is_empty message_ids || not (all_valid_ids message_ids)
    then w
    else (service.message_repository.mark_delivered user_id message_ids w).1
