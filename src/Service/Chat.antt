-- ===== src/Service/Chat.antt =====
-- `ChatService` (src/service/chat_service.cc). The clock, the process id, the message counter and
-- the random number that a call draws are its arguments.
pub mod Sending
mod Tests
use linux_server.Base.{
  ℕ, suc, Bool, true, false, not, ◌&&◌, ◌||◌, List, [], ◌∷◌, ◌++◌, map, Option, none, some, Bytes,
  codes, length, is_empty, leb, ltb, nat_beq, ℤ, pos, le_zero, int_ltb, to_string, hex_fixed,
  shift_left, to_uint64, ◌==◌, int_eq, nat_eq, list_eq, if◌then◌else◌,
}
use Prim.Native.Nat.{bit_xor}
use linux_server.Model.Status.{
  ErrorCode, invalid_param, message_too_long, not_logged_in, cannot_send_to_self, rate_limited,
  user_not_found, idempotency_conflict, RepositoryStatus, status_ok, is_ok, is_not_found,
}
use linux_server.Model.Records.{
  MessageRecord, MessageStatus, stored, is_stored, to_protocol_message_status, StoredUserPresence,
  RemotePushEvent, RedisConfig,
}
use linux_server.Session.Manager.{ConnectionSession, SessionManager, contains, get_connection_ids}
use linux_server.Validation.Validator.{
  ValidationResult, message_content, client_message_id, message_max_bytes, cursor,
}
use linux_server.Service.Exec.{
  Exec, Outcome, answered, refused, pure, refuse, refuse_until, call, check, ◌>>=◌, ◌>>◌,
}
use linux_server.Service.Interfaces.{
  FindUserResult, UserRepository, MessageRepository, CreateMessageResult, FindMessageResult,
  RateLimiter, RateLimitResult, MessageDedupCache, GlobalSessionStore, RemotePushPublisher,
  MarkResult, ListOfflineMessagesResult,
}
use linux_server.Service.Common.{map_repository_error, require_session}
use linux_server.Service.Ids.{Draw, build_conversation_id, build_message_id}
use linux_server.Service.Routing.{Route, route, first_conn, other_conns}
use linux_server.Validation.Validator

pub record ChatService (W : Type 0) : Type 0 where
  pub message_repository : MessageRepository W
  pub user_repository : UserRepository W
  pub rate_limiter : Option (RateLimiter W)
  pub dedup_cache : Option (MessageDedupCache W)
  pub redis_config : RedisConfig
  pub global_session_store : Option (GlobalSessionStore W)
  pub remote_push_publisher : Option (RemotePushPublisher W)

unfoldable pub is_same_idempotent_message : MessageRecord → MessageRecord → Bool
is_same_idempotent_message expected actual =
    expected.conversation_id == actual.conversation_id
    && expected.client_msg_id == actual.client_msg_id
    && expected.from_user_id == actual.from_user_id
    && expected.to_user_id == actual.to_user_id
    && expected.content == actual.content

pub record SendMessageRequest : Type 0 where
  pub to_user_id : ℤ
  pub content : Bytes
  pub client_msg_id : Bytes

-- The fields of a `SendMessageResult` with code `OK`.
pub record SendMessageResult : Type 0 where
  pub from_user_id : ℤ
  pub from_username : Bytes
  pub to_user_id : ℤ
  pub to_conn_id : ℕ
  pub to_conn_ids : List ℕ
  pub sender_sync_conn_ids : List ℕ
  pub remote_server_id : Bytes
  pub remote_conn_id : ℕ
  pub content : Bytes
  pub server_time : ℤ
  pub message_id : Bytes
  pub conversation_id : Bytes
  pub sequence : ℤ
  pub status : ℤ
  pub created_at : ℤ

-- The checks of the request alone.
unfoldable pub validate_send : {W : Type 0} → SendMessageRequest → Exec W (Unit {0})
validate_send req =
    let content = message_content req.content in
    let client_id = client_message_id req.client_msg_id in
    do
      check content.valid
          (if ltb message_max_bytes (length req.content) then message_too_long else invalid_param)
          content.message
      check client_id.valid invalid_param client_id.message
      check (not (le_zero req.to_user_id)) invalid_param (codes "to_user_id must be greater than 0")

unfoldable pub limit_sending :
    {W : Type 0} → Option (RateLimiter W) → RedisConfig → ConnectionSession → Exec W (Unit {0})
limit_sending none config session = pure tt
limit_sending (some limiter) config session = do
  limit ← call (
      limiter.allow (codes "send") (to_string session.user_id) config.send_rate_limit
        config.send_rate_window_seconds)
  if limit.allowed
      then pure tt
      else (refuse_until rate_limited (codes "send message rate limit exceeded")
          limit.retry_after_seconds)

-- A user that was found, or the refusal.
unfoldable pub accept_target : {W : Type 0} → FindUserResult → Exec W (Unit {0})
accept_target target = elim target.user [
  | none ↦
      if is_not_found target.status || is_ok target.status
      then refuse user_not_found (codes "target user not found")
      else refuse (map_repository_error target.status) (codes "query target user failed")
  | some user ↦
      if is_not_found target.status
      then refuse user_not_found (codes "target user not found")
      else if not (is_ok target.status)
      then refuse (map_repository_error target.status) (codes "query target user failed")
      else pure tt
]

unfoldable pub pending_message : ConnectionSession → SendMessageRequest → Draw → MessageRecord
pending_message session req d = record {
  id = build_message_id d session.user_id;
  conversation_id = build_conversation_id session.user_id req.to_user_id;
  client_msg_id = req.client_msg_id;
  sequence = pos 0;
  from_user_id = session.user_id;
  to_user_id = req.to_user_id;
  content = req.content;
  status = stored;
  created_at = d.now;
  delivered_at = pos 0;
  read_at = pos 0;
}

-- The message found for a cached id, if the repository has it under that id.
abbrev reusable : Bytes → FindMessageResult → Option CreateMessageResult
reusable cached existing = elim existing.message [
  | none ↦ none
  | some message ↦
      if is_ok existing.status && message.id == cached
      then some (record {
        status = status_ok;
        message_id = message.id;
        message = some message;
        created = false;
      })
      else none
]

-- What the dedup cache knows of the message: an earlier one is reused, a stale entry is removed.
unfoldable pub find_duplicate :
    {W : Type 0} → ChatService W → ℤ → Bytes → W → Option CreateMessageResult × W
find_duplicate service from client_msg_id w = elim service.dedup_cache [
  | none ↦ (none, w)
  | some cache ↦
      let (cached, w1) = cache.lookup from client_msg_id w in
      elim cached [
        | none ↦ (none, w1)
        | some id ↦
            let (existing, w2) =
              service.message_repository.find_message_by_client_msg_id from client_msg_id w1 in
            elim (reusable id existing) [
              | none ↦ (none, cache.remove from client_msg_id w2)
              | some found ↦ (some found, w2)
            ]
      ]
]

unfoldable pub create_or_reuse :
    {W : Type 0}
    → ChatService W
    → MessageRecord
    → Option CreateMessageResult
    → W
    → CreateMessageResult × W
create_or_reuse service pending (some found) w = (found, w)
create_or_reuse service pending none w = service.message_repository.create_message pending w

-- The stored message, which must be the one that was asked for.
unfoldable pub accept_stored :
    {W : Type 0} → MessageRecord → CreateMessageResult → Exec W MessageRecord
accept_stored pending result = elim result.message [
  | none ↦ refuse (map_repository_error result.status) (codes "store message failed")
  | some message ↦
      if not (is_ok result.status)
      then refuse (map_repository_error result.status) (codes "store message failed")
      else if not (is_same_idempotent_message pending message)
      then refuse idempotency_conflict (codes "client_msg_id conflicts with existing message")
      else pure message
]

unfoldable pub save_duplicate :
    {W : Type 0} → Option (MessageDedupCache W) → ℤ → Bytes → Bytes → W → W
save_duplicate none from client_msg_id id w = w
save_duplicate (some cache) from client_msg_id id w = cache.save from client_msg_id id w

unfoldable pub find_presence :
    {W : Type 0} → Option (GlobalSessionStore W) → Bool → ℤ → W → Option StoredUserPresence × W
find_presence none can_push user w = (none, w)
find_presence (some store) can_push user w =
    if can_push then store.get_presence user w else (none, w)

unfoldable pub send_result :
    SessionManager → ℕ → ConnectionSession → Draw → Bool → Route → MessageRecord → SendMessageResult
send_result sessions from_conn_id session d can_push r message = record {
  from_user_id = session.user_id;
  from_username = session.username;
  to_user_id = message.to_user_id;
  to_conn_id = first_conn r.local_conns r.target;
  to_conn_ids = r.local_conns;
  sender_sync_conn_ids =
      if can_push
      then other_conns from_conn_id (get_connection_ids sessions session.user_id)
      else [];
  remote_server_id = r.remote_server;
  remote_conn_id = r.remote_conn;
  content = message.content;
  server_time = d.now;
  message_id = message.id;
  conversation_id = message.conversation_id;
  sequence = message.sequence;
  status = to_protocol_message_status message.status;
  created_at = message.created_at;
}

-- The part behind the store: the cache, the route and the answer.
unfoldable pub deliver :
    {W : Type 0}
    → ChatService W
    → SessionManager
    → ℕ
    → SendMessageRequest
    → ConnectionSession
    → Draw
    → Bool
    → MessageRecord
    → W
    → SendMessageResult × W
deliver service sessions from_conn_id req session d created message w =
    let w1 = save_duplicate service.dedup_cache session.user_id req.client_msg_id message.id w in
    let can_push = created || is_stored message.status in
    let (presence, w2) =
      find_presence service.global_session_store can_push message.to_user_id w1 in
    let r = route sessions service.redis_config can_push presence message.to_user_id in
    (send_result sessions from_conn_id session d can_push r message, w2)

-- What is done for a caller and a target that are accepted.
unfoldable pub store_and_deliver :
    {W : Type 0}
    → ChatService W
    → SessionManager
    → ℕ
    → SendMessageRequest
    → Draw
    → ConnectionSession
    → Exec W SendMessageResult
store_and_deliver service sessions from_conn_id req d session = do
  let pending = pending_message session req d
  duplicate ← call (find_duplicate service session.user_id req.client_msg_id)
  result ← call (create_or_reuse service pending duplicate)
  message ← accept_stored pending result
  call (deliver service sessions from_conn_id req session d result.created message)

unfoldable pub send_message :
    {W : Type 0}
    → ChatService W
    → SessionManager
    → ℕ
    → SendMessageRequest
    → Draw
    → Exec W SendMessageResult
send_message service sessions from_conn_id req d = do
  validate_send req
  session ← require_session sessions from_conn_id
  check (not (req.to_user_id == session.user_id)) cannot_send_to_self
      (codes "Cannot send message to yourself")
  limit_sending service.rate_limiter service.redis_config session
  target ← call (service.user_repository.find_by_id req.to_user_id)
  accept_target target
  store_and_deliver service sessions from_conn_id req d session

unfoldable pub publish_remote_push :
    {W : Type 0} → ChatService W → SendMessageResult → Bytes → W → Bool × W
publish_remote_push service result payload w = elim service.remote_push_publisher [
  | none ↦ (false, w)
  | some publisher ↦
      if is_empty result.remote_server_id
        || nat_beq result.remote_conn_id 0
        || is_empty result.message_id
        || is_empty payload
      then (false, w)
      else publisher.publish result.remote_server_id
          (record {
            event_id = result.message_id;
            message_id = result.message_id;
            from_user_id = result.from_user_id;
            to_user_id = result.to_user_id;
            target_connection_id = result.remote_conn_id;
            payload = payload;
          })
          w
]
