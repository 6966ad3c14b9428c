-- ===== src/Model/Records.antt =====
-- Records of the database and the protocol (include/model, include/protocol, include/server).
use linux_server.Base.{
  ℕ, Bool, true, false, Option, none, some, Bytes, codes, ℤ, pos, ◌==◌, list_eq, nat_eq, int_eq,
  if◌then◌else◌,
}

-- include/model/message_record.h
pub data MessageStatus : Type 0 where
  stored delivered read : MessageStatus

abbrev pub is_stored : MessageStatus → Bool
is_stored stored = true
is_stored _ = false

unfoldable pub to_protocol_message_status : MessageStatus → ℤ
to_protocol_message_status stored = pos 0
to_protocol_message_status delivered = pos 1
to_protocol_message_status read = pos 2

unfoldable pub parse_message_status : ℤ → Option MessageStatus
parse_message_status raw =
    if raw == pos 0
    then some stored
    else if raw == pos 1
    then some delivered
    else if raw == pos 2
    then some read
    else none

unfoldable pub can_transition_message_status : MessageStatus → MessageStatus → Bool
can_transition_message_status stored stored = false
can_transition_message_status stored delivered = true
can_transition_message_status stored read = true
can_transition_message_status delivered stored = false
can_transition_message_status delivered delivered = true
can_transition_message_status delivered read = true
can_transition_message_status read stored = false
can_transition_message_status read delivered = false
can_transition_message_status read read = true

pub record MessageRecord : Type 0 where
  pub id : Bytes
  pub conversation_id : Bytes
  pub client_msg_id : Bytes
  pub sequence : ℤ
  pub from_user_id : ℤ
  pub to_user_id : ℤ
  pub content : Bytes
  pub status : MessageStatus
  pub created_at : ℤ
  pub delivered_at : ℤ
  pub read_at : ℤ

-- include/model/friendship_record.h
pub data FriendshipStatus : Type 0 where
  pending accepted blocked : FriendshipStatus

pub record FriendshipRecord : Type 0 where
  pub id : ℤ
  pub requester_id : ℤ
  pub addressee_id : ℤ
  pub status : FriendshipStatus
  pub created_at : Bytes
  pub updated_at : Bytes

pub record FriendshipListItem : Type 0 where
  pub user_id : ℤ
  pub username : Bytes
  pub nickname : Bytes
  pub status : FriendshipStatus
  pub direction : Bytes
  pub created_at : Bytes
  pub updated_at : Bytes

unfoldable pub to_storage_friendship_status : FriendshipStatus → Bytes
to_storage_friendship_status pending = codes "pending"
to_storage_friendship_status accepted = codes "accepted"
to_storage_friendship_status blocked = codes "blocked"

unfoldable pub parse_friendship_status : Bytes → Option FriendshipStatus
parse_friendship_status raw =
    if raw == codes "pending"
    then some pending
    else if raw == codes "accepted"
    then some accepted
    else if raw == codes "blocked"
    then some blocked
    else none

-- include/model/group_record.h
pub record GroupRecord : Type 0 where
  pub id : Bytes
  pub name : Bytes
  pub owner_id : ℤ
  pub conversation_id : Bytes
  pub created_at : Bytes
  pub updated_at : Bytes

pub record GroupMemberRecord : Type 0 where
  pub group_id : Bytes
  pub user_id : ℤ
  pub role : Bytes
  pub joined_at : Bytes

-- include/model/user_record.h
pub record UserRecord : Type 0 where
  pub id : ℤ
  pub username : Bytes
  pub password_hash : Bytes
  pub nickname : Bytes
  pub status : ℤ
  pub created_at : Bytes
  pub updated_at : Bytes

-- include/server/redis_session_store.h
pub record StoredSessionToken : Type 0 where
  pub user_id : ℤ
  pub username : Bytes
  pub issued_at : ℤ

pub record StoredUserPresence : Type 0 where
  pub server_id : Bytes
  pub connection_id : ℕ
  pub token : Bytes

-- include/stream/remote_push.h
pub record RemotePushEvent : Type 0 where
  pub event_id : Bytes
  pub message_id : Bytes
  pub from_user_id : ℤ
  pub to_user_id : ℤ
  pub target_connection_id : ℕ
  pub payload : Bytes

pub data RemoteDeliveryOutcome : Type 0 where
  delivered_to_client invalid_target retry : RemoteDeliveryOutcome

-- include/config/redis_config.h
pub record RedisConfig : Type 0 where
  pub enabled : Bool
  pub host : Bytes
  pub port : ℕ
  pub password : Bytes
  pub database : ℤ
  pub pool_size : ℕ
  pub connect_timeout_ms : ℕ
  pub command_timeout_ms : ℕ
  pub key_prefix : Bytes
  pub server_id : Bytes
  pub session_ttl_seconds : ℕ
  pub presence_ttl_seconds : ℕ
  pub user_cache_ttl_seconds : ℕ
  pub user_not_found_ttl_seconds : ℕ
  pub message_dedup_ttl_seconds : ℕ
  pub login_rate_limit : ℕ
  pub login_rate_window_seconds : ℕ
  pub register_rate_limit : ℕ
  pub register_rate_window_seconds : ℕ
  pub send_rate_limit : ℕ
  pub send_rate_window_seconds : ℕ
