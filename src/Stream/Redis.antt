-- ===== src/Stream/Redis.antt =====
-- A Redis command and its reply (include/redis/redis_connection.h, include/redis/redis_client.h).
-- The server behind the commands is a parameter of whatever calls it.
use linux_server.Base.{Bool, true, false, List, Bytes, ℤ}

pub data RedisReplyType : Type 0 where
  nil_reply string_reply status_reply integer_reply array_reply : RedisReplyType

pub data RedisError : Type 0 where
  no_error invalid_config connection_unavailable auth_failed select_failed : RedisError
  timeout command_failed not_found : RedisError

mutual
  pub data RedisReply : Type 0 where
    reply : RedisReplyType → Bytes → ℤ → Replies → RedisReply

  pub data Replies : Type 0 where
    no_reply : Replies
    also : RedisReply → Replies → Replies

abbrev pub reply_type : RedisReply → RedisReplyType
reply_type (reply t s n rs) = t

abbrev pub string_value : RedisReply → Bytes
string_value (reply t s n rs) = s

abbrev pub integer_value : RedisReply → ℤ
integer_value (reply t s n rs) = n

abbrev pub elements : RedisReply → Replies
elements (reply t s n rs) = rs

abbrev pub is_string : RedisReply → Bool
is_string (reply string_reply s n rs) = true
is_string (reply _ s n rs) = false

abbrev pub is_integer : RedisReply → Bool
is_integer (reply integer_reply s n rs) = true
is_integer (reply _ s n rs) = false

abbrev pub is_array : RedisReply → Bool
is_array (reply array_reply s n rs) = true
is_array (reply _ s n rs) = false

pub record RedisCommandResult : Type 0 where
  pub success : Bool
  pub error : RedisError
  pub message : Bytes
  pub answer : RedisReply

abbrev pub is_missing : RedisError → Bool
is_missing not_found = true
is_missing _ = false

-- `IRedisClient`
pub record RedisClient (W : Type 0) : Type 0 where
  pub command : List Bytes → W → RedisCommandResult × W
