-- ===== src/Stream/Replies.antt =====
-- The entries of a stream in the replies of Redis (src/stream/redis_push_stream.cc).
use linux_server.Base.{
  ◌&&◌, List, [], ◌∷◌, ◌++◌, Option, none, some, Bytes, Map, insert, list_eq, nat_eq, int_eq,
  if◌then◌else◌,
}
use linux_server.Stream.Redis.{
  RedisReply, Replies, no_reply, also, string_value, elements, is_string, is_array,
}

pub record StreamEntry : Type 0 where
  pub stream_id : Bytes
  pub fields : Map Bytes Bytes

-- The pairs of a reply behind the fields that were read, or nothing where one is no string or has
-- no partner.
unfoldable pub read_pairs : Map Bytes Bytes → Replies → Option (Map Bytes Bytes)
read_pairs fields no_reply = some fields
read_pairs fields (also key no_reply) = none
read_pairs fields (also key (also value rest)) =
    let more = read_pairs (insert (string_value key) (string_value value) fields) rest in
    if is_string key && is_string value then more else none

abbrev or_none : Option (Map Bytes Bytes) → Map Bytes Bytes
or_none none = []
or_none (some fields) = fields

unfoldable pub parse_fields : RedisReply → Map Bytes Bytes
parse_fields r = if is_array r then or_none (read_pairs [] (elements r)) else []

-- The entries of a stream; a malformed one is skipped.
unfoldable pub read_entries : Replies → List StreamEntry
read_entries no_reply = []
read_entries (also r rest) =
    let later = read_entries rest in
    elim (elements r) [
      | also id (also fields no_reply) ↦
          if is_array r && is_string id
          then record { stream_id = string_value id; fields = parse_fields fields } ∷ later
          else later
      | _ ↦ later
    ]

unfoldable pub read_streams : Replies → List StreamEntry
read_streams no_reply = []
read_streams (also r rest) =
    let later = read_streams rest in
    elim (elements r) [
      | also name (also entries no_reply) ↦
          if is_array r && is_array entries then read_entries (elements entries) ++ later else later
      | _ ↦ later
    ]

unfoldable pub parse_read_reply : RedisReply → List StreamEntry
parse_read_reply r = if is_array r then read_streams (elements r) else []

unfoldable pub parse_claim_reply : RedisReply → List StreamEntry
parse_claim_reply r = elim (elements r) [
  | also next (also entries rest) ↦
      if is_array r && is_array entries then read_entries (elements entries) else []
  | _ ↦ []
]
