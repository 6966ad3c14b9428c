-- ===== src/Stream/Events.antt =====
-- A push event on its way through a stream (`Publish`, `ParseFields` and `DecodePushEvent` of
-- src/stream/redis_push_stream.cc).
use linux_server.Base.{
  Bool, true, false, ◌&&◌, ◌||◌, List, [], ◌∷◌, Option, none, some, Bytes, codes, is_empty, ℤ, pos,
  le_zero, to_string, parse_integer, Map, lookup, insert, ◌==◌, list_eq, nat_eq, int_eq,
  if◌then◌else◌, ◌≤◌, ◌≡◌, refl, parse_integer-to_string, InRange, max_int64, erase,
}
use linux_server.Model.Records.{RemotePushEvent}
use linux_server.Stream.Redis.{
  RedisReply, Replies, reply, array_reply, no_reply, also, string_reply,
}
use linux_server.Stream.Replies.{parse_fields, read_pairs}

abbrev or_nothing : Option Bytes → Bytes
or_nothing none = []
or_nothing (some value) = value

abbrev pub has_field : Bytes → Map Bytes Bytes → Bool
has_field name fields = elim (lookup name fields) [ none ↦ false | some value ↦ true ]

abbrev pub field : Bytes → Map Bytes Bytes → Bytes
field name fields = or_nothing (lookup name fields)

-- What is asked of the parsed numbers before they are used.
pub event_of : Bytes → Bytes → Bytes → Option ℤ → Option ℤ → Option ℤ → Option RemotePushEvent
event_of event_id message_id payload (some from) (some to) (some (pos connection)) =
    if is_empty event_id
      || is_empty message_id
      || le_zero from
      || le_zero to
      || connection == 0
      || is_empty payload
    then none
    else some (record {
      event_id = event_id;
      message_id = message_id;
      from_user_id = from;
      to_user_id = to;
      target_connection_id = connection;
      payload = payload;
    })
event_of event_id message_id payload from to connection = none

unfoldable pub decode_push_event : Map Bytes Bytes → Option RemotePushEvent
unfolding event_of
decode_push_event fields =
    if has_field (codes "event_id") fields
      && has_field (codes "message_id") fields
      && has_field (codes "from_user_id") fields
      && has_field (codes "to_user_id") fields
      && has_field (codes "connection_id") fields
      && has_field (codes "payload") fields
    then event_of (field (codes "event_id") fields) (field (codes "message_id") fields)
        (field (codes "payload") fields) (parse_integer (field (codes "from_user_id") fields))
        (parse_integer (field (codes "to_user_id") fields))
        (parse_integer (field (codes "connection_id") fields))
    else none

unfoldable pub event_fields : RemotePushEvent → Map Bytes Bytes
event_fields e =
    (codes "event_id", e.event_id)
    ∷ (codes "message_id", e.message_id)
    ∷ (codes "from_user_id", to_string e.from_user_id)
    ∷ (codes "to_user_id", to_string e.to_user_id)
    ∷ (codes "connection_id", to_string (pos e.target_connection_id))
    ∷ (codes "payload", e.payload)
    ∷ []

abbrev pub flatten : Map Bytes Bytes → List Bytes
flatten [] = []
flatten ((key, value) ∷ rest) = key ∷ value ∷ flatten rest

-- An event that may be pushed.
pub record IsEvent (e : RemotePushEvent) : Type 0 where
  pub named : is_empty e.event_id ≡ false
  pub of_message : is_empty e.message_id ≡ false
  pub some_payload : is_empty e.payload ≡ false
  pub positive_from : le_zero e.from_user_id ≡ false
  pub positive_to : le_zero e.to_user_id ≡ false
  pub connected : (e.target_connection_id == 0) ≡ false
  pub from_fits : InRange e.from_user_id
  pub to_fits : InRange e.to_user_id
  pub connection_fits : e.target_connection_id ≤ max_int64

-- The fields of an entry as Redis gives them back: each text as a string, in the order of XADD.
abbrev pub wire : List Bytes → Replies
wire [] = no_reply
wire (text ∷ rest) = also (reply string_reply text (pos 0) no_reply) (wire rest)

abbrev pub entry_reply : List Bytes → RedisReply
entry_reply texts = reply array_reply [] (pos 0) (wire texts)

event_of_valid :
    (e : RemotePushEvent)
    → IsEvent e
    → event_of e.event_id e.message_id e.payload
        (some e.from_user_id)
        (some e.to_user_id)
        (some (pos e.target_connection_id))
      ≡ some e
unfolding event_of
event_of_valid e h =
    rw (h.named, h.of_message, h.some_payload, h.positive_from, h.positive_to, h.connected) refl

-- An event that is published reaches the consumer as it was: decoding the fields that Redis gives
-- back for them yields it again, for texts that are not empty and ids from 1 to 2^63 - 1.
pub decode_push_event-parse_fields :
    (e : RemotePushEvent)
    → IsEvent e
    → decode_push_event (parse_fields (entry_reply (flatten (event_fields e)))) ≡ some e
unfolding decode_push_event parse_fields event_fields read_pairs lookup insert erase
decode_push_event-parse_fields e h =
    rw
      (
        parse_integer-to_string e.from_user_id h.from_fits,
        parse_integer-to_string e.to_user_id h.to_fits,
        parse_integer-to_string (pos e.target_connection_id) h.connection_fits,
      )
      (event_of_valid e h)
