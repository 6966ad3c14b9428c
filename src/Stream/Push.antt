-- ===== src/Stream/Push.antt =====
-- `RedisPushStream` (src/stream/redis_push_stream.cc). Redis is a parameter; so are the two
-- callbacks, which `main.cc` sets. The thread that polls is left out: `poll_once` is one round.
pub mod Acking
mod Tests
use linux_server.Base.{
  ℕ, Bool, true, false, not, ◌&&◌, ◌||◌, List, [], ◌∷◌, ◌++◌, map, Option, none, some, Bytes, codes,
  is_empty, ℤ, pos, negsuc, le_zero, to_string, parse_integer, Map, lookup, insert, ◌==◌, list_eq,
  nat_eq, int_eq, if◌then◌else◌,
}
use linux_server.Model.Records.{RemotePushEvent, RemoteDeliveryOutcome, retry, RedisConfig}
use linux_server.Stream.Redis.{
  RedisReply, Replies, reply, array_reply, no_reply, also, string_value, integer_value, elements,
  is_string, is_integer, is_array, RedisCommandResult, is_missing, RedisClient,
}
use linux_server.Stream.Replies.{StreamEntry, parse_read_reply, parse_claim_reply}
use linux_server.Stream.Events.{has_field, field, decode_push_event, event_fields, flatten}

pub record RedisPushStream (W : Type 0) : Type 0 where
  pub redis : RedisClient W
  pub config : RedisConfig
  pub delivery_callback : Option (RemotePushEvent → W → RemoteDeliveryOutcome × W)
  pub mark_delivered_callback : Option (ℤ → Bytes → W → Bool × W)

pub record ReadBatch : Type 0 where
  pub success : Bool
  pub entries : List StreamEntry

abbrev push_group : Bytes
push_group = codes "chat-push"

abbrev retry_group : Bytes
retry_group = codes "chat-delivery-retry"

abbrev has_colon : Bytes → Bool
has_colon [] = false
has_colon (c ∷ cs) = c == b':' || has_colon cs

-- f && g, where g is not called if f is false
abbrev pub and_then : {W : Type 0} → Bool × W → (W → Bool × W) → Bool × W
and_then (true, w) g = g w
and_then (false, w) g = (false, w)

module _ {W : Type 0} (s : RedisPushStream W) where
  unfoldable pub push_stream_key : Bytes → Bytes
  push_stream_key server_id = s.config.key_prefix ++ (codes ":push:stream:" ++ server_id)

  unfoldable pub retry_stream_key : Bytes → Bytes
  retry_stream_key server_id = s.config.key_prefix ++ (codes ":delivery:retry:" ++ server_id)

  unfoldable pub dead_letter_stream_key : Bytes → Bytes
  dead_letter_stream_key server_id = s.config.key_prefix ++ (codes ":push:dlq:" ++ server_id)

  unfoldable pub delivery_dedup_key : Bytes → Bytes
  delivery_dedup_key message_id =
      s.config.key_prefix
      ++ (codes ":push:dedup:" ++ (s.config.server_id ++ (codes ":" ++ message_id)))

  abbrev is_decoded : Option RemotePushEvent → Bool
  is_decoded none = false
  is_decoded (some e) = true

  unfoldable pub publish : Bytes → RemotePushEvent → W → Bool × W
  publish target_server_id e w =
      if is_empty target_server_id
        || has_colon target_server_id
        || not (is_decoded (decode_push_event (event_fields e)))
      then (false, w)
      else (let (result, w1) =
            s.redis.command
              (codes "XADD"
                ∷ push_stream_key target_server_id
                ∷ codes "*"
                ∷ flatten (event_fields e))
              w in
          (result.success && is_string result.answer, w1))

  unfoldable pub ack_command : Bytes → Bytes → Bytes → List Bytes
  ack_command stream group stream_id = codes "XACK" ∷ stream ∷ group ∷ stream_id ∷ []

  unfoldable pub ack : Bytes → Bytes → Bytes → W → Bool × W
  ack stream group stream_id w =
      let (result, w1) = s.redis.command (ack_command stream group stream_id) w in
      (result.success && is_integer result.answer && integer_value result.answer == pos 1, w1)

  unfoldable pub dead_letter_command : Bytes → Bytes → Bytes → List Bytes
  dead_letter_command source_stream source_id reason =
      codes "XADD"
      ∷ dead_letter_stream_key s.config.server_id
      ∷ codes "*"
      ∷ codes "source_stream"
      ∷ source_stream
      ∷ codes "source_id"
      ∷ source_id
      ∷ codes "reason"
      ∷ reason
      ∷ []

  unfoldable pub move_to_dead_letter : Bytes → StreamEntry → Bytes → W → Bool × W
  move_to_dead_letter source_stream entry reason w =
      let (result, w1) =
        s.redis.command (dead_letter_command source_stream entry.stream_id reason) w in
      (result.success, w1)

  unfoldable pub acquire_command : Bytes → List Bytes
  acquire_command message_id =
      codes "SET"
      ∷ delivery_dedup_key message_id
      ∷ codes "1"
      ∷ codes "NX"
      ∷ codes "EX"
      ∷ codes "86400"
      ∷ []

  unfoldable pub release_command : Bytes → List Bytes
  release_command message_id = codes "DEL" ∷ delivery_dedup_key message_id ∷ []

  -- What follows the callback: a delivery that has to be tried again keeps its entry pending.
  unfoldable pub finish_delivery :
      StreamEntry → RemotePushEvent → RemoteDeliveryOutcome → W → Bool × W
  finish_delivery entry event RemoteDeliveryOutcome.retry w =
      (false, (s.redis.command (release_command event.message_id) w).1)
  finish_delivery entry event RemoteDeliveryOutcome.delivered_to_client w =
      ack (push_stream_key s.config.server_id) push_group entry.stream_id w
  finish_delivery entry event RemoteDeliveryOutcome.invalid_target w =
      ack (push_stream_key s.config.server_id) push_group entry.stream_id w

  unfoldable pub process_event :
      (RemotePushEvent → W → RemoteDeliveryOutcome × W)
      → StreamEntry
      → RemotePushEvent
      → W
      → Bool × W
  process_event deliver entry event w =
      let (acquired, w1) = s.redis.command (acquire_command event.message_id) w in
      if acquired.success
      then (let (outcome, w2) = deliver event w1 in finish_delivery entry event outcome w2)
      else if is_missing acquired.error
      then ack (push_stream_key s.config.server_id) push_group entry.stream_id w1
      else (false, w1)

  abbrev pub process_valid :
      Option (RemotePushEvent → W → RemoteDeliveryOutcome × W)
      → StreamEntry
      → RemotePushEvent
      → W
      → Bool × W
  process_valid none entry event w = (false, w)
  process_valid (some deliver) entry event w = process_event deliver entry event w

  abbrev pub process_decoded : StreamEntry → Option RemotePushEvent → W → Bool × W
  process_decoded entry none w =
      and_then
        (move_to_dead_letter (push_stream_key s.config.server_id) entry (codes "invalid push event")
          w)
        (ack (push_stream_key s.config.server_id) push_group entry.stream_id)
  process_decoded entry (some event) w = process_valid s.delivery_callback entry event w

  unfoldable pub process_push_entry : StreamEntry → W → Bool × W
  process_push_entry entry w = process_decoded entry (decode_push_event entry.fields) w

  unfoldable pub reject_retry : StreamEntry → Bytes → W → Bool × W
  reject_retry entry reason w =
      and_then (move_to_dead_letter (retry_stream_key s.config.server_id) entry reason w)
        (ack (retry_stream_key s.config.server_id) retry_group entry.stream_id)

  unfoldable pub process_retry_entry : StreamEntry → W → Bool × W
  process_retry_entry entry w =
      if not
        (has_field (codes "to_user_id") entry.fields && has_field (codes "message_id") entry.fields)
      then reject_retry entry (codes "invalid delivery retry") w
      else elim (parse_integer (field (codes "to_user_id") entry.fields)) [
        | none ↦ reject_retry entry (codes "invalid delivery retry fields") w
        | some user_id ↦
            if le_zero user_id || is_empty (field (codes "message_id") entry.fields)
            then reject_retry entry (codes "invalid delivery retry fields") w
            else elim s.mark_delivered_callback [
              | none ↦ (false, w)
              | some mark ↦
                  and_then (mark user_id (field (codes "message_id") entry.fields) w)
                    (ack (retry_stream_key s.config.server_id) retry_group entry.stream_id)
            ]
      ]

  unfoldable pub publish_delivery_retry : ℤ → Bytes → W → Bool × W
  publish_delivery_retry user_id message_id w =
      let (result, w1) =
        s.redis.command
          (codes "XADD"
            ∷ retry_stream_key s.config.server_id
            ∷ codes "*"
            ∷ codes "to_user_id"
            ∷ to_string user_id
            ∷ codes "message_id"
            ∷ message_id
            ∷ [])
          w in
      (result.success, w1)

  unfoldable pub read_new : Bytes → Bytes → Bool → W → ReadBatch × W
  read_new stream group block w =
      let waiting = if block then codes "BLOCK" ∷ codes "200" ∷ [] else [] in
      let (result, w1) =
        s.redis.command
          ((codes "XREADGROUP"
              ∷ codes "GROUP"
              ∷ group
              ∷ s.config.server_id
              ∷ codes "COUNT"
              ∷ codes "20"
              ∷ [])
            ++ (waiting ++ codes "STREAMS" ∷ stream ∷ codes ">" ∷ []))
          w in
      (
        if result.success
            then record { success = true; entries = parse_read_reply result.answer }
            else record { success = is_missing result.error; entries = [] },
        w1,
      )

  unfoldable pub claim_pending : Bytes → Bytes → W → ReadBatch × W
  claim_pending stream group w =
      let (result, w1) =
        s.redis.command
          (codes "XAUTOCLAIM"
            ∷ stream
            ∷ group
            ∷ s.config.server_id
            ∷ codes "30000"
            ∷ codes "0-0"
            ∷ codes "COUNT"
            ∷ codes "20"
            ∷ [])
          w in
      (
        if result.success
            then record { success = true; entries = parse_claim_reply result.answer }
            else record { success = false; entries = [] },
        w1,
      )

  abbrev process_all : (StreamEntry → W → Bool × W) → List StreamEntry → W → W
  process_all process [] w = w
  process_all process (entry ∷ rest) w = process_all process rest (process entry w).1

  -- One round of the loop over both streams.
  unfoldable pub poll_once : W → Bool × W
  poll_once w =
      let push = push_stream_key s.config.server_id in
      let (claimed_push, w1) = claim_pending push push_group w in
      let (new_push, w2) = read_new push push_group true w1 in
      let w3 = process_all process_push_entry (claimed_push.entries ++ new_push.entries) w2 in
      let retries = retry_stream_key s.config.server_id in
      let (claimed_retry, w4) = claim_pending retries retry_group w3 in
      let (new_retry, w5) = read_new retries retry_group false w4 in
      let w6 = process_all process_retry_entry (claimed_retry.entries ++ new_retry.entries) w5 in
      (claimed_push.success && new_push.success && claimed_retry.success && new_retry.success, w6)
