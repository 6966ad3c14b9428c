-- ===== src/Stream/Push/Tests.antt =====
-- A push event and an entry of the stream (src/stream/redis_push_stream.cc).
use linux_server.Base.{◌⊎◌, ◌≡◌, refl, [], ◌∷◌, none, some, true, codes, pos, arith, List, Bytes}
use linux_server.Model.Records.{RemotePushEvent, RemoteDeliveryOutcome}
use linux_server.Service.Fixtures.{config}
use linux_server.Stream.Redis.{reply, integer_reply, no_reply, RedisError}
use linux_server.Stream.Push.{RedisPushStream, process_push_entry}
use linux_server.Stream.Events.{event_fields, flatten, decode_push_event}
use linux_server.Stream.Replies.{StreamEntry, parse_fields}
use linux_server.Stream.Events.{IsEvent, entry_reply, decode_push_event-parse_fields}
use linux_server.Stream.Push.Acking.{logged, acks, ack_of, Settled, acks-process_push_entry}

abbrev event : RemotePushEvent
event = record {
  event_id = codes "msg_1";
  message_id = codes "msg_1";
  from_user_id = pos 7;
  to_user_id = pos 8;
  target_connection_id = 12;
  payload = codes "{}";
}

event-IsEvent : IsEvent event
event-IsEvent = record {
  named = refl;
  of_message = refl;
  some_payload = refl;
  positive_from = refl;
  positive_to = refl;
  connected = refl;
  from_fits = ground arith;
  to_fits = ground arith;
  connection_fits = ground arith;
}

decode_push_event-parse_fields_example :
    decode_push_event (parse_fields (entry_reply (flatten (event_fields event)))) ≡ some event
decode_push_event-parse_fields_example = decode_push_event-parse_fields event event-IsEvent

-- A Redis that accepts each command, and a callback that wants another try.
abbrev stream : RedisPushStream (List (List Bytes))
stream = record {
  redis = record {
    command = λ args w. (
      record {
        success = true;
        error = RedisError.no_error;
        message = [];
        answer = reply integer_reply [] (pos 1) no_reply;
      },
      args ∷ w,
    );
  };
  config = config;
  delivery_callback = some (λ e w. (RemoteDeliveryOutcome.retry, w));
  mark_delivered_callback = none;
}

abbrev entry : StreamEntry
entry = record { stream_id = codes "1-0"; fields = event_fields event }

acks-process_push_entry_example :
    (Settled stream entry []
      × (acks (process_push_entry (logged stream) entry ([], [])).1.1 ≡ ack_of stream entry ∷ []))
    ⊎ ((¬ Settled stream entry [])
        × (acks (process_push_entry (logged stream) entry ([], [])).1.1 ≡ []))
acks-process_push_entry_example = acks-process_push_entry stream entry []
