-- ===== src/Service/Chat/Tests.antt =====
-- The chat service (src/service/chat_service.cc) in the small world.
use linux_server.Base.{
  beq_refl, int_eq, list_eq, ℕ, Bool, true, false, ◌≡◌, ◌≢◌, refl, ◌⊎◌, inl, inr, [], ◌∷◌, none,
  some, codes, length, pos, ◌==◌, nat_eq,
}
use linux_server.Model.Records.{StoredUserPresence}
use linux_server.Session.Manager.{ConnectionSession, get_connection_ids, get_session}
use linux_server.Validation.Validator.{
  required_identifier, is_valid_identifier, message_content, client_message_id, has_nul,
}
use linux_server.Service.Exec.{answered, ◌>>=◌}
use linux_server.Service.Common.{get_authenticated_session, require_session}
use linux_server.Service.Fixtures.{
  World, nothing, ann, sessions, config, user_repository, message_repository,
}
use linux_server.Service.Chat
use linux_server.Service.Chat.{ChatService, SendMessageRequest, SendMessageResult, send_message}
use linux_server.Service.Inbox.{acknowledge_messages, mark_messages_read}
use linux_server.Service.Routing.{Route, route, other_conns}
use linux_server.Service.Ids.{Draw, build_conversation_id, build_message_id}
use linux_server.Service.Ids.{build_conversation_id_iff}
use linux_server.Service.Routing.{IsRoute, route-IsRoute, other_conns-contains}
use linux_server.Service.Chat.Sending.{Sent, send_message_sound}
use linux_server.Service.Inbox.Marking.{
  IsBatch, acknowledge_messages_store, mark_messages_read_store,
}

abbrev service : ChatService World
service = record {
  message_repository = message_repository;
  user_repository = user_repository;
  rate_limiter = none;
  dedup_cache = none;
  redis_config = config;
  global_session_store = none;
  remote_push_publisher = none;
}

abbrev draw : Draw
draw = record { now = pos 1700000000; pid = 4242; msg_seq = 1; random_part = 99 }

abbrev hello : SendMessageRequest
hello = record { to_user_id = pos 8; content = codes "hello"; client_msg_id = codes "c1" }

abbrev answer : SendMessageResult
answer = record {
  from_user_id = pos 7;
  from_username = codes "ann";
  to_user_id = pos 8;
  to_conn_id = 2;
  to_conn_ids = 2 ∷ 3 ∷ [];
  sender_sync_conn_ids = 4 ∷ [];
  remote_server_id = [];
  remote_conn_id = 0;
  content = codes "hello";
  server_time = pos 1700000000;
  message_id = build_message_id draw (pos 7);
  conversation_id = codes "conv_7_8";
  sequence = pos 0;
  status = pos 0;
  created_at = pos 1700000000;
}

abbrev after : World
after = record nothing { messages = Chat.pending_message ann hello draw ∷ [] }

hello_is_sent : send_message service sessions 1 hello draw nothing ≡ (answered answer, after)
unfolding send_message ◌>>=◌ require_session get_authenticated_session get_session
    Chat.validate_send Chat.limit_sending Chat.accept_target Chat.store_and_deliver
    Chat.find_duplicate Chat.create_or_reuse Chat.accept_stored Chat.deliver Chat.save_duplicate
    Chat.find_presence Chat.send_result route linux_server.Service.Routing.first_conn other_conns
    Chat.pending_message Chat.is_same_idempotent_message build_conversation_id get_connection_ids
    message_content client_message_id required_identifier is_valid_identifier has_nul
    linux_server.Base.lookup linux_server.Base.to_string linux_server.Base.nat_to_string
    linux_server.Base.decimal linux_server.Model.Records.to_protocol_message_status build_message_id
hello_is_sent = refl

send_message_sound_example : Sent sessions 1 hello answer
send_message_sound_example =
    send_message_sound service sessions 1 hello draw nothing after answer hello_is_sent

-- Two pairs of numbers are the same, in either order.
abbrev SamePair : ℕ → ℕ → ℕ → ℕ → Type 0
SamePair a b c d = ((a ≡ c) × (b ≡ d)) ⊎ ((a ≡ d) × (b ≡ c))

build_conversation_id_iff_example :
    (build_conversation_id (pos 12) (pos 3) ≡ build_conversation_id (pos 3) (pos 12)
      → SamePair 12 3 3 12)
    × (SamePair 12 3 3 12
        → build_conversation_id (pos 12) (pos 3) ≡ build_conversation_id (pos 3) (pos 12))
build_conversation_id_iff_example = build_conversation_id_iff 12 3 3 12

abbrev elsewhere : StoredUserPresence
elsewhere = record { server_id = codes "s2"; connection_id = 12; token = codes "t" }

route-IsRoute_example :
    IsRoute sessions config true
      (some elsewhere)
      (pos 8)
      (route sessions config true (some elsewhere) (pos 8))
route-IsRoute_example = route-IsRoute sessions config (pos 8) true (some elsewhere)

acknowledge_messages_store_example :
    ((acknowledge_messages service sessions 2 (codes "msg_1" ∷ []) nothing).1 ≡ nothing)
    ⊎ ((session : ConnectionSession) × (get_authenticated_session sessions 2 ≡ some session)
        × IsBatch (codes "msg_1" ∷ [])
        × ((acknowledge_messages service sessions 2 (codes "msg_1" ∷ []) nothing).1
            ≡ (service.message_repository.mark_delivered session.user_id
                (codes "msg_1" ∷ [])
                nothing).1))
acknowledge_messages_store_example =
    acknowledge_messages_store service sessions 2 (codes "msg_1" ∷ []) nothing

mark_messages_read_store_example :
    ((mark_messages_read service sessions 2 (codes "msg_1" ∷ []) nothing).1 ≡ nothing)
    ⊎ ((session : ConnectionSession) × (get_authenticated_session sessions 2 ≡ some session)
        × IsBatch (codes "msg_1" ∷ [])
        × ((mark_messages_read service sessions 2 (codes "msg_1" ∷ []) nothing).1
            ≡ (service.message_repository.mark_read session.user_id
                (codes "msg_1" ∷ [])
                nothing).1))
mark_messages_read_store_example =
    mark_messages_read_store service sessions 2 (codes "msg_1" ∷ []) nothing
