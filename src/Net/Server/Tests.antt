-- ===== src/Net/Server/Tests.antt =====
-- A server whose handler pushes to connection 2 (src/TcpServer.cc), and its theorems along one run.
use linux_server.Base.{
  ℕ, ◌+◌, ◌<◌, ◌≡◌, refl, true, false, List, [], ◌∷◌, some, Bytes, codes, arith, pos, lookup,
  nat_eq, int_eq,
}
use linux_server.Net.Handler.{SessionAction, HandleResult, IMessageHandler}
use linux_server.Base.{insert, erase}
use linux_server.Codec.Packet.{feed, feed_loop, find, finish, strip_return, encode}
use linux_server.Net.Context.{
  ConnectionContext, new, feed_packet_data, touch_on_recv, start_request_or_queue,
  finish_request_and_pop_next, append_pending_send, increment_pending_delivery_marks,
  decrement_pending_delivery_marks, pop_next_request_if_idle,
}
use linux_server.Net.Server.Delivery.{run_response_task, run_post_delivery_event}
use linux_server.Net.Context.Requests.{in_flight}
use linux_server.Net.Server.{TcpServer, TcpServerTimeoutOptions, fd}
use linux_server.Net.Server.Sockets.{got}
use linux_server.Net.Server.Events.{
  Event, EventMask, accepted, client, worker_ready, worked, step, run, start_server, AllPossible,
}
use linux_server.Net.Server.Tracking.{tokens, marks, resumes, running}
use linux_server.Net.Server.Tracking.Jobs.{MarksOnce}
use linux_server.Net.Server.Tracking.Running.{run-accounts, run-wakes, run-found}

abbrev relay_result : Bytes → HandleResult
relay_result text = record {
  response = text;
  pushes =
      record {
        target_conn_id = 2;
        target_user_id = pos 5;
        payload = codes "hi";
        message_id = codes "m";
      }
      ∷ [];
  session_action = SessionAction.none;
  pending_session = record { authenticated = false; user_id = pos 0; username = []; token = [] };
  delivered_message_ids = [];
  delivered_user_id = pos 0;
}

abbrev relay : IMessageHandler ℕ
relay = record {
  handle = λ text context h. (some (relay_result text), h + 1);
  on_connection_closed = λ id h. h;
  apply_bind_session = λ id session h. h;
  apply_unbind_session = λ id h. h;
  is_connection_bound_to_user = λ id user_id h. true;
  on_messages_delivered = λ user_id ids h. h;
}

relay-MarksOnce : MarksOnce relay
relay-MarksOnce text context h result e = ground arith

abbrev options : TcpServerTimeoutOptions
options = record { idle_timeout_ms = 300000; heartbeat_timeout_ms = 90000 }

abbrev readable : EventMask
readable = record { error = false; readable = true; writable = false; hung_up = false }

-- Two requests of connection 1 arrive together; the first is answered with a push to connection 2
-- and the second goes to a worker. Connection 2 is fenced, and its own request waits.
abbrev history : List Event
history =
    accepted (pos 7) (codes "10.0.0.1") 4000 1
    ∷ accepted (pos 8) (codes "10.0.0.2") 4000 1
    ∷ client (pos 7) readable (got (codes "a\nb\n") 2 ∷ []) []
    ∷ worked 0
    ∷ worker_ready
    ∷ client (pos 8) readable (got (codes "c\n") 3 ∷ []) []
    ∷ []

abbrev begun : TcpServer ℕ
begun = start_server ℕ 0 options (true ∷ true ∷ []) (true ∷ [])

history_possible : AllPossible relay begun history
unfolding run step start_server lookup insert erase
history_possible = ((refl, omega arith), ((refl, omega arith), (tt, (tt, (tt, (tt, tt))))))

abbrev fenced : ConnectionContext
fenced = record {
  connection = record { conn_fd = pos 8; peer_ip = codes "10.0.0.2"; peer_port = 4000 };
  conn_id = 2;
  pending_send = codes "hi\n";
  packet_codec = record { buffer = [] };
  meta = record {
    conn_id = 2;
    fd = pos 8;
    peer_ip = codes "10.0.0.2";
    peer_port = 4000;
    connected_at = 1;
    last_recv_at = 3;
    last_send_at = 1;
    last_active_at = 3;
    authenticated_user_id = pos 0;
    recv_count = 1;
    send_count = 0;
    recv_bytes = 2;
    sent_bytes = 0;
    state = linux_server.Net.Context.State.connected;
  };
  request_in_flight = false;
  pending_requests = codes "c" ∷ [];
  pending_delivery_marks = pos 1;
}

history_fences : lookup 2 (run relay begun history).connections ≡ some fenced
unfolding run start_server lookup insert feed_packet_data feed feed_loop touch_on_recv new find
    finish strip_return start_request_or_queue run_response_task finish_request_and_pop_next
    append_pending_send increment_pending_delivery_marks encode
history_fences = refl

-- The pool refuses the mark of the push: connection 2 is not fenced any more, and its own request
-- goes to a worker at once.
abbrev refusing : TcpServer ℕ
refusing = start_server ℕ 0 options [] (true ∷ false ∷ [])

abbrev unfenced : ConnectionContext
unfenced = record fenced {
  request_in_flight = true;
  pending_requests = [];
  pending_delivery_marks = pos 0;
}

refusing_possible : AllPossible relay refusing history
unfolding run step start_server lookup insert erase
refusing_possible = ((refl, omega arith), ((refl, omega arith), (tt, (tt, (tt, (tt, tt))))))

refused_mark : lookup 2 (run relay refusing history).connections ≡ some unfenced
unfolding run start_server lookup insert feed_packet_data feed feed_loop touch_on_recv new find
    finish strip_return start_request_or_queue run_response_task finish_request_and_pop_next
    append_pending_send increment_pending_delivery_marks encode run_post_delivery_event
    pop_next_request_if_idle decrement_pending_delivery_marks
refused_mark = refl

run-accounts_example :
    (running (run relay refusing history) ≡ true
      → tokens 2 [] [] (run relay refusing history) ≡ in_flight unfenced)
    × (unfenced.pending_delivery_marks ≡ pos (marks 2 (run relay refusing history)))
run-accounts_example =
    run-accounts relay relay-MarksOnce 0 options [] (true ∷ false ∷ []) history refusing_possible 2
      unfenced refused_mark

run-wakes_example : 0 < marks 2 (run relay begun history) + resumes 2 [] (run relay begun history)
run-wakes_example =
    run-wakes relay relay-MarksOnce 0 options (true ∷ true ∷ []) (true ∷ []) history
      history_possible 2 fenced history_fences refl refl

run-found_example :
    (lookup (fd fenced) (run relay begun history).fd_to_context ≡ some 2)
    × (2 < (run relay begun history).next_conn_id)
run-found_example =
    run-found relay relay-MarksOnce 0 options (true ∷ true ∷ []) (true ∷ []) history
      history_possible 2 fenced history_fences
