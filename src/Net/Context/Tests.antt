-- ===== src/Net/Context/Tests.antt =====
-- Runs of a connection's queues (src/ConnectionContext.cc), and the theorems at concrete inputs.
use linux_server.Base.{◌≡◌, refl, false, [], ◌∷◌, ◌++◌, List, codes, pos, none}
use linux_server.Net.Context.{
  ConnectionContext, TcpConnection, new, start_request_or_queue, finish_request_and_pop_next,
  should_defer_timeout, increment_pending_delivery_marks, decrement_pending_delivery_marks,
  pop_next_request_if_idle, is_fenced,
}
use linux_server.Net.Context.Requests.{
  Call, arrives, finishes, resumes, fences, unfences, run, step, AllAllowed, run-fifo, step-fenced,
}
use linux_server.Net.Context.Sending
use linux_server.Net.Context.Sending.{queued, wrote, queued_bytes, run-in_order}

abbrev connection : TcpConnection
connection = record { conn_fd = pos 5; peer_ip = codes "10.0.0.1"; peer_port = 4000 }

abbrev idle : ConnectionContext
idle = record {
  connection = connection;
  conn_id = 1;
  pending_send = [];
  packet_codec = record { buffer = [] };
  meta = record {
    conn_id = 1;
    fd = pos 5;
    peer_ip = codes "10.0.0.1";
    peer_port = 4000;
    connected_at = 0;
    last_recv_at = 0;
    last_send_at = 0;
    last_active_at = 0;
    authenticated_user_id = pos 0;
    recv_count = 0;
    send_count = 0;
    recv_bytes = 0;
    sent_bytes = 0;
    state = linux_server.Net.Context.State.connected;
  };
  request_in_flight = false;
  pending_requests = [];
  pending_delivery_marks = pos 0;
}

new_is_idle : new connection 1 0 ≡ idle
unfolding new
new_is_idle = refl

abbrev history : List Call
history =
    arrives (codes "a")
    ∷ arrives (codes "b")
    ∷ fences
    ∷ finishes
    ∷ arrives (codes "c")
    ∷ unfences
    ∷ resumes
    ∷ []

history_starts : (run idle history).1 ≡ codes "a" ∷ codes "b" ∷ []
unfolding run step start_request_or_queue finish_request_and_pop_next pop_next_request_if_idle
    increment_pending_delivery_marks decrement_pending_delivery_marks
history_starts = refl

history-AllAllowed : AllAllowed idle history
unfolding step start_request_or_queue finish_request_and_pop_next pop_next_request_if_idle
    increment_pending_delivery_marks decrement_pending_delivery_marks
history-AllAllowed = (tt, (tt, (tt, (refl, (tt, (tt, (tt, tt)))))))

run-fifo_example :
    (run idle history).1 ++ (run idle history).0.pending_requests
    ≡ codes "a" ∷ codes "b" ∷ codes "c" ∷ []
run-fifo_example = run-fifo idle history

abbrev fenced : ConnectionContext
fenced = record idle { pending_delivery_marks = pos 2; pending_requests = codes "a" ∷ [] }

step-fenced_example : (step fenced finishes).1 ≡ none
step-fenced_example = step-fenced fenced finishes refl

abbrev waiting : ConnectionContext
waiting = record idle { pending_requests = codes "a" ∷ [] }

run-in_order_example :
    (Sending.run idle (queued (codes "abc") ∷ wrote 2 ∷ queued (codes "d") ∷ wrote 1 ∷ [])).1
      ++ (Sending.run idle
          (queued (codes "abc") ∷ wrote 2 ∷ queued (codes "d") ∷ wrote 1 ∷ [])).0.pending_send
    ≡ codes "abcd"
run-in_order_example =
    run-in_order idle (queued (codes "abc") ∷ wrote 2 ∷ queued (codes "d") ∷ wrote 1 ∷ [])
