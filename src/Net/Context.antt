-- ===== src/Net/Context.antt =====
-- `ConnectionContext` (src/ConnectionContext.cc, include/net/ConnectionContext.h): one connection's
-- buffers, request queue and statistics. Each method runs under `request_mutex_` or on the I/O
-- thread alone, so it is one step; `now` is the reading of the steady clock that it makes.
pub mod Requests
pub mod Sending
mod Tests
use linux_server.Base.{
  ℕ, ◌+◌, ◌%◌, ◌^◌, Bool, true, false, ◌&&◌, ◌||◌, not, List, [], ◌∷◌, ◌++◌, Option, none, some,
  Bytes, length, drop, is_empty, leb, ℤ, pos, le_zero, int_suc, int_pred, ◌==◌, int_eq, nat_beq,
  if◌then◌else◌,
}
use linux_server.Codec.Packet.{PacketCodec, fresh, feed}

-- The socket and its peer. `recv`, `send` and `close` are the system's.
pub record TcpConnection : Type 0 where
  pub conn_fd : ℤ
  pub peer_ip : Bytes
  pub peer_port : ℕ

pub data State : Type 0 where
  connected closing closed : State

pub record ConnectionMeta : Type 0 where
  pub conn_id : ℕ
  pub fd : ℤ
  pub peer_ip : Bytes
  pub peer_port : ℕ
  pub connected_at : ℕ
  pub last_recv_at : ℕ
  pub last_send_at : ℕ
  pub last_active_at : ℕ
  pub authenticated_user_id : ℤ
  pub recv_count : ℕ
  pub send_count : ℕ
  pub recv_bytes : ℕ
  pub sent_bytes : ℕ
  pub state : State

pub record ConnectionContext : Type 0 where
  pub connection : TcpConnection
  pub conn_id : ℕ
  pub pending_send : Bytes
  pub packet_codec : PacketCodec
  pub meta : ConnectionMeta
  pub request_in_flight : Bool
  pub pending_requests : List Bytes
  pub pending_delivery_marks : ℤ

unfoldable pub new : TcpConnection → ℕ → ℕ → ConnectionContext
new conn id now = record {
  connection = conn;
  conn_id = id;
  pending_send = [];
  packet_codec = fresh;
  meta = record {
    conn_id = id;
    fd = conn.conn_fd;
    peer_ip = conn.peer_ip;
    peer_port = conn.peer_port;
    connected_at = now;
    last_recv_at = now;
    last_send_at = now;
    last_active_at = now;
    authenticated_user_id = pos 0;
    recv_count = 0;
    send_count = 0;
    recv_bytes = 0;
    sent_bytes = 0;
    state = State.connected;
  };
  request_in_flight = false;
  pending_requests = [];
  pending_delivery_marks = pos 0;
}

-- Statistics: the counters are `uint32_t` and `uint64_t`.
unfoldable pub touch_on_recv : ConnectionContext → ℕ → ℕ → ConnectionContext
touch_on_recv c now bytes = record c {
  meta = record (c.meta) {
    last_recv_at = now;
    recv_count = (c.meta.recv_count + 1) % 2 ^ 32;
    recv_bytes = (c.meta.recv_bytes + bytes) % 2 ^ 64;
  };
}

unfoldable pub touch_on_packet : ConnectionContext → ℕ → ConnectionContext
touch_on_packet c now = record c { meta = record (c.meta) { last_active_at = now } }

unfoldable pub touch_on_send : ConnectionContext → ℕ → ℕ → ConnectionContext
touch_on_send c now bytes = record c {
  meta = record (c.meta) {
    last_send_at = now;
    send_count = (c.meta.send_count + 1) % 2 ^ 32;
    sent_bytes = (c.meta.sent_bytes + bytes) % 2 ^ 64;
  };
}

-- The loop over the new packets, which stops at the first that is not empty.
abbrev pub any_non_empty : List Bytes → Bool
any_non_empty [] = false
any_non_empty (p ∷ ps) = not (is_empty p) || any_non_empty ps

-- `none` is `false`: the codec has cleared itself, and the caller closes the connection.
unfoldable pub feed_packet_data :
    ConnectionContext → ℕ → Bytes → ConnectionContext × Option (List Bytes)
unfolding touch_on_packet
feed_packet_data c now chunk =
    let fed = feed c.packet_codec chunk in
    let c' = record c { packet_codec = fed.codec } in
    if fed.ok
    then (if any_non_empty fed.packets then touch_on_packet c' now else c', some fed.packets)
    else (c', none)

unfoldable pub append_pending_send : ConnectionContext → Bytes → ConnectionContext
append_pending_send c text = record c { pending_send = c.pending_send ++ text }

unfoldable pub has_pending_send : ConnectionContext → Bool
has_pending_send c = not (is_empty c.pending_send)

-- `none` is `false`.
unfoldable pub peek_pending_send : ConnectionContext → Option Bytes
peek_pending_send c = if is_empty c.pending_send then none else some c.pending_send

unfoldable pub consume_pending_send : ConnectionContext → ℕ → ConnectionContext
consume_pending_send c bytes =
    if nat_beq bytes 0
    then c
    else if leb (length c.pending_send) bytes
    then record c { pending_send = [] }
    else record c { pending_send = drop bytes c.pending_send }

unfoldable pub clear_pending_send : ConnectionContext → ConnectionContext
clear_pending_send c = record c { pending_send = [] }

unfoldable pub start_request_or_queue : ConnectionContext → Bytes → ConnectionContext × Bool
start_request_or_queue c request =
    if not c.request_in_flight && is_empty c.pending_requests && c.pending_delivery_marks == pos 0
    then (record c { request_in_flight = true }, true)
    else (record c { pending_requests = c.pending_requests ++ request ∷ [] }, false)

-- Takes the front of the queue; the callers have seen that there is one.
pop_front : ConnectionContext → List Bytes → ConnectionContext × Option Bytes
pop_front c [] = (c, none)
pop_front c (request ∷ rest) =
    (record c { pending_requests = rest; request_in_flight = true }, some request)

-- pending_delivery_marks_.load() > 0
abbrev pub is_fenced : ConnectionContext → Bool
is_fenced c = not (le_zero c.pending_delivery_marks)

-- `some next_request` is `true`.
unfoldable pub finish_request_and_pop_next : ConnectionContext → ConnectionContext × Option Bytes
unfolding pop_front
finish_request_and_pop_next c =
    if is_empty c.pending_requests || is_fenced c
    then (record c { request_in_flight = false }, none)
    else pop_front c c.pending_requests

unfoldable pub pop_next_request_if_idle : ConnectionContext → ConnectionContext × Option Bytes
unfolding pop_front
pop_next_request_if_idle c =
    if c.request_in_flight || is_empty c.pending_requests || is_fenced c
    then (c, none)
    else pop_front c c.pending_requests

unfoldable pub clear_pending_requests : ConnectionContext → ConnectionContext
clear_pending_requests c = record c { request_in_flight = false; pending_requests = [] }

unfoldable pub increment_pending_delivery_marks : ConnectionContext → ConnectionContext
increment_pending_delivery_marks c = record c {
  pending_delivery_marks = int_suc c.pending_delivery_marks;
}

unfoldable pub decrement_pending_delivery_marks : ConnectionContext → ConnectionContext
decrement_pending_delivery_marks c = record c {
  pending_delivery_marks = int_pred c.pending_delivery_marks;
}

unfoldable pub should_defer_timeout : ConnectionContext → Bool
should_defer_timeout c =
    c.request_in_flight
    || not (is_empty c.pending_requests)
    || is_fenced c
    || not (is_empty c.pending_send)

unfoldable pub set_authenticated_user_id : ConnectionContext → ℤ → ConnectionContext
set_authenticated_user_id c user_id = record c {
  meta = record (c.meta) { authenticated_user_id = user_id };
}

unfoldable pub clear_authenticated_user_id : ConnectionContext → ConnectionContext
clear_authenticated_user_id c = record c {
  meta = record (c.meta) { authenticated_user_id = pos 0 };
}

unfoldable pub mark_closing : ConnectionContext → ConnectionContext
mark_closing c = record c { meta = record (c.meta) { state = State.closing } }

unfoldable pub mark_closed : ConnectionContext → ConnectionContext
mark_closed c = record c { meta = record (c.meta) { state = State.closed } }
