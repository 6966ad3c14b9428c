-- ===== src/Net/Server/Sockets.antt =====
-- Reading from and writing to the clients (src/TcpServer.cc, `onReadable`, `onWritable`). What
-- `recv` and `send` answer is a list of results; at its end the socket would block.
use linux_server.Base.{
  ℕ, Bool, true, false, List, [], ◌∷◌, none, some, Bytes, is_empty, ℤ, lookup, int_eq, nat_eq,
  if◌then◌else◌,
}
use linux_server.Net.Handler.{IMessageHandler}
use linux_server.Net.Context.{
  ConnectionContext, touch_on_recv, touch_on_send, feed_packet_data, start_request_or_queue,
  peek_pending_send, consume_pending_send, has_pending_send,
}
use linux_server.Base.{length}
use linux_server.Net.Server.{TcpServer, fd, set_context, disable_writable_event, close_client_fd}
use linux_server.Net.Server.Workers.{submit_request_task}

-- `got bytes now`; a half-closed peer reads as the end of the stream.
pub data RecvResult : Type 0 where
  got : Bytes → ℕ → RecvResult
  end_of_stream recv_would_block recv_failed : RecvResult

-- `took n now`: n bytes, n > 0, went out.
pub data SendResult : Type 0 where
  took : ℕ → ℕ → SendResult
  took_nothing send_would_block send_failed : SendResult

module _ {H : Type 0} (handler : IMessageHandler H) where
  -- A packet that is not empty starts a request or waits; `false` if it could not be submitted.
  unfoldable pub accept_packet : ℕ → Bytes → TcpServer H → Bool × TcpServer H
  unfolding submit_request_task set_context
  accept_packet id packet s = elim (lookup id s.connections) [
    | none ↦ (true, s)
    | some c ↦
        let (c', starts) = start_request_or_queue c packet in
        if is_empty packet
        then (true, s)
        else if starts
        then submit_request_task
            (record { conn_id = id; peer_ip = c.meta.peer_ip; request = packet })
            (set_context id c' s)
        else (true, set_context id c' s)
  ]

  unfoldable pub accept_packets : ℕ → List Bytes → TcpServer H → Bool × TcpServer H
  unfolding accept_packet
  accept_packets id [] s = (true, s)
  accept_packets id (packet ∷ packets) s = elim (accept_packet id packet s).0 [
    | true ↦ accept_packets id packets (accept_packet id packet s).1
    | false ↦ (false, (accept_packet id packet s).1)
  ]

  -- One chunk; `false` if the connection was closed.
  unfoldable pub receive_chunk : ℕ → Bytes → ℕ → TcpServer H → Bool × TcpServer H
  unfolding accept_packets set_context
  receive_chunk id bytes now s = elim (lookup id s.connections) [
    | none ↦ (false, s)
    | some c ↦
        let (c', packets) = feed_packet_data (touch_on_recv c now (length bytes)) now bytes in
        let s' = set_context id c' s in
        elim packets [
          | none ↦ (false, close_client_fd handler (fd c) s')
          | some ps ↦
              let (accepted, s'') = accept_packets id ps s' in
              if accepted then (true, s'') else (false, close_client_fd handler (fd c) s'')
        ]
  ]

  unfoldable pub receive : ℕ → ℤ → List RecvResult → TcpServer H → TcpServer H
  unfolding receive_chunk
  receive id conn_fd [] s = s
  receive id conn_fd (got bytes now ∷ later) s = elim (receive_chunk id bytes now s).0 [
    | true ↦ receive id conn_fd later (receive_chunk id bytes now s).1
    | false ↦ (receive_chunk id bytes now s).1
  ]
  receive id conn_fd (end_of_stream ∷ later) s = s
  receive id conn_fd (recv_would_block ∷ later) s = s
  receive id conn_fd (recv_failed ∷ later) s = close_client_fd handler conn_fd s

  unfoldable pub on_readable : ℤ → List RecvResult → TcpServer H → TcpServer H
  unfolding receive
  on_readable conn_fd results s = elim (lookup conn_fd s.fd_to_context) [
    | none ↦ s
    | some id ↦ receive id conn_fd results s
  ]

  -- Nothing is left to send: the connection is no longer watched for room.
  unfoldable pub stop_watching : ℤ → TcpServer H → TcpServer H
  unfolding disable_writable_event
  stop_watching conn_fd s =
      let (disabled, s') = disable_writable_event conn_fd s in
      if disabled then s' else close_client_fd handler conn_fd s'

  unfoldable pub send_all : ℕ → ℤ → ConnectionContext → List SendResult → TcpServer H → TcpServer H
  unfolding stop_watching set_context
  send_all id conn_fd c [] s = elim (peek_pending_send c) [
    | none ↦ stop_watching conn_fd s
    | some text ↦ s
  ]
  send_all id conn_fd c (took n now ∷ later) s =
      let c' = consume_pending_send (touch_on_send c now n) n in
      let rest = send_all id conn_fd c' later (set_context id c' s) in
      elim (peek_pending_send c) [ none ↦ stop_watching conn_fd s | some text ↦ rest ]
  send_all id conn_fd c (took_nothing ∷ later) s = elim (peek_pending_send c) [
    | none ↦ stop_watching conn_fd s
    | some text ↦ close_client_fd handler conn_fd s
  ]
  send_all id conn_fd c (send_would_block ∷ later) s = elim (peek_pending_send c) [
    | none ↦ stop_watching conn_fd s
    | some text ↦ s
  ]
  send_all id conn_fd c (send_failed ∷ later) s = elim (peek_pending_send c) [
    | none ↦ stop_watching conn_fd s
    | some text ↦ close_client_fd handler conn_fd s
  ]

  unfoldable pub on_writable : ℤ → List SendResult → TcpServer H → TcpServer H
  unfolding send_all
  on_writable conn_fd results s = elim (lookup conn_fd s.fd_to_context) [
    | none ↦ s
    | some id ↦ elim (lookup id s.connections) [
      | none ↦ s
      | some c ↦ send_all id conn_fd c results s
    ]
  ]

unfoldable pub has_pending_send_of : {H : Type 0} → ℤ → TcpServer H → Bool
has_pending_send_of conn_fd s = elim (lookup conn_fd s.fd_to_context) [
  | none ↦ false
  | some id ↦ elim (lookup id s.connections) [ none ↦ false | some c ↦ has_pending_send c ]
]
