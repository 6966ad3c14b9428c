-- ===== src/Net/Server/Tracking/Reading.antt =====
-- The account while packets arrive (src/TcpServer.cc, `onReadable`). A request that the pool does
-- not take leaves its connection out of balance until it is closed, which is the next step.
use linux_server.Base.{
  ℕ, ℤ, suc, ◌≡◌, refl, sym, ap, subst, ◌∙◌, Bool, true, false, List, [], ◌∷◌, some, inl, inr,
  arith, Bytes, length, is_empty, lookup, insert, erase, nat_beq_iff, int_beq_iff, Bool-cases,
  Option-cases, nat_eq, int_eq, if◌then◌else◌, lookup-insert, lookup-erase,
}
use linux_server.Net.Handler.{IMessageHandler}
use linux_server.Net.Context.{
  ConnectionContext, start_request_or_queue, touch_on_recv, touch_on_packet, feed_packet_data,
}
use linux_server.Net.Server.{
  TcpServer, RequestTask, ResponseTask, PostDeliveryEvent, fd, set_context, unregister_connection,
  dispatch_connection_closed, close_client_fd, drop_authenticated,
}
use linux_server.Net.Server.Workers.{submit_request_task}
use linux_server.Net.Server.Sockets.{
  accept_packet, accept_packets, receive_chunk, receive, on_readable, RecvResult, got,
  end_of_stream, recv_would_block, recv_failed,
}
use linux_server.Net.Server.Balance.{Same, Balanced, start-Balanced, start-conn_fd, true-ne-false}
use linux_server.Net.Server.Tracking.{
  Tracked, write-Tracked, keep-Tracked, lookup-lt-next, running, tokens, marks, resumes,
}
use linux_server.Net.Server.Tracking.Closing.{
  set_context-Tracked, dispatch_connection_closed-Tracked, close_client_fd-Tracked,
}
use linux_server.Net.Server.Tracking.Working.{
  Owed, unsubmitted, submit_request_task-cases, submitted-Tracked,
}

-- feedPacketData touches the codec and the time of the last packet alone.
feed-Same :
    (c : ConnectionContext) (now : ℕ) (bytes : Bytes)
    → Same c (feed_packet_data (touch_on_recv c now (length bytes)) now bytes).0
unfolding feed_packet_data touch_on_recv touch_on_packet
feed-Same c now bytes = (ground arith, ground arith, ground arith, ground arith)

-- The socket of the connection, while it is in the table.
abbrev pub At : {H : Type 0} → ℕ → ℤ → TcpServer H → Type 0
At id conn_fd s = (c : ConnectionContext) → lookup id s.connections ≡ some c → fd c ≡ conn_fd

set_context-At :
    {H : Type 0} (id : ℕ) (conn_fd : ℤ) (d : ConnectionContext) (s : TcpServer H)
    → fd d ≡ conn_fd
    → At id conn_fd (set_context id d s)
unfolding set_context
set_context-At id conn_fd d s e c f =
    ground (arith, lookup-insert id id d s.connections, nat_beq_iff id id)

abbrev unregistered : {H : Type 0} → ℕ → ConnectionContext → TcpServer H → TcpServer H
unregistered id c s = record s {
  connections = erase id s.connections;
  fd_to_context = erase (fd c) s.fd_to_context;
  authenticated_connections =
      drop_authenticated c.meta.authenticated_user_id id s.authenticated_connections;
}

close_lem :
    {H : Type 0} (handler : IMessageHandler H) (id : ℕ) (conn_fd : ℤ) (c : ConnectionContext)
    (s : TcpServer H)
    → lookup conn_fd s.fd_to_context ≡ some id
    → lookup id s.connections ≡ some c
    → close_client_fd handler conn_fd s
      ≡ dispatch_connection_closed handler id (unregistered id c s)
unfolding close_client_fd
close_lem handler id conn_fd c s at e = rw (at, e, close_client_fd, unregister_connection)

-- After a packet the account holds, or it holds as soon as the connection is closed.
abbrev Accepts :
    {H : Type 0}
    → IMessageHandler H
    → List ResponseTask
    → List PostDeliveryEvent
    → ℕ
    → ℤ
    → Bool × TcpServer H
    → Type 0
Accepts handler ts es id conn_fd r =
    (r.0 ≡ true → Tracked ts es r.1 × At id conn_fd r.1)
    × (r.0 ≡ false → Tracked ts es (close_client_fd handler conn_fd r.1))

module _ {H : Type 0} (handler : IMessageHandler H) {ts : List ResponseTask}
    {es : List PostDeliveryEvent} where
  -- Whatever its context says, a connection that is closed is out of the account.
  close_written-Tracked :
      (id : ℕ) (c d : ConnectionContext) (s : TcpServer H)
      → Tracked ts es s
      → lookup id s.connections ≡ some c
      → fd d ≡ fd c
      → Tracked ts es (close_client_fd handler (fd c) (set_context id d s))
  unfolding set_context
  close_written-Tracked id c d s v e same =
      let written : lookup id (insert id d s.connections) ≡ some d =
        ground (arith, lookup-insert id id d s.connections, nat_beq_iff id id) in
      rw (close_lem handler id (fd c) d (set_context id d s) (v.found id c e) written) (
        dispatch_connection_closed-Tracked handler id _ (
          keep-Tracked ts es s (unregistered id d (set_context id d s)) v
            (λ j x f.
              let old : lookup j s.connections ≡ some x = ground (
                arith,
                lookup-erase id j (insert id d s.connections),
                lookup-insert id j d s.connections,
              ) in
              (
                old,
                ground (
                  arith,
                  lookup-erase id j (insert id d s.connections),
                  lookup-erase (fd d) (fd x) s.fd_to_context,
                  v.found j x old,
                  v.found id c e,
                  int_beq_iff (fd d) (fd x),
                  nat_beq_iff id j,
                ),
              ))
            (λ j. (refl, refl, omega arith)) refl refl v.single_queued))

  accept_started-Accepts :
      (id : ℕ) (packet : Bytes) (c d : ConnectionContext) (s : TcpServer H)
      → Tracked ts es s
      → lookup id s.connections ≡ some c
      → fd d ≡ fd c
      → Owed ts ts es es id d s
      → Accepts handler ts es id (fd c) (
          submit_request_task
            (record { conn_id = id; peer_ip = c.meta.peer_ip; request = packet })
            (set_context id d s))
  unfolding set_context
  accept_started-Accepts id packet c d s v e same o =
      let task : RequestTask = record {
        conn_id = id;
        peer_ip = c.meta.peer_ip;
        request = packet;
      } in
      elim (submit_request_task-cases task (set_context id d s)) [
        | inl f ↦ rw f (
          λ h. (submitted-Tracked task d s v o, set_context-At id (fd c) d s same),
          λ h. absurd (true-ne-false h),
        )
        | inr (inl f) ↦
            rw f (λ h. absurd (true-ne-false (sym h)), λ h. close_written-Tracked id c d s v e same)
        | inr (inr f) ↦ rw f (
          λ h. absurd (true-ne-false (sym h)),
          λ h.
              close_written-Tracked id c d (unsubmitted s)
                (record {
                  live = v.live;
                  found = v.found;
                  fresh = v.fresh;
                  single_held = v.single_held;
                  single_queued = v.single_queued;
                })
                e same,
        )
      ]

  queued-Tracked :
      (id : ℕ) (c d : ConnectionContext) (s : TcpServer H)
      → Tracked ts es s
      → lookup id s.connections ≡ some c
      → fd d ≡ fd c
      → Balanced (running s) (tokens id ts es s) (marks id s) (resumes id es s) d
      → Tracked ts es (set_context id d s)
  unfolding set_context
  queued-Tracked id c d s v e same account =
      write-Tracked ts ts es es s _ id d refl v (lookup-lt-next id c v e)
        (λ j off. (refl, refl, omega arith)) account
        (ap (λ x. lookup x s.fd_to_context) same ∙ v.found id c e) refl refl refl v.single_held
        v.single_queued

  accept_packet-Accepts :
      (id : ℕ) (conn_fd : ℤ) (packet : Bytes) (s : TcpServer H)
      → Tracked ts es s
      → At id conn_fd s
      → Accepts handler ts es id conn_fd (accept_packet handler id packet s)
  unfolding accept_packet
  accept_packet-Accepts id conn_fd packet s v at = elim (Option-cases (lookup id s.connections)) [
    | inl e ↦ rw (e, accept_packet) (λ h. (v, at), λ h. absurd (true-ne-false h))
    | inr (c, e) ↦
        let d = (start_request_or_queue c packet).0 in
        let same : fd d ≡ fd c = start-conn_fd c packet in
        let account =
          start-Balanced (running s) (tokens id ts es s) (marks id s) (resumes id es s) c packet
            (v.live id c e) in
        elim (Bool-cases (is_empty packet)) [
          | inl blank ↦ rw (e, blank, accept_packet) (λ h. (v, at), λ h. absurd (true-ne-false h))
          | inr some_text ↦ elim (Bool-cases (start_request_or_queue c packet).1) [
            | inl starts ↦
                rw (e, some_text, starts, accept_packet)
                  (subst
                    (λ x. Accepts handler ts es id x (
                      submit_request_task
                        (record { conn_id = id; peer_ip = c.meta.peer_ip; request = packet })
                        (set_context id d s)))
                    (at c e)
                    (accept_started-Accepts id packet c d s v e same (record {
                      taken = record {
                        tokens_elsewhere = λ j off. refl;
                        resumes_elsewhere = λ j off. omega arith;
                        single = v.single_held;
                      };
                      account =
                          subst
                            (λ b.
                              Balanced (running s)
                                (if b then suc (tokens id ts es s) else tokens id ts es s)
                                (marks id s) (resumes id es s) d)
                            starts account;
                      at = ap (λ x. lookup x s.fd_to_context) same ∙ v.found id c e;
                      below = lookup-lt-next id c v e;
                    })))
            | inr waits ↦
                rw (e, some_text, waits, accept_packet)
                  (
                    λ h. (
                      queued-Tracked id c d s v e same (
                          subst
                            (λ b.
                              Balanced (running s)
                                (if b then suc (tokens id ts es s) else tokens id ts es s)
                                (marks id s) (resumes id es s) d)
                            waits account),
                      set_context-At id conn_fd d s (same ∙ at c e),
                    ),
                    λ h. absurd (true-ne-false h),
                  )
          ]
        ]
  ]

  accept_packets-Accepts :
      (id : ℕ) (conn_fd : ℤ) (packets : List Bytes) (s : TcpServer H)
      → Tracked ts es s
      → At id conn_fd s
      → Accepts handler ts es id conn_fd (accept_packets handler id packets s)
  unfolding accept_packets
  accept_packets-Accepts id conn_fd [] s v at = (λ h. (v, at), λ h. absurd (true-ne-false h))
  accept_packets-Accepts id conn_fd (packet ∷ packets) s v at =
      let (good, bad) = accept_packet-Accepts id conn_fd packet s v at in
      elim (Bool-cases (accept_packet handler id packet s).0) [
        | inl taken ↦
            rw (taken, accept_packets)
              (accept_packets-Accepts id conn_fd packets (accept_packet handler id packet s).1
                (good taken).0 (good taken).1)
        | inr refused ↦
            rw (refused, accept_packets) (λ h. absurd (true-ne-false (sym h)), λ h. bad refused)
      ]

  receive_chunk-Tracked :
      (id : ℕ) (bytes : Bytes) (now : ℕ) (s : TcpServer H)
      → Tracked ts es s
      → Tracked ts es (receive_chunk handler id bytes now s).1
  unfolding receive_chunk
  receive_chunk-Tracked id bytes now s v = elim (Option-cases (lookup id s.connections)) [
    | inl e ↦ rw (e, receive_chunk) v
    | inr (c, e) ↦
        let fed = feed_packet_data (touch_on_recv c now (length bytes)) now bytes in
        let s' = set_context id fed.0 s in
        let same = feed-Same c now bytes in
        let w : Tracked ts es s' = set_context-Tracked id c fed.0 s e same v in
        elim (Option-cases fed.1) [
          | inl f ↦ rw (e, f, receive_chunk) (close_client_fd-Tracked handler (fd c) s' w)
          | inr (ps, f) ↦
              let (good, bad) =
                accept_packets-Accepts id (fd c) ps s' w
                  (set_context-At id (fd c) fed.0 s same.3) in
              elim (Bool-cases (accept_packets handler id ps s').0) [
                | inl taken ↦ rw (e, f, taken, receive_chunk) (good taken).0
                | inr refused ↦ rw (e, f, refused, receive_chunk) (bad refused)
              ]
        ]
  ]

  receive-Tracked :
      (id : ℕ) (conn_fd : ℤ) (results : List RecvResult) (s : TcpServer H)
      → Tracked ts es s
      → Tracked ts es (receive handler id conn_fd results s)
  unfolding receive
  receive-Tracked id conn_fd [] s v = v
  receive-Tracked id conn_fd (got bytes now ∷ later) s v =
      let w = receive_chunk-Tracked id bytes now s v in
      elim (Bool-cases (receive_chunk handler id bytes now s).0) [
        | inl on ↦
            rw (on, receive)
              (receive-Tracked id conn_fd later (receive_chunk handler id bytes now s).1 w)
        | inr off ↦ rw (off, receive) w
      ]
  receive-Tracked id conn_fd (end_of_stream ∷ later) s v = v
  receive-Tracked id conn_fd (recv_would_block ∷ later) s v = v
  receive-Tracked id conn_fd (recv_failed ∷ later) s v = close_client_fd-Tracked handler conn_fd s v

  pub on_readable-Tracked :
      (conn_fd : ℤ) (results : List RecvResult) (s : TcpServer H)
      → Tracked ts es s
      → Tracked ts es (on_readable handler conn_fd results s)
  unfolding on_readable
  on_readable-Tracked conn_fd results s v = elim (Option-cases (lookup conn_fd s.fd_to_context)) [
    | inl e ↦ rw (e, on_readable) v
    | inr (id, e) ↦ rw (e, on_readable) (receive-Tracked id conn_fd results s v)
  ]
