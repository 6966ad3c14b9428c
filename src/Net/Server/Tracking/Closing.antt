-- ===== src/Net/Server/Tracking/Closing.antt =====
-- The account under the steps that start or end no request (src/TcpServer.cc): new connections,
-- bytes queued, and the end of a connection.
use linux_server.Base.{
  ℕ, ◌+◌, ◌^◌, ◌<◌, ◌≤◌, ◌≡◌, refl, List, [], ◌∷◌, none, some, inl, inr, arith, Bytes, lookup, ℤ,
  nat_beq, nat_beq_iff, Bool-cases, Option-cases, nat_eq, int_eq, int_beq_iff, subst, lookup-insert,
  lookup-erase,
}
use linux_server.Net.Handler.{IMessageHandler}
use linux_server.Net.Context.{ConnectionContext, new}
use linux_server.Net.Server.{
  TcpServer, ResponseTask, PostDeliveryEvent, clean_up, set_context, submit, fd,
  register_connection, unregister_connection, dispatch_connection_closed, close_client_fd,
}
use linux_server.Net.Server.Balance.{Same, Balanced, weaken-Balanced, Same-Balanced, new-Balanced}
use linux_server.Net.Server.Tracking.{
  Tracked, change-Tracked, keep-Tracked, if-Tracked, lookup-lt-next, running, tokens, marks,
  resumes, total-append, job_tokens, job_marks,
}

module _ {H : Type 0} {ts : List ResponseTask} {es : List PostDeliveryEvent} where
  -- A method that does not touch the queue of requests and the marks.
  pub set_context-Tracked :
      (id : ℕ) (c d : ConnectionContext) (s : TcpServer H)
      → lookup id s.connections ≡ some c
      → Same c d
      → Tracked ts es s
      → Tracked ts es (set_context id d s)
  unfolding set_context
  set_context-Tracked id c d s e same v =
      change-Tracked ts ts es es s _ id v (lookup-lt-next id c v e)
        (λ j off. (ground (arith, lookup-insert id j d s.connections), refl, refl, omega arith))
        (λ x f.
          let eq : d ≡ x = ground (arith, lookup-insert id id d s.connections, nat_beq_iff id id) in
          (
            Same-Balanced _ _ _ _ c x (ground arith) (v.live id c e),
            ground (arith, v.found id c e),
          ))
        refl refl refl v.single_held v.single_queued

  pub submit_clean_up-Tracked :
      (id : ℕ) (s : TcpServer H) → Tracked ts es s → Tracked ts es (submit (clean_up id) s).1
  unfolding submit
  submit_clean_up-Tracked id s v =
      keep-Tracked ts es s _ v (λ j c e. (e, v.found j c e))
        (λ j. (
          ground (arith, total-append (job_tokens j) s.jobs (clean_up id ∷ [])),
          ground (arith, total-append (job_marks j) s.jobs (clean_up id ∷ [])),
          omega arith,
        ))
        refl refl v.single_queued

  pub unregister_connection-Tracked :
      (id : ℕ) (s : TcpServer H) → Tracked ts es s → Tracked ts es (unregister_connection id s).1
  unfolding unregister_connection
  unregister_connection-Tracked id s v = elim (Option-cases (lookup id s.connections)) [
    | inl e ↦ rw (e, unregister_connection) v
    | inr (c, e) ↦
        rw (e, unregister_connection)
          (keep-Tracked ts es s _ v
            (λ j d f.
              let old : lookup j s.connections ≡ some d =
                ground (arith, lookup-erase id j s.connections) in
              (
                old,
                ground (
                  arith,
                  lookup-erase id j s.connections,
                  lookup-erase (fd c) (fd d) s.fd_to_context,
                  v.found j d old,
                  v.found id c e,
                  int_beq_iff (fd c) (fd d),
                  nat_beq_iff id j,
                ),
              ))
            (λ j. (refl, refl, omega arith)) refl refl v.single_queued)
  ]

  pub register_connection-Tracked :
      (conn_fd : ℤ) (ip : Bytes) (port now : ℕ) (s : TcpServer H)
      → lookup conn_fd s.fd_to_context ≡ none
      → s.next_conn_id + 1 < 2 ^ 64
      → Tracked ts es s
      → Tracked ts es (register_connection conn_fd ip port now s)
  unfolding register_connection new
  register_connection-Tracked conn_fd ip port now s h0 h v =
      let fresh_context =
        new (record { conn_fd = conn_fd; peer_ip = ip; peer_port = port }) s.next_conn_id now in
      record {
        live = λ id c e. elim (Bool-cases (nat_beq s.next_conn_id id)) [
          | inl at ↦
              let eq : s.next_conn_id ≡ id = (nat_beq_iff s.next_conn_id id).0 at in
              let made : fresh_context ≡ c =
                ground (arith, lookup-insert s.next_conn_id id fresh_context s.connections) in
              let (gone, no_tok, no_mk) = v.fresh id (omega arith) in
              subst (Balanced (running s) (tokens id ts es s) (marks id s) (resumes id es s)) made (
                weaken-Balanced (running s) (running s) 0 _ 0 _ _ _ fresh_context refl no_tok no_mk
                  (omega arith)
                  (new-Balanced (running s) 0 0 (resumes id es s) _ s.next_conn_id now))
          | inr off ↦
              v.live id c
                (ground (arith, lookup-insert s.next_conn_id id fresh_context s.connections))
        ];
        found = λ id c e. ground (
          arith,
          lookup-insert s.next_conn_id id fresh_context s.connections,
          lookup-insert conn_fd (fd c) s.next_conn_id s.fd_to_context,
          v.found id c,
          nat_beq_iff s.next_conn_id id,
          int_beq_iff conn_fd (fd c),
        );
        fresh = λ id g.
            let above : s.next_conn_id + 1 ≤ id = omega arith in
            let (gone, no_tok, no_mk) = v.fresh id (omega arith) in
            (
              ground (arith, lookup-insert s.next_conn_id id fresh_context s.connections),
              no_tok,
              no_mk,
            );
        single_held = v.single_held;
        single_queued = v.single_queued;
      }

  module _ (handler : IMessageHandler H) where
    pub dispatch_connection_closed-Tracked :
        (id : ℕ) (s : TcpServer H)
        → Tracked ts es s
        → Tracked ts es (dispatch_connection_closed handler id s)
    unfolding dispatch_connection_closed
    dispatch_connection_closed-Tracked id s v =
        let w = submit_clean_up-Tracked id s v in
        if-Tracked (submit (clean_up id) s).0 (submit (clean_up id) s).1 _ w (record {
          live = w.live;
          found = w.found;
          fresh = w.fresh;
          single_held = w.single_held;
          single_queued = w.single_queued;
        })

    pub close_client_fd-Tracked :
        (conn_fd : ℤ) (s : TcpServer H)
        → Tracked ts es s
        → Tracked ts es (close_client_fd handler conn_fd s)
    unfolding close_client_fd
    close_client_fd-Tracked conn_fd s v = elim (Option-cases (lookup conn_fd s.fd_to_context)) [
      | inl e ↦ rw (e, close_client_fd) v
      | inr (id, e) ↦
          rw (e, close_client_fd)
            (if-Tracked (unregister_connection id s).0 _ _
              (dispatch_connection_closed-Tracked id _ (unregister_connection-Tracked id s v))
              (unregister_connection-Tracked id s v))
    ]
