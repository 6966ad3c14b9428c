-- ===== src/Net/Server/Tracking/Delivering.antt =====
-- The account while the I/O thread works off what the workers left (src/TcpServer.cc,
-- `onWorkerResultReadable`).
use linux_server.Base.{
  ℕ, ℤ, Map, suc, ◌≡◌, refl, false, List, [], ◌∷◌, ◌++◌, some, inl, inr, arith, Bytes, is_empty,
  lookup, insert, nat_beq, nat_beq_iff, Bool-cases, Option-cases, nat_eq, int_eq, lookup-insert,
}
use linux_server.Codec.Packet.{encode}
use linux_server.Net.Handler.{SessionAction, OutboundMessage, IMessageHandler}
use linux_server.Net.Context.{
  ConnectionContext, append_pending_send, increment_pending_delivery_marks,
  decrement_pending_delivery_marks, set_authenticated_user_id, clear_authenticated_user_id,
}
use linux_server.Net.Server.{
  TcpServer, ResponseTask, PostDeliveryEvent, RemotePushTask, mark_and_release, set_context, modify,
  fd, next_result, later_results, enable_writable_event, bind_authenticated_connection,
  unbind_authenticated_connection,
}
use linux_server.Net.Server.Delivery.{
  PushMarks, send_framed, deliver_claimed, run_remote_push, run_remote_pushes, apply_session_action,
  push_one, push_all, mark_cross, mark_all_cross,
}
use linux_server.Net.Server.Balance.{Same, weaken-Balanced, increment-Balanced, decrement-Balanced}
use linux_server.Net.Server.Tracking.{
  Tracked, rewrite-Tracked, write-Tracked, if-Tracked, if_pair-Tracked, lookup-lt-next, running,
  tokens, marks, resumes, total-append, job_tokens, job_marks, event_tokens, event_resumes,
}
use linux_server.Net.Server.Tracking.Closing.{set_context-Tracked, close_client_fd-Tracked}

module _ {H : Type 0} {ts : List ResponseTask} {es : List PostDeliveryEvent} where
  pub unbind-Tracked :
      (id : ℕ) (s : TcpServer H)
      → Tracked ts es s
      → Tracked ts es (unbind_authenticated_connection id s)
  unfolding unbind_authenticated_connection
  unbind-Tracked id s v = elim (Option-cases (lookup id s.connections)) [
    | inl e ↦ rw (e, unbind_authenticated_connection) v
    | inr (c, e) ↦
        rw (e, unbind_authenticated_connection)
          (set_context-Tracked id c (clear_authenticated_user_id c) _ e
            (unfold clear_authenticated_user_id in (refl, refl, refl, refl))
            (record {
              live = v.live;
              found = v.found;
              fresh = v.fresh;
              single_held = v.single_held;
              single_queued = v.single_queued;
            }))
  ]

  modify-Tracked :
      (id : ℕ) (f : ConnectionContext → ConnectionContext) (s : TcpServer H)
      → ((c : ConnectionContext) → Same c (f c))
      → Tracked ts es s
      → Tracked ts es (modify id f s)
  unfolding modify
  modify-Tracked id f s same v = elim (Option-cases (lookup id s.connections)) [
    | inl e ↦ rw (e, modify) v
    | inr (c, e) ↦ rw (e, modify) (set_context-Tracked id c (f c) s e (same c) v)
  ]

  pub bind-Tracked :
      (id : ℕ) (user_id : ℤ) (s : TcpServer H)
      → Tracked ts es s
      → Tracked ts es (bind_authenticated_connection id user_id s)
  unfolding bind_authenticated_connection set_authenticated_user_id
  bind-Tracked id user_id s v =
      let w = unbind-Tracked id s v in
      modify-Tracked id (λ c. set_authenticated_user_id c user_id) _ (λ c. (refl, refl, refl, refl))
        (record {
          live = w.live;
          found = w.found;
          fresh = w.fresh;
          single_held = w.single_held;
          single_queued = w.single_queued;
        })

  -- A connection is fenced until the mark of its pushes is made.
  pub mark_cross-Tracked :
      (id : ℕ) (ids : List Bytes) (user_id : ℤ) (s : TcpServer H)
      → Tracked ts es s
      → Tracked ts es (mark_cross id ids user_id s)
  unfolding mark_cross
  mark_cross-Tracked id ids user_id s v = elim (Option-cases (lookup id s.connections)) [
    | inl e ↦ rw (e, mark_cross) v
    | inr (c, e) ↦ elim (Bool-cases (next_result s.submit_results)) [
      | inl accepted ↦ rw (e, accepted, mark_cross) (fenced-Tracked c e)
      | inr refused ↦ rw (e, refused, mark_cross) (unfenced-Tracked c e)
    ]
  ]
    where
      fenced-Tracked :
          (c : ConnectionContext)
          → lookup id s.connections ≡ some c
          → Tracked ts es (record s {
            connections = insert id (increment_pending_delivery_marks c) s.connections;
            submit_results = later_results s.submit_results;
            jobs = s.jobs ++ mark_and_release user_id ids id ∷ [];
          })
      fenced-Tracked c e =
          let job = mark_and_release user_id ids id in
          write-Tracked ts ts es es s _ id (increment_pending_delivery_marks c) refl v
            (lookup-lt-next id c v e)
            (λ j off. (
              ground (arith, total-append (job_tokens j) s.jobs (job ∷ [])),
              ground (arith, total-append (job_marks j) s.jobs (job ∷ [])),
              omega arith,
            ))
            (weaken-Balanced (running s) (running s) (tokens id ts es s) _ (suc (marks id s)) _
              (resumes id es s) _ _ refl
              (ground (arith, total-append (job_tokens id) s.jobs (job ∷ [])))
              (ground (arith, total-append (job_marks id) s.jobs (job ∷ []), nat_beq_iff id id))
              (omega arith)
              (increment-Balanced (running s) (tokens id ts es s) (marks id s) (resumes id es s) c
                (v.live id c e)))
            (unfold increment_pending_delivery_marks in (v.found id c e)) refl refl refl
            v.single_held v.single_queued

      unfenced-Tracked :
          (c : ConnectionContext)
          → lookup id s.connections ≡ some c
          → Tracked ts es (record s {
            connections =
                insert id
                  (decrement_pending_delivery_marks (increment_pending_delivery_marks c))
                  (insert id (increment_pending_delivery_marks c) s.connections);
            submit_results = later_results s.submit_results;
            post_delivery_events =
                s.post_delivery_events
                ++ record { conn_id = id; finish_current_request = false } ∷ [];
          })
      unfenced-Tracked c e =
          let event : PostDeliveryEvent = record { conn_id = id; finish_current_request = false } in
          let d = decrement_pending_delivery_marks (increment_pending_delivery_marks c) in
          rewrite-Tracked ts ts es es s _ id d
            (λ j. ground (
              arith,
              lookup-insert id j d (insert id (increment_pending_delivery_marks c) s.connections),
              lookup-insert id j (increment_pending_delivery_marks c) s.connections,
            ))
            v (lookup-lt-next id c v e)
            (λ j off. (
              ground (arith, total-append (event_tokens j) s.post_delivery_events (event ∷ [])),
              refl,
              ground (arith, total-append (event_resumes j) s.post_delivery_events (event ∷ [])),
            ))
            (weaken-Balanced (running s) (running s) (tokens id ts es s) _ (marks id s) _
              (suc (resumes id es s)) _ _ refl
              (ground (arith, total-append (event_tokens id) s.post_delivery_events (event ∷ [])))
              refl
              (ground (
                arith,
                total-append (event_resumes id) s.post_delivery_events (event ∷ []),
                nat_beq_iff id id,
              ))
              (decrement-Balanced (running s) (tokens id ts es s) (marks id s) (resumes id es s)
                (increment_pending_delivery_marks c)
                (increment-Balanced (running s) (tokens id ts es s) (marks id s) (resumes id es s) c
                  (v.live id c e))))
            (unfold increment_pending_delivery_marks in
              unfold decrement_pending_delivery_marks in (v.found id c e))
            refl refl refl v.single_held v.single_queued

  pub mark_all_cross-Tracked :
      (cross : Map ℕ (List Bytes × ℤ)) (s : TcpServer H)
      → Tracked ts es s
      → Tracked ts es (mark_all_cross cross s)
  unfolding mark_all_cross
  mark_all_cross-Tracked [] s v = v
  mark_all_cross-Tracked ((id, (ids, user_id)) ∷ rest) s v =
      mark_all_cross-Tracked rest (mark_cross id ids user_id s)
        (mark_cross-Tracked id ids user_id s v)

  module _ (handler : IMessageHandler H) where
    pub send_framed-Tracked :
        (id : ℕ) (c : ConnectionContext) (payload : Bytes) (s : TcpServer H)
        → lookup id s.connections ≡ some c
        → Tracked ts es s
        → Tracked ts es (send_framed handler id c payload s).1
    unfolding send_framed append_pending_send set_context enable_writable_event
    send_framed-Tracked id c payload s e v =
        let w =
          set_context-Tracked id c (append_pending_send c (encode payload)) s e
            (refl, refl, refl, refl) v in
        let x : Tracked ts es
            (enable_writable_event (fd c)
              (set_context id (append_pending_send c (encode payload)) s)).1 =
          record {
            live = w.live;
            found = w.found;
            fresh = w.fresh;
            single_held = w.single_held;
            single_queued = w.single_queued;
          } in
        if_pair-Tracked (next_result s.epoll_results) _ _ x
          (close_client_fd-Tracked handler (fd c) _ x)

    deliver_claimed-Tracked :
        (task : RemotePushTask) (s : TcpServer H)
        → Tracked ts es s
        → Tracked ts es (deliver_claimed handler task s).1
    unfolding deliver_claimed
    deliver_claimed-Tracked task s v =
        let id = task.event.target_connection_id in
        if_pair-Tracked
          (handler.is_connection_bound_to_user id task.event.to_user_id s.handler_state) _ _
          (elim (Option-cases (lookup id s.connections)) [
            | inl e ↦ rw e v
            | inr (c, e) ↦ rw e (send_framed-Tracked id c task.event.payload s e v)
          ])
          v

    run_remote_push-Tracked :
        (task : RemotePushTask) (s : TcpServer H)
        → Tracked ts es s
        → Tracked ts es (run_remote_push handler task s)
    unfolding run_remote_push
    run_remote_push-Tracked task s v = elim (Option-cases (lookup task.call s.remote_calls)) [
      | inl e ↦ rw (e, run_remote_push) v
      | inr (call, e) ↦
          let w = deliver_claimed-Tracked task s v in
          rw (e, run_remote_push)
            (if-Tracked (nat_beq call.state 0) _ _
              (record {
                live = w.live;
                found = w.found;
                fresh = w.fresh;
                single_held = w.single_held;
                single_queued = w.single_queued;
              })
              v)
    ]

    pub run_remote_pushes-Tracked :
        (tasks : List RemotePushTask) (s : TcpServer H)
        → Tracked ts es s
        → Tracked ts es (run_remote_pushes handler tasks s)
    unfolding run_remote_pushes
    run_remote_pushes-Tracked [] s v = v
    run_remote_pushes-Tracked (task ∷ tasks) s v =
        run_remote_pushes-Tracked tasks (run_remote_push handler task s)
          (run_remote_push-Tracked task s v)

    pub apply_session_action-Tracked :
        (task : ResponseTask) (s : TcpServer H)
        → Tracked ts es s
        → Tracked ts es (apply_session_action handler task s)
    unfolding apply_session_action
    apply_session_action-Tracked task s v = by_action task.session_action
      where
        by_action :
            (action : SessionAction)
            → Tracked ts es
                (apply_session_action handler (record task { session_action = action }) s)
        by_action SessionAction.none = v
        by_action SessionAction.bind =
            bind-Tracked task.conn_id task.pending_session.user_id _ (record {
              live = v.live;
              found = v.found;
              fresh = v.fresh;
              single_held = v.single_held;
              single_queued = v.single_queued;
            })
        by_action SessionAction.unbind = unbind-Tracked task.conn_id _ (record {
          live = v.live;
          found = v.found;
          fresh = v.fresh;
          single_held = v.single_held;
          single_queued = v.single_queued;
        })

    push_one-Tracked :
        (id : ℕ) (push : OutboundMessage) (m : PushMarks) (s : TcpServer H)
        → Tracked ts es s
        → Tracked ts es (push_one handler id push m s).1
    unfolding push_one
    push_one-Tracked id push m s v =
        if_pair-Tracked
          (handler.is_connection_bound_to_user push.target_conn_id push.target_user_id
            s.handler_state)
          _ _
          (elim (Option-cases (lookup push.target_conn_id s.connections)) [
            | inl e ↦ rw e v
            | inr (c, e) ↦ rw e (
                if_pair-Tracked (is_empty push.payload) _ _ v
                  (send_framed-Tracked push.target_conn_id c push.payload s e v))
          ])
          v

    pub push_all-Tracked :
        (id : ℕ) (pushes : List OutboundMessage) (m : PushMarks) (s : TcpServer H)
        → Tracked ts es s
        → Tracked ts es (push_all handler id pushes m s).1
    unfolding push_all
    push_all-Tracked id [] m s v = v
    push_all-Tracked id (push ∷ pushes) m s v =
        push_all-Tracked id pushes (push_one handler id push m s).0 (push_one handler id push m s).1
          (push_one-Tracked id push m s v)
