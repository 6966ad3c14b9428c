-- ===== src/Net/Server/Tracking/Quiet.antt =====
-- The account under the steps that start no request (src/TcpServer.cc): sending, the timeout scan,
-- deliveries for other processes and the stop.
use linux_server.Base.{
  ℕ, ℤ, suc, zero, ◌≡◌, refl, Bool, true, false, not, ◌||◌, List, [], ◌∷◌, ◌++◌, Option, none, some,
  inl, inr, arith, le_zero, is_empty, lookup, insert, nat_beq, nat_beq_iff, lookup-insert,
  Option-cases, nat_eq, int_eq,
}
use linux_server.Model.Records.{RemotePushEvent, RemoteDeliveryOutcome, invalid_target, retry}
use linux_server.Net.Handler.{IMessageHandler}
use linux_server.Net.Context.{
  ConnectionContext, touch_on_send, consume_pending_send, peek_pending_send,
}
use linux_server.Net.Server.{
  TcpServer, TcpServerTimeoutOptions, ResponseTask, PostDeliveryEvent, RemotePushTask, fd,
  set_context, disable_writable_event, close_client_fd,
}
use linux_server.Net.Server.Sockets.{
  SendResult, took, took_nothing, send_would_block, send_failed, stop_watching, send_all,
  on_readable, on_writable, has_pending_send_of,
}
use linux_server.Net.Server.Timeouts.{scan_one, scan, timed_out}
use linux_server.Net.Server.Remote.{
  give_up, deliver_remote_push, await_remote_push, cancel_all, stop,
}
use linux_server.Net.Server.Events.{EventMask, on_client_event}
use linux_server.Net.Server.Balance.{Same, stopped-Balanced}
use linux_server.Net.Server.Tracking.{Tracked, if-Tracked, if_pair-Tracked, tokens, running}
use linux_server.Net.Server.Tracking.Closing.{set_context-Tracked, close_client_fd-Tracked}
use linux_server.Net.Server.Tracking.Reading.{on_readable-Tracked}

sent-Same :
    (c : ConnectionContext) (n now : ℕ) → Same c (consume_pending_send (touch_on_send c now n) n)
unfolding consume_pending_send touch_on_send
sent-Same c n now = (ground arith, ground arith, ground arith, ground arith)

lookup-set_context :
    {H : Type 0} (id : ℕ) (d : ConnectionContext) (s : TcpServer H)
    → lookup id (set_context id d s).connections ≡ some d
unfolding set_context
lookup-set_context id d s = ground (arith, lookup-insert id id d s.connections, nat_beq_iff id id)

module _ {H : Type 0} {ts : List ResponseTask} {es : List PostDeliveryEvent} where
  give_up-Tracked :
      (call : ℕ) (completion : Option RemoteDeliveryOutcome) (s : TcpServer H)
      → Tracked ts es s
      → Tracked ts es (give_up call completion s).1
  unfolding give_up
  give_up-Tracked call completion s v = elim (Option-cases (lookup call s.remote_calls)) [
    | inl e ↦ rw (e, give_up) v
    | inr (c, e) ↦
        rw (e, give_up)
          (if_pair-Tracked (nat_beq c.state 0) _ _
            (record {
              live = v.live;
              found = v.found;
              fresh = v.fresh;
              single_held = v.single_held;
              single_queued = v.single_queued;
            })
            v)
  ]

  cancel_all-Tracked :
      (tasks : List RemotePushTask) (s : TcpServer H)
      → Tracked ts es s
      → Tracked ts es (cancel_all tasks s)
  unfolding cancel_all
  cancel_all-Tracked [] s v = v
  cancel_all-Tracked (task ∷ tasks) s v =
      cancel_all-Tracked tasks (give_up task.call (some retry) s).1
        (give_up-Tracked task.call (some retry) s v)

  pub stop-Tracked : (s : TcpServer H) → Tracked ts es s → Tracked ts es (stop s)
  unfolding stop
  stop-Tracked s v = if-Tracked s.stopping _ _ v (
      cancel_all-Tracked s.remote_push_tasks (record s { stopping = true; remote_push_tasks = [] })
        (record {
          live = λ id c e.
              stopped-Balanced (running s) false (tokens id ts es s) _ _ _ _ _ c refl refl
                (omega arith) (v.live id c e);
          found = v.found;
          fresh = v.fresh;
          single_held = v.single_held;
          single_queued = v.single_queued;
        }))

  pub deliver_remote_push-Tracked :
      (call : ℕ) (event : RemotePushEvent) (notified : Bool) (s : TcpServer H)
      → Tracked ts es s
      → Tracked ts es (deliver_remote_push call event notified s).1
  unfolding deliver_remote_push
  deliver_remote_push-Tracked call event notified s v =
      let posted : TcpServer H = record s {
        remote_push_tasks = s.remote_push_tasks ++ record { event = event; call = call } ∷ [];
        remote_calls = insert call (record { state = 0; completion = none }) s.remote_calls;
      } in
      let w : Tracked ts es posted = record {
        live = v.live;
        found = v.found;
        fresh = v.fresh;
        single_held = v.single_held;
        single_queued = v.single_queued;
      } in
      let u = give_up-Tracked call none posted w in
      let bad =
        s.stopping
        || nat_beq event.target_connection_id 0
        || le_zero event.to_user_id
        || is_empty event.payload in
      if_pair-Tracked {A = Option RemoteDeliveryOutcome} bad (some invalid_target, s) _ v
        (if_pair-Tracked {A = Option RemoteDeliveryOutcome} (not s.event_fd_open) (some retry, s) _
          v
          (if_pair-Tracked {A = Option RemoteDeliveryOutcome} notified (none, posted) _ w
            (if_pair-Tracked {A = Option RemoteDeliveryOutcome} (give_up call none posted).0
              (some retry, (give_up call none posted).1) (none, (give_up call none posted).1) u u)))

  pub await_remote_push-Tracked :
      (call : ℕ) (over : Bool) (s : TcpServer H)
      → Tracked ts es s
      → Tracked ts es (await_remote_push call over s).1
  unfolding await_remote_push
  await_remote_push-Tracked call over s v =
      let u = give_up-Tracked call none s v in
      elim (Option-cases (lookup call s.remote_calls)) [
        | inl e ↦ rw (e, await_remote_push) v
        | inr (c, e) ↦ elim (Option-cases c.completion) [
          | inl f ↦
              rw (e, f, await_remote_push)
                (if_pair-Tracked over _ _ (if_pair-Tracked (give_up call none s).0 _ _ u v) v)
          | inr (outcome, f) ↦ rw (e, f, await_remote_push) v
        ]
      ]

  module _ (handler : IMessageHandler H) where
    stop_watching-Tracked :
        (conn_fd : ℤ) (s : TcpServer H)
        → Tracked ts es s
        → Tracked ts es (stop_watching handler conn_fd s)
    unfolding stop_watching disable_writable_event
    stop_watching-Tracked conn_fd s v =
        let w : Tracked ts es (disable_writable_event conn_fd s).1 = record {
          live = v.live;
          found = v.found;
          fresh = v.fresh;
          single_held = v.single_held;
          single_queued = v.single_queued;
        } in
        if-Tracked (disable_writable_event conn_fd s).0 _ _ w
          (close_client_fd-Tracked handler conn_fd _ w)

    send_all-Tracked :
        (id : ℕ) (conn_fd : ℤ) (c : ConnectionContext) (results : List SendResult) (s : TcpServer H)
        → lookup id s.connections ≡ some c
        → Tracked ts es s
        → Tracked ts es (send_all handler id conn_fd c results s)
    unfolding send_all
    send_all-Tracked id conn_fd c [] s e v = elim (Option-cases (peek_pending_send c)) [
      | inl f ↦ rw (f, send_all) (stop_watching-Tracked conn_fd s v)
      | inr (text, f) ↦ rw (f, send_all) v
    ]
    send_all-Tracked id conn_fd c (took n now ∷ later) s e v =
        elim (Option-cases (peek_pending_send c)) [
          | inl f ↦ rw (f, send_all) (stop_watching-Tracked conn_fd s v)
          | inr (text, f) ↦
              let d = consume_pending_send (touch_on_send c now n) n in
              rw (f, send_all)
                (send_all-Tracked id conn_fd d later (set_context id d s)
                  (lookup-set_context id d s)
                  (set_context-Tracked id c d s e (sent-Same c n now) v))
        ]
    send_all-Tracked id conn_fd c (took_nothing ∷ later) s e v =
        elim (Option-cases (peek_pending_send c)) [
          | inl f ↦ rw (f, send_all) (stop_watching-Tracked conn_fd s v)
          | inr (text, f) ↦ rw (f, send_all) (close_client_fd-Tracked handler conn_fd s v)
        ]
    send_all-Tracked id conn_fd c (send_would_block ∷ later) s e v =
        elim (Option-cases (peek_pending_send c)) [
          | inl f ↦ rw (f, send_all) (stop_watching-Tracked conn_fd s v)
          | inr (text, f) ↦ rw (f, send_all) v
        ]
    send_all-Tracked id conn_fd c (send_failed ∷ later) s e v =
        elim (Option-cases (peek_pending_send c)) [
          | inl f ↦ rw (f, send_all) (stop_watching-Tracked conn_fd s v)
          | inr (text, f) ↦ rw (f, send_all) (close_client_fd-Tracked handler conn_fd s v)
        ]

    on_writable-Tracked :
        (conn_fd : ℤ) (results : List SendResult) (s : TcpServer H)
        → Tracked ts es s
        → Tracked ts es (on_writable handler conn_fd results s)
    unfolding on_writable
    on_writable-Tracked conn_fd results s v = elim (Option-cases (lookup conn_fd s.fd_to_context)) [
      | inl e ↦ rw (e, on_writable) v
      | inr (id, e) ↦ elim (Option-cases (lookup id s.connections)) [
        | inl f ↦ rw (e, f, on_writable) v
        | inr (c, f) ↦ rw (e, f, on_writable) (send_all-Tracked id conn_fd c results s f v)
      ]
    ]

    scan_one-Tracked :
        (now id : ℕ) (s : TcpServer H) → Tracked ts es s → Tracked ts es (scan_one handler now id s)
    unfolding scan_one
    scan_one-Tracked now id s v = elim (Option-cases (lookup id s.connections)) [
      | inl e ↦ rw (e, scan_one) v
      | inr (c, e) ↦
          rw (e, scan_one)
            (if-Tracked (timed_out s.timeout_options now c) _ _
              (close_client_fd-Tracked handler (fd c) s v)
              (record {
                live = v.live;
                found = v.found;
                fresh = v.fresh;
                single_held = v.single_held;
                single_queued = v.single_queued;
              }))
    ]

    pub scan-Tracked :
        (now n : ℕ) (queue : List ℕ) (s : TcpServer H)
        → Tracked ts es s
        → Tracked ts es (scan handler now n queue s)
    unfolding scan
    scan-Tracked now zero queue s v = v
    scan-Tracked now (suc n) [] s v = v
    scan-Tracked now (suc n) (id ∷ queue) s v =
        let s' = scan_one handler now id (record s { timeout_scan_queue = queue }) in
        scan-Tracked now n s'.timeout_scan_queue s' (
          scan_one-Tracked now id (record s { timeout_scan_queue = queue })
            (record {
              live = v.live;
              found = v.found;
              fresh = v.fresh;
              single_held = v.single_held;
              single_queued = v.single_queued;
            }))

    pub on_client_event-Tracked :
        (conn_fd : ℤ) (mask : EventMask)
        (received : List linux_server.Net.Server.Sockets.RecvResult) (sent : List SendResult)
        (s : TcpServer H)
        → Tracked ts es s
        → Tracked ts es (on_client_event handler conn_fd mask received sent s)
    unfolding on_client_event
    on_client_event-Tracked conn_fd mask received sent s v =
        let w1 =
          if-Tracked mask.readable _ _ (on_readable-Tracked handler conn_fd received s v) v in
        let w2 = if-Tracked mask.writable _ _ (on_writable-Tracked conn_fd sent _ w1) w1 in
        if-Tracked mask.error _ _ (close_client_fd-Tracked handler conn_fd s v)
          (if-Tracked _ _ _ (close_client_fd-Tracked handler conn_fd _ w2) w2)
