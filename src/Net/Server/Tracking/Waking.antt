-- ===== src/Net/Server/Tracking/Waking.antt =====
-- The account over a whole wake-up of the I/O thread by the workers (src/TcpServer.cc,
-- `onWorkerResultReadable`), the ends of delivery marks included.
use linux_server.Base.{
  ◌≡◌, refl, Bool, List, [], ◌∷◌, some, inl, inr, arith, lookup, nat_beq_iff, Bool-cases,
  Option-cases, nat_eq, if◌then◌else◌,
}
use linux_server.Net.Handler.{IMessageHandler}
use linux_server.Net.Context.{ConnectionContext}
use linux_server.Net.Server.{TcpServer, PostDeliveryEvent, fd, close_client_fd}
use linux_server.Net.Server.Workers.{
  finish_current_request_and_submit_next, submit_next_queued_request_if_idle,
}
use linux_server.Net.Server.Delivery.{
  run_remote_pushes, run_response_tasks, run_post_delivery_event, run_post_delivery_events,
  on_worker_result_readable,
}
use linux_server.Net.Server.Tracking.{Tracked, move-Tracked, if-Tracked, lookup-lt-next}
use linux_server.Net.Server.Tracking.Closing.{close_client_fd-Tracked}
use linux_server.Net.Server.Tracking.Working.{
  Taken, Taken-from_none-Tracked, finish_current_request-Tracked, resume_if_idle-Tracked,
}
use linux_server.Net.Server.Tracking.Delivering.{run_remote_pushes-Tracked}
use linux_server.Net.Server.Tracking.Responding.{run_response_tasks-Tracked}

-- One event is taken from the list.
Taken-event :
    (event : PostDeliveryEvent) (es : List PostDeliveryEvent)
    → Taken [] [] (event ∷ es) es event.conn_id
Taken-event event es = record {
  tokens_elsewhere = λ j off. ground arith;
  resumes_elsewhere = λ j off. ground arith;
  single = tt;
}

module _ {H : Type 0} (handler : IMessageHandler H) where
  close_unless-Tracked :
      (es : List PostDeliveryEvent) (c : ConnectionContext) (r : Bool × TcpServer H)
      → Tracked [] es r.1
      → Tracked [] es (if r.0 then r.1 else close_client_fd handler (fd c) r.1)
  close_unless-Tracked es c r v =
      if-Tracked r.0 _ _ v (close_client_fd-Tracked handler (fd c) r.1 v)

  resumed-Tracked :
      (event : PostDeliveryEvent) (es : List PostDeliveryEvent) (s : TcpServer H)
      (c : ConnectionContext)
      → Tracked [] (event ∷ es) s
      → lookup event.conn_id s.connections ≡ some c
      → Tracked [] es
          (if event.finish_current_request
            then finish_current_request_and_submit_next event.conn_id s
            else submit_next_queued_request_if_idle event.conn_id s).1
  resumed-Tracked event es s c v e = elim (Bool-cases event.finish_current_request) [
    | inl ends ↦ rw ends (
        finish_current_request-Tracked event.conn_id s v (Taken-event event es)
          (ground (arith, nat_beq_iff event.conn_id event.conn_id)))
    | inr resumes ↦ rw resumes (
        resume_if_idle-Tracked event.conn_id s v (Taken-event event es)
          (lookup-lt-next event.conn_id c v e) (ground arith))
  ]

  run_post_delivery_event-Tracked :
      (event : PostDeliveryEvent) (es : List PostDeliveryEvent) (s : TcpServer H)
      → Tracked [] (event ∷ es) s
      → Tracked [] es (run_post_delivery_event handler event s)
  unfolding run_post_delivery_event
  run_post_delivery_event-Tracked event es s v =
      elim (Option-cases (lookup event.conn_id s.connections)) [
        | inl e ↦
            rw (e, run_post_delivery_event)
              (Taken-from_none-Tracked event.conn_id s v (Taken-event event es) (omega arith) e)
        | inr (c, e) ↦
            rw (e, run_post_delivery_event)
              (close_unless-Tracked es c _ (resumed-Tracked event es s c v e))
      ]

  run_post_delivery_events-Tracked :
      (events : List PostDeliveryEvent) (s : TcpServer H)
      → Tracked [] events s
      → Tracked [] [] (run_post_delivery_events handler events s)
  unfolding run_post_delivery_events
  run_post_delivery_events-Tracked [] s v = v
  run_post_delivery_events-Tracked (event ∷ events) s v =
      run_post_delivery_events-Tracked events (run_post_delivery_event handler event s)
        (run_post_delivery_event-Tracked event events s v)

  tasks_swapped :
      (s : TcpServer H)
      → Tracked [] [] s
      → Tracked s.completed_tasks [] (record s { completed_tasks = [] })
  tasks_swapped s v =
      move-Tracked [] s.completed_tasks [] [] s _ v (λ j c e. (e, v.found j c e))
        (λ j. (omega arith, refl, omega arith)) refl refl v.single_queued tt

  events_swapped :
      (s : TcpServer H)
      → Tracked [] [] s
      → Tracked [] s.post_delivery_events (record s { post_delivery_events = [] })
  events_swapped s v =
      move-Tracked [] [] [] s.post_delivery_events s _ v (λ j c e. (e, v.found j c e))
        (λ j. (omega arith, refl, omega arith)) refl refl tt v.single_queued

  -- The whole wake-up.
  pub on_worker_result_readable-Tracked :
      (s : TcpServer H) → Tracked [] [] s → Tracked [] [] (on_worker_result_readable handler s)
  unfolding on_worker_result_readable
  on_worker_result_readable-Tracked s v =
      let s1 =
        run_remote_pushes handler s.remote_push_tasks (record s { remote_push_tasks = [] }) in
      let s2 = run_response_tasks handler s1.completed_tasks (record s1 { completed_tasks = [] }) in
      let w =
        run_response_tasks-Tracked handler s1.completed_tasks []
          (record s1 { completed_tasks = [] })
          (tasks_swapped s1 (
            run_remote_pushes-Tracked handler s.remote_push_tasks
              (record s { remote_push_tasks = [] })
              (record {
                live = v.live;
                found = v.found;
                fresh = v.fresh;
                single_held = v.single_held;
                single_queued = v.single_queued;
              }))) in
      run_post_delivery_events-Tracked s2.post_delivery_events
        (record s2 { post_delivery_events = [] }) (events_swapped s2 w)
