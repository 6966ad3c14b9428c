-- ===== src/Net/Server/Tracking/Running.antt =====
-- The account over any history of the server (src/TcpServer.cc, `acceptLoop` with what the workers
-- and other threads do), and what it means for the clients.
use linux_server.Base.{
  ℕ, Bool, ◌+◌, ◌<◌, ◌≡◌, ◌≢◌, refl, true, false, List, [], ◌∷◌, none, some, is_empty, lookup, pos,
  nat_eq, int_eq,
}
use linux_server.Net.Handler.{IMessageHandler}
use linux_server.Net.Context.{ConnectionContext}
use linux_server.Net.Context.Requests.{in_flight}
use linux_server.Net.Server.{TcpServer, TcpServerTimeoutOptions, fd}
use linux_server.Net.Server.Events.{
  Event, accepted, accept_failed, client, worker_ready, timer, worked, posted, awaited, stops, step,
  run, Possible, AllPossible, start_server,
}
use linux_server.Net.Server.Tracking.{Tracked, lookup-lt-next, tokens, marks, resumes, running}
use linux_server.Net.Server.Tracking.Closing.{register_connection-Tracked}
use linux_server.Net.Server.Tracking.Jobs.{MarksOnce, work-Tracked}
use linux_server.Net.Server.Tracking.Waking.{on_worker_result_readable-Tracked}
use linux_server.Net.Server.Tracking.Quiet.{
  stop-Tracked, deliver_remote_push-Tracked, await_remote_push-Tracked, scan-Tracked,
  on_client_event-Tracked,
}

none-ne-some : (c : ConnectionContext) → none ≢ some c
none-ne-some c e = cc e

module _ {H : Type 0} (handler : IMessageHandler H) (once : MarksOnce handler) where
  pub step-Tracked :
      (s : TcpServer H) (event : Event)
      → Possible handler s event
      → Tracked [] [] s
      → Tracked [] [] (step handler s event)
  unfolding step
  step-Tracked s (accepted conn_fd ip port now) h v =
      register_connection-Tracked conn_fd ip port now s h.0 h.1 v
  step-Tracked s accept_failed h v = stop-Tracked s v
  step-Tracked s (client conn_fd mask received sent) h v =
      on_client_event-Tracked handler conn_fd mask received sent s v
  step-Tracked s worker_ready h v = on_worker_result_readable-Tracked handler s v
  step-Tracked s (timer now) h v = scan-Tracked handler now _ s.timeout_scan_queue s v
  step-Tracked s (worked n) h v = work-Tracked handler once n [] s.jobs s refl v
  step-Tracked s (posted call event notified) h v =
      deliver_remote_push-Tracked call event notified s v
  step-Tracked s (awaited call over) h v = await_remote_push-Tracked call over s v
  step-Tracked s stops h v = stop-Tracked s v

  run-Tracked :
      (s : TcpServer H) (events : List Event)
      → AllPossible handler s events
      → Tracked [] [] s
      → Tracked [] [] (run handler s events)
  unfolding run
  run-Tracked s [] h v = v
  run-Tracked s (event ∷ events) h v =
      run-Tracked (step handler s event) events h.1 (step-Tracked s event h.0 v)

  module _ (h : H) (options : TcpServerTimeoutOptions) (epoll submit : List Bool)
      (events : List Event)
      (possible : AllPossible handler (start_server H h options epoll submit) events) where
    start-Tracked : Tracked [] [] (start_server H h options epoll submit)
    unfolding start_server lookup
    start-Tracked = record {
      live = λ id c e. absurd (none-ne-some c e);
      found = λ id c e. absurd (none-ne-some c e);
      fresh = λ id g. (refl, refl, refl);
      single_held = tt;
      single_queued = tt;
    }

    -- Let the handler ask for a mark of a response only where none of the pushes beside it asks for
    -- one, and let epoll_ctl and submit fail at any calls. After any possible history, as long as
    -- the server is not stopping, a connection has as many
    -- requests with a worker, answers on their way and marks that hold back its next request as its
    -- context says are in flight, one or none, and as many marks at work for pushes from other
    -- connections as its context counts: its requests never run side by side, none is answered
    -- twice, and no fence is left standing.
    pub run-accounts :
        (id : ℕ) (c : ConnectionContext)
        → lookup id (run handler (start_server H h options epoll submit) events).connections
          ≡ some c
        → (running (run handler (start_server H h options epoll submit) events) ≡ true
            → tokens id [] [] (run handler (start_server H h options epoll submit) events)
              ≡ in_flight c)
          × (c.pending_delivery_marks
              ≡ pos (marks id (run handler (start_server H h options epoll submit) events)))
    run-accounts id c e =
        let b = (run-Tracked _ events possible start-Tracked).live id c e in (b.counted, b.fenced)

    -- Let the handler ask for a mark of a response only where none of the pushes beside it asks for
    -- one, and let epoll_ctl and submit fail at any calls. After any possible history, a connection
    -- with requests that wait and none in flight has a
    -- mark at work, or the end of one that the I/O thread has still to handle: no request is left
    -- waiting for nothing.
    pub run-wakes :
        (id : ℕ) (c : ConnectionContext)
        → lookup id (run handler (start_server H h options epoll submit) events).connections
          ≡ some c
        → c.request_in_flight ≡ false
        → is_empty c.pending_requests ≡ false
        → 0
          < marks id (run handler (start_server H h options epoll submit) events)
            + resumes id [] (run handler (start_server H h options epoll submit) events)
    run-wakes id c e idle waits =
        ((run-Tracked _ events possible start-Tracked).live id c e).wakes idle waits

    -- Let the handler ask for a mark of a response only where none of the pushes beside it asks for
    -- one, and let epoll_ctl and submit fail at any calls. After any possible history, each
    -- connection is found by its descriptor and has a number that
    -- was given out, so closing a descriptor closes the connection that owns it.
    pub run-found :
        (id : ℕ) (c : ConnectionContext)
        → lookup id (run handler (start_server H h options epoll submit) events).connections
          ≡ some c
        → (lookup (fd c) (run handler (start_server H h options epoll submit) events).fd_to_context
            ≡ some id)
          × (id < (run handler (start_server H h options epoll submit) events).next_conn_id)
    run-found id c e =
        let v = run-Tracked _ events possible start-Tracked in
        (v.found id c e, lookup-lt-next id c v e)
