-- ===== src/Net/Server/Tracking/Responding.antt =====
-- The account while a response and the ends of delivery marks are worked off (src/TcpServer.cc,
-- `onWorkerResultReadable`, its last two loops).
use linux_server.Base.{
  ℕ, ℤ, suc, ◌≡◌, refl, sym, ap, ◌∙◌, Bool, true, false, ◌||◌, List, [], ◌∷◌, ◌++◌, none, some, inl,
  inr, arith, Bytes, All, is_empty, lookup, nat_beq_iff, Bool-cases, Option-cases, nat_eq, int_eq,
  if◌then◌else◌, lookup-erase,
}
use linux_server.Net.Handler.{OutboundMessage, IMessageHandler}
use linux_server.Net.Context.{ConnectionContext}
use linux_server.Net.Server.{
  TcpServer, ResponseTask, PostDeliveryEvent, Job, mark_and_finish, submit, fd, next_result,
  later_results, unregister_connection, dispatch_connection_closed, close_client_fd, set_context,
  enable_writable_event,
}
use linux_server.Net.Server.Workers.{finish_current_request_and_submit_next}
use linux_server.Net.Server.Delivery.{
  PushMarks, no_marks, note_mark, send_framed, send_response, apply_session_action, push_one,
  push_all, mark_all_cross, mark_same, finish_task, after_response, run_response_task,
  run_response_tasks,
}
use linux_server.Net.Server.Balance.{true-ne-false}
use linux_server.Net.Server.Tracking.{
  Tracked, SingleMark, move-Tracked, if-Tracked, total-append, job_tokens, job_marks, no_ids,
}
use linux_server.Net.Server.Tracking.Closing.{close_client_fd-Tracked}
use linux_server.Net.Server.Tracking.Working.{
  Taken, held, Taken-from_none-Tracked, finish_current_request-Tracked,
}
use linux_server.Net.Server.Tracking.Delivering.{
  send_framed-Tracked, apply_session_action-Tracked, push_all-Tracked, mark_all_cross-Tracked,
}

module _ {H : Type 0} (handler : IMessageHandler H) where
  -- A connection that is closed by its descriptor leaves the table.
  pub lookup-close_client_fd :
      (id : ℕ) (conn_fd : ℤ) (s : TcpServer H)
      → lookup conn_fd s.fd_to_context ≡ some id
      → lookup id (close_client_fd handler conn_fd s).connections ≡ none
  unfolding close_client_fd unregister_connection dispatch_connection_closed submit
  lookup-close_client_fd id conn_fd s at = elim (Option-cases (lookup id s.connections)) [
    | inl e ↦ rw (at, e, close_client_fd, unregister_connection) e
    | inr (c, e) ↦
        rw (at, e, close_client_fd, unregister_connection)
          (ground (arith, lookup-erase id id s.connections, nat_beq_iff id id))
  ]

  push_one-no_ids :
      (id : ℕ) (push : OutboundMessage) (m : PushMarks) (s : TcpServer H)
      → is_empty push.message_id ≡ true
      → (push_one handler id push m s).0.same_conn_ids ≡ m.same_conn_ids
  unfolding push_one note_mark
  push_one-no_ids id push m s h = ground arith

  -- Pushes without message ids ask for no mark.
  push_all-no_ids :
      (id : ℕ) (pushes : List OutboundMessage) (m : PushMarks) (s : TcpServer H)
      → no_ids pushes ≡ true
      → (push_all handler id pushes m s).0.same_conn_ids ≡ m.same_conn_ids
  unfolding push_all
  push_all-no_ids id [] m s h = refl
  push_all-no_ids id (push ∷ pushes) m s h =
      push_all-no_ids id pushes (push_one handler id push m s).0 (push_one handler id push m s).1
        (ground arith)
      ∙ push_one-no_ids id push m s (ground arith)

abbrev sent_or_not : {H : Type 0} → Bool → TcpServer H → TcpServer H → Bool × TcpServer H
sent_or_not b x y = if b then (true, x) else (false, y)

closed_pair :
    {H : Type 0} (id : ℕ) (b : Bool) (x y : TcpServer H)
    → lookup id y.connections ≡ none
    → (sent_or_not b x y).0 ≡ false
    → lookup id (sent_or_not b x y).1.connections ≡ none
closed_pair id true x y gone h = cc h
closed_pair id false x y gone h = gone

-- A connection whose response could not be watched is gone.
lookup-send_framed :
    {H : Type 0} (handler : IMessageHandler H) (id : ℕ) (c : ConnectionContext) (payload : Bytes)
    (s : TcpServer H)
    → lookup (fd c) s.fd_to_context ≡ some id
    → (send_framed handler id c payload s).0 ≡ false
    → lookup id (send_framed handler id c payload s).1.connections ≡ none
unfolding send_framed set_context enable_writable_event
lookup-send_framed handler id c payload s at closed =
    closed_pair id (next_result s.epoll_results) _ _ (lookup-close_client_fd handler id (fd c) _ at)
      closed

-- The token of the task is with the I/O thread, or has gone to the mark that it waits for.
abbrev After :
    {H : Type 0}
    → ResponseTask
    → List ResponseTask
    → List PostDeliveryEvent
    → Bool
    → TcpServer H
    → Type 0
After task ts es deferred s = Tracked (if deferred then ts else task ∷ ts) es s

token :
    (task : ResponseTask) (ts' : List ResponseTask) (es' : List PostDeliveryEvent)
    → held task.conn_id (task ∷ ts') es' ≡ suc (held task.conn_id ts' es')
token task ts' es' = ground (arith, nat_beq_iff task.conn_id task.conn_id)

module _ (task : ResponseTask) (ts : List ResponseTask) (es : List PostDeliveryEvent) where
  Taken-task : All SingleMark ts → Taken (task ∷ ts) ts es es task.conn_id
  Taken-task single = record {
    tokens_elsewhere = λ j off. ground arith;
    resumes_elsewhere = λ j off. omega arith;
    single = single;
  }

  module _ {H : Type 0} where
    -- The token goes to the job that makes the mark.
    submit_mark-After :
        (user_id : ℤ) (ids : List Bytes) (s : TcpServer H)
        → Tracked (task ∷ ts) es s
        → After task ts es
            (submit (mark_and_finish user_id ids task.conn_id) s).0
            (submit (mark_and_finish user_id ids task.conn_id) s).1
    unfolding submit
    submit_mark-After user_id ids s v = by_result (next_result s.submit_results)
      where
        job : Job
        job = mark_and_finish user_id ids task.conn_id

        by_result :
            (b : Bool)
            → After task ts es b (record s {
              submit_results = later_results s.submit_results;
              jobs = if b then s.jobs ++ job ∷ [] else s.jobs;
            })
        by_result true =
            move-Tracked (task ∷ ts) ts es es s _ v (λ j c e. (e, v.found j c e))
              (λ j. (
                ground (
                  arith,
                  total-append (job_tokens j) s.jobs
                      (mark_and_finish user_id ids task.conn_id ∷ []),
                ),
                ground (
                  arith,
                  total-append (job_marks j) s.jobs (mark_and_finish user_id ids task.conn_id ∷ []),
                ),
                omega arith,
              ))
              refl refl v.single_held.1 v.single_queued
        by_result false = record {
          live = v.live;
          found = v.found;
          fresh = v.fresh;
          single_held = v.single_held;
          single_queued = v.single_queued;
        }

    mark_same-After :
        (m : PushMarks) (deferred : Bool) (s : TcpServer H)
        → After task ts es deferred s
        → (deferred ≡ true → is_empty m.same_conn_ids ≡ true)
        → After task ts es
            (mark_same task.conn_id m deferred s).0
            (mark_same task.conn_id m deferred s).1
    unfolding mark_same
    mark_same-After m deferred s v once = elim (Bool-cases (is_empty m.same_conn_ids)) [
      | inl e ↦ rw (e, mark_same) v
      | inr e ↦ rw (e, mark_same) (by_deferred e deferred v once)
    ]
      where
        by_deferred :
            is_empty m.same_conn_ids ≡ false
            → (d : Bool) → After task ts es d s
            → (d ≡ true → is_empty m.same_conn_ids ≡ true)
            → After task ts es
                (d || (submit (mark_and_finish m.same_conn_user m.same_conn_ids task.conn_id) s).0)
                (submit (mark_and_finish m.same_conn_user m.same_conn_ids task.conn_id) s).1
        by_deferred e true w o = absurd (true-ne-false (sym (o refl) ∙ e))
        by_deferred e false w o = submit_mark-After m.same_conn_user m.same_conn_ids s w

  module _ {H : Type 0} (handler : IMessageHandler H) where
    finish_task-Tracked :
        (conn_fd : ℤ) (deferred : Bool) (s : TcpServer H)
        → All SingleMark ts
        → After task ts es deferred s
        → Tracked ts es (finish_task handler task.conn_id conn_fd deferred s)
    unfolding finish_task
    finish_task-Tracked conn_fd true s single v = v
    finish_task-Tracked conn_fd false s single v =
        let w =
          finish_current_request-Tracked task.conn_id s v (Taken-task single) (token task ts es) in
        if-Tracked (finish_current_request_and_submit_next task.conn_id s).0 _ _ w
          (close_client_fd-Tracked handler conn_fd _ w)

    -- The response: the connection is still there and the token is accounted for, or the
    -- connection is closed.
    send_response-After :
        (c : ConnectionContext) (s : TcpServer H)
        → lookup task.conn_id s.connections ≡ some c
        → Tracked (task ∷ ts) es s
        → ((send_response handler task c s).0 ≡ true
            → After task ts es (send_response handler task c s).1 (send_response handler task c s).2
              × ((send_response handler task c s).1 ≡ true
                  → is_empty task.delivered_message_ids ≡ false))
          × ((send_response handler task c s).0 ≡ false
              → Tracked ts es (send_response handler task c s).2)
    unfolding send_response
    send_response-After c s e v =
        let framed = send_framed handler task.conn_id c task.response s in
        let w = send_framed-Tracked handler task.conn_id c task.response s e v in
        elim (Bool-cases (is_empty task.response)) [
          | inl quiet ↦
              rw (quiet, send_response) (λ h. (v, λ k. cc k), λ h. absurd (true-ne-false h))
          | inr spoken ↦ elim (Bool-cases framed.0) [
            | inl sent ↦ elim (Bool-cases (is_empty task.delivered_message_ids)) [
              | inl unmarked ↦
                  rw (spoken, sent, unmarked, send_response)
                    (λ h. (w, λ k. cc k), λ h. absurd (true-ne-false h))
              | inr marked ↦
                  rw (spoken, sent, marked, send_response)
                    (
                      λ h. (
                        submit_mark-After task.delivered_user_id task.delivered_message_ids framed.1
                            w,
                        λ k. refl,
                      ),
                      λ h. absurd (true-ne-false h),
                    )
            ]
            | inr closed ↦
                rw (spoken, closed, send_response)
                  (
                    λ h. absurd (true-ne-false (sym h)),
                    λ h.
                        Taken-from_none-Tracked task.conn_id framed.1 w (Taken-task v.single_held.1)
                          (omega (arith, token task ts es))
                          (lookup-send_framed handler task.conn_id c task.response s
                            (v.found task.conn_id c e) closed),
                  )
          ]
        ]

    -- The session action, the pushes and their marks, and the next request.
    after_response-Tracked :
        (conn_fd : ℤ) (deferred : Bool) (s : TcpServer H)
        → All SingleMark ts
        → SingleMark task
        → (deferred ≡ true → is_empty task.delivered_message_ids ≡ false)
        → After task ts es deferred s
        → Tracked ts es (after_response handler task conn_fd deferred s)
    unfolding after_response
    after_response-Tracked conn_fd deferred s single once marked v =
        let s0 = apply_session_action handler task s in
        let pushed = push_all handler task.conn_id task.pushes no_marks s0 in
        let s1 = mark_all_cross pushed.0.cross_conn pushed.1 in
        let w : After task ts es deferred s1 = mark_all_cross-Tracked pushed.0.cross_conn pushed.1 (
          push_all-Tracked handler task.conn_id task.pushes no_marks s0
            (apply_session_action-Tracked handler task s v)) in
        finish_task-Tracked conn_fd _ _ single (
          mark_same-After pushed.0 deferred s1 w (λ h. ap is_empty (
            push_all-no_ids handler task.conn_id task.pushes no_marks s0
              (ground (arith, marked h)))))

    run_response_task-Tracked :
        (s : TcpServer H)
        → Tracked (task ∷ ts) es s
        → Tracked ts es (run_response_task handler task s)
    unfolding run_response_task
    run_response_task-Tracked s v = elim (Option-cases (lookup task.conn_id s.connections)) [
      | inl e ↦
          rw (e, run_response_task)
            (Taken-from_none-Tracked task.conn_id s v (Taken-task v.single_held.1)
              (omega (arith, token task ts es)) e)
      | inr (c, e) ↦
          let (went, lost) = send_response-After c s e v in
          rw (e, run_response_task)
            (if-Tracked task.close_after _ _
              (Taken-from_none-Tracked task.conn_id _ (close_client_fd-Tracked handler (fd c) s v)
                (Taken-task v.single_held.1) (omega (arith, token task ts es))
                (lookup-close_client_fd handler task.conn_id (fd c) s (v.found task.conn_id c e)))
              (elim (Bool-cases (send_response handler task c s).0) [
                | inl open_still ↦ rw open_still (
                    after_response-Tracked (fd c) _ _ v.single_held.1 v.single_held.0
                      (went open_still).1 (went open_still).0)
                | inr closed ↦ rw closed (lost closed)
              ]))
    ]

module _ {H : Type 0} (handler : IMessageHandler H) where
  pub run_response_tasks-Tracked :
      (tasks : List ResponseTask) (es : List PostDeliveryEvent) (s : TcpServer H)
      → Tracked tasks es s
      → Tracked [] es (run_response_tasks handler tasks s)
  unfolding run_response_tasks
  run_response_tasks-Tracked [] es s v = v
  run_response_tasks-Tracked (task ∷ tasks) es s v =
      run_response_tasks-Tracked tasks es (run_response_task handler task s)
        (run_response_task-Tracked task tasks es handler s v)
