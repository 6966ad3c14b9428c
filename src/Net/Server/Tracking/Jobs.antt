-- ===== src/Net/Server/Tracking/Jobs.antt =====
-- The account when a worker ends a job (src/TcpServer.cc, the closures that go to the pool).
use linux_server.Base.{
  ℕ, ℤ, zero, suc, ◌+◌, ◌%◌, ◌^◌, ◌≡◌, ◌⊎◌, refl, sym, ap, ◌∙◌, true, false, not, ◌||◌, List, [],
  ◌∷◌, ◌++◌, append_assoc, Option, none, some, inl, inr, arith, Bytes, All-append, is_empty, lookup,
  nat_beq_iff, Bool-cases, Option-cases, nat_eq, int_eq,
}
use linux_server.Net.Handler.{IMessageHandler, HandleResult, RequestContext}
use linux_server.Net.Context.{
  ConnectionContext, clear_pending_requests, decrement_pending_delivery_marks,
}
use linux_server.Net.Server.{
  TcpServer, RequestTask, ResponseTask, PostDeliveryEvent, Job, request, mark_and_finish,
  mark_and_release, clean_up, set_context, modify,
}
use linux_server.Net.Server.Workers.{
  enqueue_post_delivery_event, enqueue_response_task, response_of, close_task, report, run_job,
  work,
}
use linux_server.Net.Server.Balance.{
  weaken-Balanced, clear-Balanced, decrement-Balanced, stopped-Balanced,
}
use linux_server.Net.Server.Tracking.{
  Tracked, SingleMark, change-Tracked, write-Tracked, keep-Tracked, some-ne-none, running, tokens,
  marks, resumes, total, total-append, job_tokens, job_marks, task_tokens, event_tokens,
  event_resumes, no_ids,
}

-- A result that asks for a mark of its response asks for none of its pushes.
abbrev pub MarksOnce : {H : Type 0} → IMessageHandler H → Type 0
MarksOnce {H} handler =
    (text : Bytes) (context : RequestContext) (h : H) (result : HandleResult)
    → (handler.handle text context h).0 ≡ some result
    → (is_empty result.delivered_message_ids || no_ids result.pushes) ≡ true

total-remove {ℓ} :
    {A : Type ℓ} (f : A → ℕ) (done : List A) (x : A) (rest : List A)
    → total f (done ++ x ∷ rest) ≡ f x + total f (done ++ rest)
total-remove f [] x rest = refl
total-remove f (y ∷ done) x rest = omega (arith, total-remove f done x rest)

-- A job whose tokens and marks are no longer in the queue.
record Removed {H : Type 0} (job : Job) (rest : List Job) (s : TcpServer H) : Type 0 where
  fewer_tokens :
      (j : ℕ) → total (job_tokens j) s.jobs ≡ job_tokens j job + total (job_tokens j) rest
  fewer_marks : (j : ℕ) → total (job_marks j) s.jobs ≡ job_marks j job + total (job_marks j) rest

removed :
    {H : Type 0} (done rest : List Job) (job : Job) (s : TcpServer H)
    → s.jobs ≡ done ++ job ∷ rest
    → Removed job (done ++ rest) s
removed done rest job s e = record {
  fewer_tokens = λ j. ap (total (job_tokens j)) e ∙ total-remove (job_tokens j) done job rest;
  fewer_marks = λ j. ap (total (job_marks j)) e ∙ total-remove (job_marks j) done job rest;
}

enqueue-cases :
    {H : Type 0} (task : ResponseTask) (s : TcpServer H)
    → (enqueue_response_task task s
        ≡ (true, record s { completed_tasks = s.completed_tasks ++ task ∷ [] }))
      ⊎ ((enqueue_response_task task s ≡ (false, s)) × (running s ≡ false))
unfolding enqueue_response_task
enqueue-cases task s = elim (Bool-cases (s.stopping || not s.event_fd_open)) [
  | inl e ↦ inr (rw e, ground arith)
  | inr e ↦ inl (rw e)
]

module _ {H : Type 0} {ts : List ResponseTask} {es : List PostDeliveryEvent} where
  -- A request of a connection that is gone.
  dropped-Tracked :
      (task : RequestTask) (rest : List Job) (h : H) (s : TcpServer H)
      → Tracked ts es s
      → Removed (request task) rest s
      → lookup task.conn_id s.connections ≡ none
      → Tracked ts es (record s { jobs = rest; handler_state = h })
  dropped-Tracked task rest h s v q e =
      let k = task.conn_id in
      change-Tracked ts ts es es s _ k v
        (ground (arith, v.fresh k, q.fewer_tokens k, nat_beq_iff k k))
        (λ j off.
          (refl, ground (arith, q.fewer_tokens j), ground (arith, q.fewer_marks j), omega arith))
        (λ x f. absurd (some-ne-none x (sym f ∙ e))) refl refl refl v.single_held v.single_queued

  -- An answer takes the place of the request.
  answered-Tracked :
      (task : RequestTask) (answer : ResponseTask) (rest : List Job) (h : H) (n : ℕ)
      (s : TcpServer H)
      → Tracked ts es s
      → Removed (request task) rest s
      → answer.conn_id ≡ task.conn_id
      → SingleMark answer
      → Tracked ts es (record s {
        jobs = rest;
        handler_state = h;
        next_response_task_id = n;
        completed_tasks = s.completed_tasks ++ answer ∷ [];
      })
  answered-Tracked task answer rest h n s v q same single =
      keep-Tracked ts es s _ v (λ j c e. (e, v.found j c e))
        (λ j. (
          ground (
            arith,
            q.fewer_tokens j,
            total-append (task_tokens j) s.completed_tasks (answer ∷ []),
          ),
          ground (arith, q.fewer_marks j),
          omega arith,
        ))
        refl refl
        (All-append SingleMark s.completed_tasks (answer ∷ []) v.single_queued (single, tt))

  -- The server is stopping and takes no answer.
  unanswered-Tracked :
      (task : RequestTask) (rest : List Job) (h : H) (n : ℕ) (s : TcpServer H)
      → Tracked ts es s
      → Removed (request task) rest s
      → running s ≡ false
      → Tracked ts es (record s { jobs = rest; handler_state = h; next_response_task_id = n })
  unanswered-Tracked task rest h n s v q stopped =
      let k = task.conn_id in
      change-Tracked ts ts es es s _ k v
        (ground (arith, v.fresh k, q.fewer_tokens k, nat_beq_iff k k))
        (λ j off.
          (refl, ground (arith, q.fewer_tokens j), ground (arith, q.fewer_marks j), omega arith))
        (λ x f. (
          stopped-Balanced (running s) (running s) (tokens k ts es s) _ _ _ _ _ x stopped
              (ground (arith, q.fewer_marks k)) (omega arith) (v.live k x f),
          v.found k x f,
        ))
        refl refl refl v.single_held v.single_queued

  -- The handler threw, and the queue of the connection is emptied.
  emptied-Tracked :
      (task : RequestTask) (rest : List Job) (h : H) (n : ℕ) (c : ConnectionContext)
      (s : TcpServer H)
      → Tracked ts es s
      → Removed (request task) rest s
      → lookup task.conn_id s.connections ≡ some c
      → Tracked ts es (
          modify task.conn_id clear_pending_requests
            (record s { jobs = rest; handler_state = h; next_response_task_id = n }))
  unfolding modify set_context
  emptied-Tracked task rest h n c s v q e =
      let k = task.conn_id in
      rw (e, modify, set_context)
        (write-Tracked ts ts es es s _ k (clear_pending_requests c) refl v
          (ground (arith, v.fresh k, q.fewer_tokens k, nat_beq_iff k k))
          (λ j off.
            (ground (arith, q.fewer_tokens j), ground (arith, q.fewer_marks j), omega arith))
          (clear-Balanced (running s) _ _ _ c (
            weaken-Balanced (running s) (running s) (tokens k ts es s) _ (marks k s) _
              (resumes k es s) _ c refl (ground (arith, q.fewer_tokens k, nat_beq_iff k k))
              (ground (arith, q.fewer_marks k)) (omega arith) (v.live k c e)))
          (unfold clear_pending_requests in (v.found k c e)) refl refl refl v.single_held
          v.single_queued)

  -- The end of a mark that holds back the connection's own request.
  marked-Tracked :
      (user_id : ℤ) (ids : List Bytes) (id : ℕ) (rest : List Job) (h : H) (s : TcpServer H)
      → Tracked ts es s
      → Removed (mark_and_finish user_id ids id) rest s
      → Tracked ts es
          (enqueue_post_delivery_event id true (record s { jobs = rest; handler_state = h }))
  unfolding enqueue_post_delivery_event
  marked-Tracked user_id ids id rest h s v q =
      let event : PostDeliveryEvent = record { conn_id = id; finish_current_request = true } in
      keep-Tracked ts es s _ v (λ j c e. (e, v.found j c e))
        (λ j. (
          ground (
            arith,
            q.fewer_tokens j,
            total-append (event_tokens j) s.post_delivery_events (event ∷ []),
          ),
          ground (arith, q.fewer_marks j),
          ground (arith, total-append (event_resumes j) s.post_delivery_events (event ∷ [])),
        ))
        refl refl v.single_queued

  -- The end of a mark that fences the connection.
  released-Tracked :
      (user_id : ℤ) (ids : List Bytes) (id : ℕ) (rest : List Job) (h : H) (c : ConnectionContext)
      (s : TcpServer H)
      → Tracked ts es s
      → Removed (mark_and_release user_id ids id) rest s
      → lookup id s.connections ≡ some c
      → Tracked ts es (
          enqueue_post_delivery_event id false (
            set_context id
              (decrement_pending_delivery_marks c)
              (record s { jobs = rest; handler_state = h })))
  unfolding enqueue_post_delivery_event set_context
  released-Tracked user_id ids id rest h c s v q e =
      let event : PostDeliveryEvent = record { conn_id = id; finish_current_request = false } in
      write-Tracked ts ts es es s _ id (decrement_pending_delivery_marks c) refl v
        (ground (arith, v.fresh id, q.fewer_marks id, nat_beq_iff id id))
        (λ j off. (
          ground (
            arith,
            q.fewer_tokens j,
            total-append (event_tokens j) s.post_delivery_events (event ∷ []),
          ),
          ground (arith, q.fewer_marks j),
          ground (arith, total-append (event_resumes j) s.post_delivery_events (event ∷ [])),
        ))
        (weaken-Balanced (running s) (running s) (tokens id ts es s) _ (total (job_marks id) rest) _
          (suc (resumes id es s)) _ _ refl
          (ground (
            arith,
            q.fewer_tokens id,
            total-append (event_tokens id) s.post_delivery_events (event ∷ []),
          ))
          refl
          (ground (
            arith,
            total-append (event_resumes id) s.post_delivery_events (event ∷ []),
            nat_beq_iff id id,
          ))
          (decrement-Balanced (running s) (tokens id ts es s) (total (job_marks id) rest)
            (resumes id es s) c
            (weaken-Balanced (running s) (running s) (tokens id ts es s) _ (marks id s) _ _ _ c refl
              refl (ground (arith, q.fewer_marks id, nat_beq_iff id id)) (omega arith)
              (v.live id c e))))
        (unfold decrement_pending_delivery_marks in (v.found id c e)) refl refl refl v.single_held
        v.single_queued

  unreleased-Tracked :
      (user_id : ℤ) (ids : List Bytes) (id : ℕ) (rest : List Job) (h : H) (s : TcpServer H)
      → Tracked ts es s
      → Removed (mark_and_release user_id ids id) rest s
      → lookup id s.connections ≡ none
      → Tracked ts es (record s { jobs = rest; handler_state = h })
  unreleased-Tracked user_id ids id rest h s v q e =
      change-Tracked ts ts es es s _ id v
        (ground (arith, v.fresh id, q.fewer_marks id, nat_beq_iff id id))
        (λ j off.
          (refl, ground (arith, q.fewer_tokens j), ground (arith, q.fewer_marks j), omega arith))
        (λ x f. absurd (some-ne-none x (sym f ∙ e))) refl refl refl v.single_held v.single_queued

  -- What the worker reports.
  report-Tracked :
      (task : RequestTask) (result : Option HandleResult) (rest : List Job) (h : H)
      (c : ConnectionContext) (s : TcpServer H)
      → Tracked ts es s
      → Removed (request task) rest s
      → lookup task.conn_id s.connections ≡ some c
      → ((r : HandleResult)
          → result ≡ some r
          → (is_empty r.delivered_message_ids || no_ids r.pushes) ≡ true)
      → Tracked ts es (report task.conn_id result (record s { jobs = rest; handler_state = h }))
  unfolding report
  report-Tracked task none rest h c s v q e once =
      let n = (s.next_response_task_id + 1) % 2 ^ 64 in
      elim (enqueue-cases (close_task task.conn_id s.next_response_task_id)
        (record s { jobs = rest; handler_state = h; next_response_task_id = n })) [
          | inl f ↦
              rw (f, report)
                (answered-Tracked task (close_task task.conn_id s.next_response_task_id) rest h n s
                  v q refl refl)
          | inr (f, stopped) ↦ rw (f, report) (emptied-Tracked task rest h n c s v q e)
        ]
  report-Tracked task (some r) rest h c s v q e once =
      let n = (s.next_response_task_id + 1) % 2 ^ 64 in
      elim (enqueue-cases (response_of task.conn_id s.next_response_task_id r)
        (record s { jobs = rest; handler_state = h; next_response_task_id = n })) [
          | inl f ↦
              rw (f, report)
                (answered-Tracked task (response_of task.conn_id s.next_response_task_id r) rest h n
                  s v q refl (once r refl))
          | inr (f, stopped) ↦ rw (f, report) (unanswered-Tracked task rest h n s v q stopped)
        ]

  module _ (handler : IMessageHandler H) (once : MarksOnce handler) where
    run_job-Tracked :
        (job : Job) (rest : List Job) (s : TcpServer H)
        → Tracked ts es s
        → Removed job rest s
        → Tracked ts es (run_job handler job (record s { jobs = rest }))
    unfolding run_job
    run_job-Tracked (request task) rest s v q =
        elim (Option-cases (lookup task.conn_id s.connections)) [
          | inl e ↦ rw (e, run_job) (dropped-Tracked task rest _ s v q e)
          | inr (c, e) ↦
              rw (e, run_job)
                (report-Tracked task _ rest _ c s v q e (once task.request _ s.handler_state))
        ]
    run_job-Tracked (mark_and_finish user_id ids id) rest s v q =
        marked-Tracked user_id ids id rest _ s v q
    run_job-Tracked (mark_and_release user_id ids id) rest s v q =
        elim (Option-cases (lookup id s.connections)) [
          | inl e ↦ rw (e, run_job) (unreleased-Tracked user_id ids id rest _ s v q e)
          | inr (c, e) ↦ rw (e, run_job) (released-Tracked user_id ids id rest _ c s v q e)
        ]
    run_job-Tracked (clean_up id) rest s v q =
        keep-Tracked ts es s _ v (λ j c e. (e, v.found j c e))
          (λ j. (ground (arith, q.fewer_tokens j), ground (arith, q.fewer_marks j), omega arith))
          refl refl v.single_queued

    -- Any job of the queue.
    pub work-Tracked :
        (n : ℕ) (done jobs : List Job) (s : TcpServer H)
        → s.jobs ≡ done ++ jobs
        → Tracked ts es s
        → Tracked ts es (work handler n done jobs s)
    unfolding work
    work-Tracked n done [] s e v = v
    work-Tracked zero done (job ∷ jobs) s e v =
        run_job-Tracked job (done ++ jobs) s v (removed done jobs job s e)
    work-Tracked (suc n) done (job ∷ jobs) s e v =
        work-Tracked n (done ++ job ∷ []) jobs s (e ∙ sym (append_assoc done (job ∷ []) jobs)) v
