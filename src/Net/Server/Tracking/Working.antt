-- ===== src/Net/Server/Tracking/Working.antt =====
-- The account under the steps that hand requests to workers and take their answers
-- (src/TcpServer.cc, `submitRequestTask`, `finishCurrentRequestAndSubmitNext` and the jobs).
use linux_server.Base.{
  ℕ, suc, ◌+◌, ◌<◌, ◌≤◌, ◌≡◌, ◌⊎◌, refl, ap, subst, ◌∙◌, true, false, List, [], ◌∷◌, ◌++◌, Option,
  none, some, inl, inr, arith, Bytes, All, lookup, insert, nat_beq, nat_beq_iff, Bool-cases,
  Option-cases, nat_eq, int_eq, lookup-insert,
}
use linux_server.Net.Context.{
  ConnectionContext, finish_request_and_pop_next, pop_next_request_if_idle, clear_pending_requests,
}
use linux_server.Net.Server.{
  TcpServer, RequestTask, ResponseTask, PostDeliveryEvent, request, set_context, modify, submit, fd,
  later_results, next_result,
}
use linux_server.Net.Server.Workers.{
  submit_request_task, submit_next, finish_current_request_and_submit_next,
  submit_next_queued_request_if_idle,
}
use linux_server.Net.Server.Balance.{
  Balanced, weaken-Balanced, finish-Balanced, resume-Balanced, clear-Balanced, finish-conn_fd,
  resume-conn_fd, after_step,
}
use linux_server.Net.Server.Tracking.{
  Tracked, SingleMark, rewrite-Tracked, write-Tracked, running, tokens, marks, resumes, total,
  total-append, job_tokens, job_marks, task_tokens, event_tokens, event_resumes,
}

abbrev pub held : ℕ → List ResponseTask → List PostDeliveryEvent → ℕ
held id ts es = total (task_tokens id) ts + total (event_tokens id) es

-- The I/O thread takes what concerns one connection from its lists, which were `ts` and `es` and
-- become `ts'` and `es'`.
pub record Taken (ts ts' : List ResponseTask) (es es' : List PostDeliveryEvent) (id : ℕ)
    : Type 0 where
  pub tokens_elsewhere : (j : ℕ) → nat_beq id j ≡ false → held j ts' es' ≡ held j ts es
  pub resumes_elsewhere :
      (j : ℕ) → nat_beq id j ≡ false → total (event_resumes j) es ≤ total (event_resumes j) es'
  pub single : All SingleMark ts'

-- The context of the connection is to be written as one that has a request in flight which no
-- queue holds yet.
pub record Owed {H : Type 0} (ts ts' : List ResponseTask) (es es' : List PostDeliveryEvent) (id : ℕ)
    (d : ConnectionContext) (s : TcpServer H) : Type 0 where
  pub taken : Taken ts ts' es es' id
  pub account : Balanced (running s) (suc (tokens id ts' es' s)) (marks id s) (resumes id es' s) d
  pub at : lookup (fd d) s.fd_to_context ≡ some id
  pub below : id < s.next_conn_id

module _ {H : Type 0} where
  abbrev pub submitted : RequestTask → TcpServer H → TcpServer H
  submitted task s = record s {
    jobs = s.jobs ++ request task ∷ [];
    submit_results = later_results s.submit_results;
  }

  abbrev pub unsubmitted : TcpServer H → TcpServer H
  unsubmitted s = record s { submit_results = later_results s.submit_results }

  pub submit_request_task-cases :
      (task : RequestTask) (s : TcpServer H)
      → (submit_request_task task s ≡ (true, submitted task s))
        ⊎ (submit_request_task task s ≡ (false, s))
        ⊎ (submit_request_task task s ≡ (false, unsubmitted s))
  unfolding submit_request_task submit
  submit_request_task-cases task s = elim (Bool-cases s.stopping) [
    | inl stopped ↦ inr (inl (rw stopped))
    | inr going ↦ elim (Bool-cases (next_result s.submit_results)) [
      | inl accepted ↦ inl (rw (going, accepted))
      | inr refused ↦ inr (inr (rw (going, refused)))
    ]
  ]

module _ {H : Type 0} {ts ts' : List ResponseTask} {es es' : List PostDeliveryEvent} where
  -- What concerned a connection that is gone.
  pub Taken-from_none-Tracked :
      (id : ℕ) (s : TcpServer H)
      → Tracked ts es s
      → Taken ts ts' es es' id
      → held id ts' es' ≤ held id ts es
      → lookup id s.connections ≡ none
      → Tracked ts' es' s
  Taken-from_none-Tracked id s v taken fewer e = record {
    live = λ j c f.
        let off : nat_beq id j ≡ false = ground (arith, nat_beq_iff id j) in
        weaken-Balanced (running s) (running s) _ _ _ _ _ _ c refl
          (omega (arith, taken.tokens_elsewhere j off)) refl
          (omega (arith, taken.resumes_elsewhere j off)) (v.live j c f);
    found = v.found;
    fresh = λ j h.
        let (gone, no_tok, no_mk) = v.fresh j h in
        (
          gone,
          elim (Bool-cases (nat_beq id j)) [
            | inl at ↦
                let eq : id ≡ j = (nat_beq_iff id j).0 at in
                let fewer' : held j ts' es' ≤ held j ts es =
                  subst (λ k. held k ts' es' ≤ held k ts es) eq fewer in
                omega arith
            | inr off ↦ omega (arith, taken.tokens_elsewhere j off)
          ],
          no_mk,
        );
    single_held = taken.single;
    single_queued = v.single_queued;
  }

  -- The queue of the pool takes the request over.
  pub submitted-Tracked :
      (task : RequestTask) (d : ConnectionContext) (s : TcpServer H)
      → Tracked ts es s
      → Owed ts ts' es es' task.conn_id d s
      → Tracked ts' es' (submitted task (set_context task.conn_id d s))
  unfolding set_context
  submitted-Tracked task d s v o =
      let k = task.conn_id in
      let job = request task in
      write-Tracked ts ts' es es' s _ k d refl v o.below
        (λ j off. (
          ground (arith, total-append (job_tokens j) s.jobs (job ∷ []), o.taken.tokens_elsewhere j),
          ground (arith, total-append (job_marks j) s.jobs (job ∷ [])),
          omega (arith, o.taken.resumes_elsewhere j off),
        ))
        (weaken-Balanced (running s) (running s) _ _ _ _ _ _ d refl
          (ground (arith, total-append (job_tokens k) s.jobs (job ∷ []), nat_beq_iff k k))
          (ground (arith, total-append (job_marks k) s.jobs (job ∷ []))) (omega arith) o.account)
        o.at refl refl refl o.taken.single v.single_queued

  -- The queue of the connection is emptied instead.
  pub cleared-Tracked :
      (id : ℕ) (d : ConnectionContext) (s : TcpServer H)
      → Tracked ts es s
      → Owed ts ts' es es' id d s
      → Tracked ts' es' (modify id clear_pending_requests (set_context id d s))
  unfolding modify set_context
  cleared-Tracked id d s v o =
      let there : lookup id (insert id d s.connections) ≡ some d =
        ground (arith, lookup-insert id id d s.connections, nat_beq_iff id id) in
      rw (there, modify, set_context)
        (rewrite-Tracked ts ts' es es' s _ id (clear_pending_requests d)
          (λ j. ground (
            arith,
            lookup-insert id j d s.connections,
            lookup-insert id j (clear_pending_requests d) (insert id d s.connections),
          ))
          v o.below
          (λ j off. (
            omega (arith, o.taken.tokens_elsewhere j off),
            refl,
            omega (arith, o.taken.resumes_elsewhere j off),
          ))
          (clear-Balanced (running s) (tokens id ts' es' s) (marks id s) (resumes id es' s) d
            o.account)
          (unfold clear_pending_requests in o.at) refl refl refl o.taken.single v.single_queued)

  pub submit_next-Tracked :
      (id : ℕ) (ip : Bytes) (next : Bytes) (d : ConnectionContext) (s : TcpServer H)
      → Tracked ts es s
      → Owed ts ts' es es' id d s
      → Tracked ts' es' (submit_next id ip (some next) (set_context id d s)).1
  unfolding submit_next set_context
  submit_next-Tracked id ip next d s v o =
      let task : RequestTask = record { conn_id = id; peer_ip = ip; request = next } in
      elim (submit_request_task-cases task (set_context id d s)) [
        | inl e ↦ rw e (submitted-Tracked task d s v o)
        | inr (inl e) ↦ rw e (cleared-Tracked id d s v o)
        | inr (inr e) ↦ rw e (
            cleared-Tracked id d (unsubmitted s)
              (record {
                live = v.live;
                found = v.found;
                fresh = v.fresh;
                single_held = v.single_held;
                single_queued = v.single_queued;
              })
              (record { taken = o.taken; account = o.account; at = o.at; below = o.below }))
      ]

  -- What the queue of a connection hands out.
  pub submit_any-Tracked :
      (id : ℕ) (ip : Bytes) (next : Option Bytes) (d : ConnectionContext) (s : TcpServer H)
      → Tracked ts es s
      → Taken ts ts' es es' id
      → id < s.next_conn_id
      → lookup (fd d) s.fd_to_context ≡ some id
      → Balanced
          (running s)
          (after_step next (tokens id ts' es' s))
          (marks id s)
          (resumes id es' s)
          d
      → Tracked ts' es' (submit_next id ip next (set_context id d s)).1
  unfolding submit_next set_context
  submit_any-Tracked id ip none d s v taken below at account =
      write-Tracked ts ts' es es' s _ id d refl v below
        (λ j off. (
          omega (arith, taken.tokens_elsewhere j off),
          refl,
          omega (arith, taken.resumes_elsewhere j off),
        ))
        account at refl refl refl taken.single v.single_queued
  submit_any-Tracked id ip (some next) d s v taken below at account =
      submit_next-Tracked id ip next d s v
        (record { taken = taken; account = account; at = at; below = below })

  -- The end of a request, whose token has been taken.
  pub finish_current_request-Tracked :
      (id : ℕ) (s : TcpServer H)
      → Tracked ts es s
      → Taken ts ts' es es' id
      → held id ts es ≡ suc (held id ts' es')
      → Tracked ts' es' (finish_current_request_and_submit_next id s).1
  unfolding finish_current_request_and_submit_next
  finish_current_request-Tracked id s v taken one =
      let below : id < s.next_conn_id = ground (arith, v.fresh id) in
      elim (Option-cases (lookup id s.connections)) [
        | inl e ↦
            rw (e, finish_current_request_and_submit_next)
              (Taken-from_none-Tracked id s v taken (omega arith) e)
        | inr (c, e) ↦
            rw (e, finish_current_request_and_submit_next)
              (submit_any-Tracked id c.meta.peer_ip (finish_request_and_pop_next c).1
                (finish_request_and_pop_next c).0 s v taken below
                (ap (λ x. lookup x s.fd_to_context) (finish-conn_fd c) ∙ v.found id c e)
                (finish-Balanced (running s) (tokens id ts' es' s) (marks id s) (resumes id es s) c
                  (resumes id es' s)
                  (weaken-Balanced (running s) (running s) _ _ _ _ _ _ c refl (omega arith) refl
                    (omega arith) (v.live id c e))))
      ]

  pub resume_if_idle-Tracked :
      (id : ℕ) (s : TcpServer H)
      → Tracked ts es s
      → Taken ts ts' es es' id
      → id < s.next_conn_id
      → held id ts es ≡ held id ts' es'
      → Tracked ts' es' (submit_next_queued_request_if_idle id s).1
  unfolding submit_next_queued_request_if_idle
  resume_if_idle-Tracked id s v taken below one = elim (Option-cases (lookup id s.connections)) [
    | inl e ↦
        rw (e, submit_next_queued_request_if_idle)
          (Taken-from_none-Tracked id s v taken (omega arith) e)
    | inr (c, e) ↦
        rw (e, submit_next_queued_request_if_idle)
          (submit_any-Tracked id c.meta.peer_ip (pop_next_request_if_idle c).1
            (pop_next_request_if_idle c).0 s v taken below
            (ap (λ x. lookup x s.fd_to_context) (resume-conn_fd c) ∙ v.found id c e)
            (resume-Balanced (running s) (tokens id ts' es' s) (marks id s) (resumes id es s) c
              (resumes id es' s)
              (weaken-Balanced (running s) (running s) _ _ _ _ _ _ c refl (omega arith) refl
                (omega arith) (v.live id c e))))
  ]
