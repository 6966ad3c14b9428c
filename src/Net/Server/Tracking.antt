-- ===== src/Net/Server/Tracking.antt =====
-- The account of the whole server (src/TcpServer.cc): for each connection, what the queues hold for
-- it agrees with what its context says.
pub mod Closing
pub mod Working
pub mod Jobs
pub mod Delivering
pub mod Responding
pub mod Waking
pub mod Reading
pub mod Quiet
pub mod Running
use linux_server.Base.{
  ℕ, ℤ, Map, zero, suc, ◌+◌, ◌≤◌, ◌<◌, ◌≡◌, ◌≢◌, refl, sym, ap, ◌∙◌, subst, Bool, true, false, not,
  ◌&&◌, ◌||◌, ◌⊎◌, inl, inr, List, [], ◌∷◌, ◌++◌, Option, none, some, arith, All, is_empty, lookup,
  insert, nat_beq, nat_beq_iff, Bool-cases, Option-cases, nat_eq, int_eq, if◌then◌else◌,
  lookup-insert,
}
use linux_server.Net.Handler.{OutboundMessage, HandleResult, IMessageHandler}
use linux_server.Net.Context.{ConnectionContext}
use linux_server.Net.Server.{
  TcpServer, RequestTask, ResponseTask, PostDeliveryEvent, RemotePushTask, RemoteCall, Job, request,
  mark_and_finish, mark_and_release, clean_up, set_context, fd,
}
use linux_server.Net.Server.Balance.{Balanced, weaken-Balanced}

abbrev pub one_if : Bool → ℕ
one_if b = if b then 1 else 0

abbrev pub total {ℓ} : {A : Type ℓ} → (A → ℕ) → List A → ℕ
total f [] = 0
total f (x ∷ xs) = f x + total f xs

pub total-append {ℓ} :
    {A : Type ℓ} (f : A → ℕ) (xs ys : List A) → total f (xs ++ ys) ≡ total f xs + total f ys
total-append f [] ys = omega arith
total-append f (x ∷ xs) ys = omega (arith, total-append f xs ys)

-- A request that a worker has not answered, or an answer that waits for its delivery mark.
abbrev pub job_tokens : ℕ → Job → ℕ
job_tokens id (request task) = one_if (nat_beq task.conn_id id)
job_tokens id (mark_and_finish user_id ids k) = one_if (nat_beq k id)
job_tokens id (mark_and_release user_id ids k) = 0
job_tokens id (clean_up k) = 0

abbrev pub job_marks : ℕ → Job → ℕ
job_marks id (request task) = 0
job_marks id (mark_and_finish user_id ids k) = 0
job_marks id (mark_and_release user_id ids k) = one_if (nat_beq k id)
job_marks id (clean_up k) = 0

abbrev pub task_tokens : ℕ → ResponseTask → ℕ
task_tokens id task = one_if (nat_beq task.conn_id id)

abbrev pub event_tokens : ℕ → PostDeliveryEvent → ℕ
event_tokens id event =
    if event.finish_current_request then one_if (nat_beq event.conn_id id) else 0

abbrev pub event_resumes : ℕ → PostDeliveryEvent → ℕ
event_resumes id event = one_if (nat_beq event.conn_id id)

-- What the I/O thread has swapped out of the queues counts as well.
abbrev pub tokens : {H : Type 0} → ℕ → List ResponseTask → List PostDeliveryEvent → TcpServer H → ℕ
tokens id tasks events s =
    total (job_tokens id) s.jobs
    + (total (task_tokens id) tasks + total (task_tokens id) s.completed_tasks)
    + (total (event_tokens id) events + total (event_tokens id) s.post_delivery_events)

abbrev pub marks : {H : Type 0} → ℕ → TcpServer H → ℕ
marks id s = total (job_marks id) s.jobs

abbrev pub resumes : {H : Type 0} → ℕ → List PostDeliveryEvent → TcpServer H → ℕ
resumes id events s =
    total (event_resumes id) events + total (event_resumes id) s.post_delivery_events

abbrev pub running : {H : Type 0} → TcpServer H → Bool
running s = not s.stopping && s.event_fd_open

abbrev pub no_ids : List OutboundMessage → Bool
no_ids [] = true
no_ids (push ∷ pushes) = is_empty push.message_id && no_ids pushes

-- At most one delivery mark holds back the next request: a response whose messages are to be marked
-- comes with no push that is to be marked.
abbrev pub SingleMark : ResponseTask → Type 0
SingleMark task = (is_empty task.delivered_message_ids || no_ids task.pushes) ≡ true

pub record Tracked {H : Type 0} (tasks : List ResponseTask) (events : List PostDeliveryEvent)
    (s : TcpServer H) : Type 0 where
  pub live :
      (id : ℕ) (c : ConnectionContext)
      → lookup id s.connections ≡ some c
      → Balanced (running s) (tokens id tasks events s) (marks id s) (resumes id events s) c
  -- A connection is found by its descriptor.
  pub found :
      (id : ℕ) (c : ConnectionContext)
      → lookup id s.connections ≡ some c
      → lookup (fd c) s.fd_to_context ≡ some id
  pub fresh :
      (id : ℕ)
      → s.next_conn_id ≤ id
      → (lookup id s.connections ≡ none) × (tokens id tasks events s ≡ 0) × (marks id s ≡ 0)
  pub single_held : All SingleMark tasks
  pub single_queued : All SingleMark s.completed_tasks

pub some-ne-none : (c : ConnectionContext) → some c ≢ none
some-ne-none c e = cc e

module _ {H : Type 0} (ts ts' : List ResponseTask) (es es' : List PostDeliveryEvent)
    (s s' : TcpServer H) where
  -- What a change for one connection leaves alone for another.
  abbrev pub Elsewhere : ℕ → Type 0
  Elsewhere id =
      (lookup id s'.connections ≡ lookup id s.connections)
      × (tokens id ts' es' s' ≡ tokens id ts es s)
      × (marks id s' ≡ marks id s)
      × (resumes id es s ≤ resumes id es' s')

  abbrev pub Here : ℕ → Type 0
  Here k =
      (c : ConnectionContext)
      → lookup k s'.connections ≡ some c
      → Balanced (running s') (tokens k ts' es' s') (marks k s') (resumes k es' s') c
        × (lookup (fd c) s'.fd_to_context ≡ some k)

  -- A change that concerns one connection only.
  pub change-Tracked :
      (k : ℕ)
      → Tracked ts es s
      → k < s.next_conn_id
      → ((id : ℕ) → nat_beq k id ≡ false → Elsewhere id)
      → Here k
      → s'.fd_to_context ≡ s.fd_to_context
      → running s' ≡ running s
      → s'.next_conn_id ≡ s.next_conn_id
      → All SingleMark ts'
      → All SingleMark s'.completed_tasks
      → Tracked ts' es' s'
  change-Tracked k v below elsewhere here fds same next held queued = record {
    live = λ id c e. elim (Bool-cases (nat_beq k id)) [
      | inl at ↦
          let eq : k ≡ id = (nat_beq_iff k id).0 at in
          subst
            (λ j.
              lookup j s'.connections ≡ some c
              → Balanced (running s') (tokens j ts' es' s') (marks j s') (resumes j es' s') c)
            eq (λ f. (here c f).0) e
      | inr off ↦
          let (found, tok, mk, res) = elsewhere id off in
          weaken-Balanced (running s) (running s') _ _ _ _ _ _ c same tok mk res
            (v.live id c (sym found ∙ e))
    ];
    found = λ id c e. elim (Bool-cases (nat_beq k id)) [
      | inl at ↦
          let eq : k ≡ id = (nat_beq_iff k id).0 at in
          subst (λ j. lookup j s'.connections ≡ some c → lookup (fd c) s'.fd_to_context ≡ some j) eq
            (λ f. (here c f).1) e
      | inr off ↦ ap (lookup (fd c)) fds ∙ v.found id c (sym (elsewhere id off).0 ∙ e)
    ];
    fresh = λ id h.
        let off : nat_beq k id ≡ false = ground arith in
        let (found, tok, mk, res) = elsewhere id off in
        let (gone, no_tok, no_mk) = v.fresh id (omega arith) in
        (found ∙ gone, tok ∙ no_tok, mk ∙ no_mk);
    single_held = held;
    single_queued = queued;
  }

  -- What others' accounts are not to notice.
  abbrev pub Counts : ℕ → Type 0
  Counts id =
      (tokens id ts' es' s' ≡ tokens id ts es s)
      × (marks id s' ≡ marks id s)
      × (resumes id es s ≤ resumes id es' s')

  -- What is known of one connection is replaced.
  pub rewrite-Tracked :
      (k : ℕ) (d : ConnectionContext)
      → ((id : ℕ)
          → lookup id s'.connections ≡ (if nat_beq k id then some d else lookup id s.connections))
      → Tracked ts es s
      → k < s.next_conn_id
      → ((id : ℕ) → nat_beq k id ≡ false → Counts id)
      → Balanced (running s') (tokens k ts' es' s') (marks k s') (resumes k es' s') d
      → lookup (fd d) s.fd_to_context ≡ some k
      → s'.fd_to_context ≡ s.fd_to_context
      → running s' ≡ running s
      → s'.next_conn_id ≡ s.next_conn_id
      → All SingleMark ts'
      → All SingleMark s'.completed_tasks
      → Tracked ts' es' s'
  rewrite-Tracked k d written v below others account at fds same next held queued =
      change-Tracked k v below
        (λ id off. let (tok, mk, res) = others id off in (ground (arith, written id), tok, mk, res))
        (λ x f.
          let eq : d ≡ x = ground (arith, written k, nat_beq_iff k k, f) in
          subst
            (λ c.
              Balanced (running s') (tokens k ts' es' s') (marks k s') (resumes k es' s') c
              × (lookup (fd c) s'.fd_to_context ≡ some k))
            eq (account, ap (lookup (fd d)) fds ∙ at))
        fds same next held queued

  -- The context of one connection is written.
  pub write-Tracked :
      (k : ℕ) (d : ConnectionContext)
      → s'.connections ≡ insert k d s.connections
      → Tracked ts es s
      → k < s.next_conn_id
      → ((id : ℕ) → nat_beq k id ≡ false → Counts id)
      → Balanced (running s') (tokens k ts' es' s') (marks k s') (resumes k es' s') d
      → lookup (fd d) s.fd_to_context ≡ some k
      → s'.fd_to_context ≡ s.fd_to_context
      → running s' ≡ running s
      → s'.next_conn_id ≡ s.next_conn_id
      → All SingleMark ts'
      → All SingleMark s'.completed_tasks
      → Tracked ts' es' s'
  write-Tracked k d written =
      rewrite-Tracked k d (λ id. ap (lookup id) written ∙ lookup-insert k id d s.connections)

module _ {H : Type 0} {ts : List ResponseTask} {es : List PostDeliveryEvent} {s : TcpServer H} where
  -- A connection in the table has a number that was given out.
  pub lookup-lt-next :
      (id : ℕ) (c : ConnectionContext)
      → Tracked ts es s
      → lookup id s.connections ≡ some c
      → id < s.next_conn_id
  lookup-lt-next id c v e = ground (arith, v.fresh id)

module _ {H : Type 0} (ts ts' : List ResponseTask) (es es' : List PostDeliveryEvent)
    (s s' : TcpServer H) where
  -- A change that no connection's account notices; connections may go.
  pub move-Tracked :
      Tracked ts es s
      → ((id : ℕ)
          → (c : ConnectionContext) → lookup id s'.connections ≡ some c
          → (lookup id s.connections ≡ some c) × (lookup (fd c) s'.fd_to_context ≡ some id))
      → ((id : ℕ) → Counts ts ts' es es' s s' id)
      → running s' ≡ running s
      → s'.next_conn_id ≡ s.next_conn_id
      → All SingleMark ts'
      → All SingleMark s'.completed_tasks
      → Tracked ts' es' s'
  move-Tracked v back same run next held queued = record {
    live = λ id c e.
        let (tok, mk, res) = same id in
        weaken-Balanced (running s) (running s') _ _ _ _ _ _ c run tok mk res
          (v.live id c (back id c e).0);
    found = λ id c e. (back id c e).1;
    fresh = λ id h.
        let (tok, mk, res) = same id in
        let (gone, no_tok, no_mk) = v.fresh id (omega arith) in
        (
          elim (Option-cases (lookup id s'.connections)) [
            | inl e ↦ e
            | inr (c, e) ↦ absurd (some-ne-none c (sym (back id c e).0 ∙ gone))
          ],
          tok ∙ no_tok,
          mk ∙ no_mk,
        );
    single_held = held;
    single_queued = queued;
  }

module _ {H : Type 0} (ts : List ResponseTask) (es : List PostDeliveryEvent)
    (s s' : TcpServer H) where
  pub keep-Tracked :
      Tracked ts es s
      → ((id : ℕ)
          → (c : ConnectionContext) → lookup id s'.connections ≡ some c
          → (lookup id s.connections ≡ some c) × (lookup (fd c) s'.fd_to_context ≡ some id))
      → ((id : ℕ) → Counts ts ts es es s s' id)
      → running s' ≡ running s
      → s'.next_conn_id ≡ s.next_conn_id
      → All SingleMark s'.completed_tasks
      → Tracked ts es s'
  keep-Tracked v back same run next queued =
      move-Tracked ts ts es es s s' v back same run next v.single_held queued

module _ {H : Type 0} {ts : List ResponseTask} {es : List PostDeliveryEvent} where
  pub if-Tracked :
      (b : Bool) (x y : TcpServer H)
      → Tracked ts es x
      → Tracked ts es y
      → Tracked ts es (if b then x else y)
  if-Tracked true x y v w = v
  if-Tracked false x y v w = w

  -- What the account does not read.
  pub frame-Tracked :
      (s : TcpServer H) (results epoll : List Bool) (h : H) (writable : Map ℤ Bool)
      (users : Map ℤ (List ℕ)) (queue : List ℕ) (remote : List RemotePushTask)
      (calls : Map ℕ RemoteCall) (next : ℕ)
      → Tracked ts es s
      → Tracked ts es (record s {
        submit_results = results;
        epoll_results = epoll;
        handler_state = h;
        writable_interest = writable;
        authenticated_connections = users;
        timeout_scan_queue = queue;
        remote_push_tasks = remote;
        remote_calls = calls;
        next_response_task_id = next;
      })
  frame-Tracked s results epoll h writable users queue remote calls next v = record {
    live = v.live;
    found = v.found;
    fresh = v.fresh;
    single_held = v.single_held;
    single_queued = v.single_queued;
  }

  pub if_pair-Tracked {ℓ} :
      {A : Type ℓ} (b : Bool) (x y : A × TcpServer H)
      → Tracked ts es x.1
      → Tracked ts es y.1
      → Tracked ts es (if b then x else y).1
  if_pair-Tracked true x y v w = v
  if_pair-Tracked false x y v w = w
