-- ===== src/Net/Server/Workers.antt =====
-- The worker pool (src/TcpServer.cc, `submitRequestTask` and the functions after it): requests go
-- to the workers, responses and delivery marks come back. A worker's job is one step. Four workers
-- take jobs off the front of the queue and end in any order, so any job of the queue may be next.
use linux_server.Base.{
  ℕ, zero, suc, ◌+◌, ◌%◌, ◌^◌, Bool, true, false, not, ◌||◌, List, [], ◌∷◌, ◌++◌, Option, none,
  some, Bytes, lookup, nat_eq, pos, if◌then◌else◌,
}
use linux_server.Session.Manager.{ConnectionSession}
use linux_server.Net.Handler.{SessionAction, HandleResult, IMessageHandler}
use linux_server.Net.Context.{
  finish_request_and_pop_next, pop_next_request_if_idle, clear_pending_requests,
  decrement_pending_delivery_marks,
}
use linux_server.Net.Server.{
  TcpServer, RequestTask, ResponseTask, Job, request, mark_and_finish, mark_and_release, clean_up,
  set_context, modify, submit,
}

abbrev no_session : ConnectionSession
no_session = record { authenticated = false; user_id = pos 0; username = []; token = [] }

abbrev pub response_of : ℕ → ℕ → HandleResult → ResponseTask
response_of id sequence result = record {
  conn_id = id;
  response = result.response;
  sequence = sequence;
  close_after = false;
  session_action = result.session_action;
  pending_session = result.pending_session;
  pushes = result.pushes;
  delivered_message_ids = result.delivered_message_ids;
  delivered_user_id = result.delivered_user_id;
}

abbrev pub close_task : ℕ → ℕ → ResponseTask
close_task id sequence = record {
  conn_id = id;
  response = [];
  sequence = sequence;
  close_after = true;
  session_action = SessionAction.none;
  pending_session = no_session;
  pushes = [];
  delivered_message_ids = [];
  delivered_user_id = pos 0;
}

module _ {H : Type 0} where
  unfoldable pub submit_request_task : RequestTask → TcpServer H → Bool × TcpServer H
  unfolding submit
  submit_request_task task s = if s.stopping then (false, s) else submit (request task) s

  -- The request that a connection's queue hands out goes to the pool; if that fails, the queue is
  -- emptied and the caller closes the connection.
  unfoldable pub submit_next : ℕ → Bytes → Option Bytes → TcpServer H → Bool × TcpServer H
  unfolding submit_request_task modify
  submit_next id peer_ip none s = (true, s)
  submit_next id peer_ip (some next) s =
      let (submitted, s') =
        submit_request_task (record { conn_id = id; peer_ip = peer_ip; request = next }) s in
      if submitted then (true, s') else (false, modify id clear_pending_requests s')

  -- A connection that was closed has nothing queued.
  unfoldable pub finish_current_request_and_submit_next : ℕ → TcpServer H → Bool × TcpServer H
  unfolding submit_next set_context
  finish_current_request_and_submit_next id s = elim (lookup id s.connections) [
    | none ↦ (true, s)
    | some c ↦
        let (c', next) = finish_request_and_pop_next c in
        submit_next id c.meta.peer_ip next (set_context id c' s)
  ]

  unfoldable pub submit_next_queued_request_if_idle : ℕ → TcpServer H → Bool × TcpServer H
  unfolding submit_next set_context
  submit_next_queued_request_if_idle id s = elim (lookup id s.connections) [
    | none ↦ (true, s)
    | some c ↦
        let (c', next) = pop_next_request_if_idle c in
        submit_next id c.meta.peer_ip next (set_context id c' s)
  ]

  unfoldable pub enqueue_post_delivery_event : ℕ → Bool → TcpServer H → TcpServer H
  enqueue_post_delivery_event id finish s = record s {
    post_delivery_events =
        s.post_delivery_events ++ record { conn_id = id; finish_current_request = finish } ∷ [];
  }

  -- A task stays in the queue whatever the write to the event descriptor answers.
  unfoldable pub enqueue_response_task : ResponseTask → TcpServer H → Bool × TcpServer H
  enqueue_response_task task s =
      if s.stopping || not s.event_fd_open
      then (false, s)
      else (true, record s { completed_tasks = s.completed_tasks ++ task ∷ [] })

  abbrev numbered : TcpServer H → TcpServer H
  numbered s = record s { next_response_task_id = (s.next_response_task_id + 1) % 2 ^ 64 }

  -- What the worker does with the result of `handle`, if the connection is still there.
  unfoldable pub report : ℕ → Option HandleResult → TcpServer H → TcpServer H
  unfolding enqueue_response_task modify
  report id none s =
      let (queued, s') =
        enqueue_response_task (close_task id s.next_response_task_id) (numbered s) in
      if queued then s' else modify id clear_pending_requests s'
  report id (some result) s =
      (enqueue_response_task (response_of id s.next_response_task_id result) (numbered s)).1

  module _ (handler : IMessageHandler H) where
    -- One step. The last job of the source first takes the mark off and then queues the event.
    unfoldable pub run_job : Job → TcpServer H → TcpServer H
    unfolding report enqueue_post_delivery_event set_context
    run_job (request task) s =
        let (result, h) =
          handler.handle task.request (record { conn_id = task.conn_id; peer_ip = task.peer_ip })
            s.handler_state in
        let s' = record s { handler_state = h } in
        elim (lookup task.conn_id s.connections) [
          | none ↦ s'
          | some c ↦ report task.conn_id result s'
        ]
    run_job (mark_and_finish user_id ids id) s =
        enqueue_post_delivery_event id true
          (record s { handler_state = handler.on_messages_delivered user_id ids s.handler_state })
    run_job (mark_and_release user_id ids id) s =
        let s' = record s {
          handler_state = handler.on_messages_delivered user_id ids s.handler_state;
        } in
        elim (lookup id s.connections) [
          | none ↦ s'
          | some c ↦
              enqueue_post_delivery_event id false
                (set_context id (decrement_pending_delivery_marks c) s')
        ]
    run_job (clean_up id) s = record s {
      handler_state = handler.on_connection_closed id s.handler_state;
    }

    -- The job at a place of the queue leaves it and runs.
    unfoldable pub work : ℕ → List Job → List Job → TcpServer H → TcpServer H
    unfolding run_job
    work n done [] s = s
    work zero done (job ∷ jobs) s = run_job job (record s { jobs = done ++ jobs })
    work (suc n) done (job ∷ jobs) s = work n (done ++ job ∷ []) jobs s
