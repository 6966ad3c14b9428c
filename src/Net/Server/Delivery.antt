-- ===== src/Net/Server/Delivery.antt =====
-- What the I/O thread does when the workers wake it (src/TcpServer.cc, `onWorkerResultReadable`):
-- remote deliveries, responses with their pushes and marks, and the ends of delivery marks.
use linux_server.Base.{
  ℕ, Bool, true, false, ◌||◌, List, [], ◌∷◌, ◌++◌, Option, none, some, Bytes, is_empty, ℤ, pos, Map,
  lookup, insert, nat_beq, ◌==◌, int_eq, nat_eq, if◌then◌else◌,
}
use linux_server.Model.Records.{RemoteDeliveryOutcome, delivered_to_client, invalid_target, retry}
use linux_server.Codec.Packet.{encode}
use linux_server.Net.Handler.{SessionAction, OutboundMessage, IMessageHandler}
use linux_server.Net.Context.{
  ConnectionContext, append_pending_send, increment_pending_delivery_marks,
  decrement_pending_delivery_marks,
}
use linux_server.Net.Server.{
  TcpServer, ResponseTask, PostDeliveryEvent, RemotePushTask, mark_and_finish, mark_and_release, fd,
  set_context, submit, enable_writable_event, close_client_fd, bind_authenticated_connection,
  unbind_authenticated_connection,
}
use linux_server.Net.Server.Workers.{
  finish_current_request_and_submit_next, submit_next_queued_request_if_idle,
  enqueue_post_delivery_event,
}

-- The messages to mark, as the loop over the pushes collects them.
pub record PushMarks : Type 0 where
  pub same_conn_ids : List Bytes
  pub same_conn_user : ℤ
  pub cross_conn : Map ℕ (List Bytes × ℤ)

abbrev pub no_marks : PushMarks
no_marks = record { same_conn_ids = []; same_conn_user = pos 0; cross_conn = [] }

abbrev first_user : ℤ → ℤ → ℤ
first_user user_id later = if user_id == pos 0 then later else user_id

abbrev entry_of : Option (List Bytes × ℤ) → List Bytes × ℤ
entry_of none = ([], pos 0)
entry_of (some entry) = entry

unfoldable pub note_mark : ℕ → OutboundMessage → PushMarks → PushMarks
note_mark id push marks =
    if is_empty push.message_id
    then marks
    else if nat_beq push.target_conn_id id
    then record marks {
      same_conn_ids = marks.same_conn_ids ++ push.message_id ∷ [];
      same_conn_user = first_user marks.same_conn_user push.target_user_id;
    }
    else let (ids, user_id) = entry_of (lookup push.target_conn_id marks.cross_conn) in
      record marks {
        cross_conn =
            insert push.target_conn_id
              (ids ++ push.message_id ∷ [], first_user user_id push.target_user_id)
              marks.cross_conn;
      }

module _ {H : Type 0} where
  -- A connection that got pushes is fenced until their mark is made.
  unfoldable pub mark_cross : ℕ → List Bytes → ℤ → TcpServer H → TcpServer H
  unfolding submit set_context enqueue_post_delivery_event
  mark_cross id ids user_id s = elim (lookup id s.connections) [
    | none ↦ s
    | some c ↦
        let fenced = increment_pending_delivery_marks c in
        let (submitted, s') = submit (mark_and_release user_id ids id) (set_context id fenced s) in
        if submitted
        then s'
        else enqueue_post_delivery_event id false
            (set_context id (decrement_pending_delivery_marks fenced) s')
  ]

  -- In the order of the first push to each connection; the source walks an unordered map.
  unfoldable pub mark_all_cross : Map ℕ (List Bytes × ℤ) → TcpServer H → TcpServer H
  unfolding mark_cross
  mark_all_cross [] s = s
  mark_all_cross ((id, (ids, user_id)) ∷ rest) s = mark_all_cross rest (mark_cross id ids user_id s)

  -- Whether the next request waits for a mark.
  unfoldable pub mark_same : ℕ → PushMarks → Bool → TcpServer H → Bool × TcpServer H
  unfolding submit
  mark_same id marks deferred s =
      let (submitted, s') =
        submit (mark_and_finish marks.same_conn_user marks.same_conn_ids id) s in
      if is_empty marks.same_conn_ids then (deferred, s) else (deferred || submitted, s')

module _ {H : Type 0} (handler : IMessageHandler H) where
  -- Queues a framed payload for a connection and watches for room to send it; a connection that
  -- cannot be watched is closed.
  unfoldable pub send_framed : ℕ → ConnectionContext → Bytes → TcpServer H → Bool × TcpServer H
  unfolding set_context enable_writable_event
  send_framed id c payload s =
      let (enabled, s') =
        enable_writable_event (fd c) (set_context id (append_pending_send c (encode payload)) s) in
      if enabled then (true, s') else (false, close_client_fd handler (fd c) s')

  -- The claimed task: its payload is queued if the connection still belongs to the user.
  unfoldable pub deliver_claimed :
      RemotePushTask → TcpServer H → RemoteDeliveryOutcome × TcpServer H
  unfolding send_framed
  deliver_claimed task s =
      let id = task.event.target_connection_id in
      if handler.is_connection_bound_to_user id task.event.to_user_id s.handler_state
      then elim (lookup id s.connections) [
        | none ↦ (invalid_target, s)
        | some c ↦
            let (sent, s') = send_framed id c task.event.payload s in
            (if sent then delivered_to_client else retry, s')
      ]
      else (invalid_target, s)

  unfoldable pub run_remote_push : RemotePushTask → TcpServer H → TcpServer H
  unfolding deliver_claimed
  run_remote_push task s = elim (lookup task.call s.remote_calls) [
    | none ↦ s
    | some call ↦
        let (outcome, s') = deliver_claimed task s in
        if nat_beq call.state 0
        then record s' {
          remote_calls =
              insert task.call (record { state = 1; completion = some outcome }) s'.remote_calls;
        }
        else s
  ]

  unfoldable pub run_remote_pushes : List RemotePushTask → TcpServer H → TcpServer H
  run_remote_pushes [] s = s
  run_remote_pushes (task ∷ tasks) s = run_remote_pushes tasks (run_remote_push task s)

  -- The response; `false` if the connection was closed. The second answer tells whether the next
  -- request waits for a delivery mark.
  unfoldable pub send_response :
      ResponseTask → ConnectionContext → TcpServer H → Bool × Bool × TcpServer H
  unfolding send_framed submit
  send_response task c s =
      let (sent, s') = send_framed task.conn_id c task.response s in
      let (submitted, s'') =
        submit (mark_and_finish task.delivered_user_id task.delivered_message_ids task.conn_id)
          s' in
      if is_empty task.response
      then (true, false, s)
      else if sent
      then (if is_empty task.delivered_message_ids
          then (true, false, s')
          else (true, submitted, s''))
      else (false, false, s')

  unfoldable pub apply_session_action : ResponseTask → TcpServer H → TcpServer H
  unfolding bind_authenticated_connection unbind_authenticated_connection
  apply_session_action task s = elim task.session_action [
    | SessionAction.none ↦ s
    | SessionAction.bind ↦
        bind_authenticated_connection task.conn_id task.pending_session.user_id (record s {
          handler_state =
              handler.apply_bind_session task.conn_id task.pending_session s.handler_state;
        })
    | SessionAction.unbind ↦
        unbind_authenticated_connection task.conn_id
          (record s { handler_state = handler.apply_unbind_session task.conn_id s.handler_state })
  ]

  unfoldable pub push_one : ℕ → OutboundMessage → PushMarks → TcpServer H → PushMarks × TcpServer H
  unfolding send_framed note_mark
  push_one id push marks s =
      if handler.is_connection_bound_to_user push.target_conn_id push.target_user_id s.handler_state
      then elim (lookup push.target_conn_id s.connections) [
        | none ↦ (marks, s)
        | some c ↦
            let (sent, s') = send_framed push.target_conn_id c push.payload s in
            if is_empty push.payload
            then (marks, s)
            else (if sent then note_mark id push marks else marks, s')
      ]
      else (marks, s)

  unfoldable pub push_all :
      ℕ → List OutboundMessage → PushMarks → TcpServer H → PushMarks × TcpServer H
  unfolding push_one
  push_all id [] marks s = (marks, s)
  push_all id (push ∷ pushes) marks s =
      let (marks', s') = push_one id push marks s in push_all id pushes marks' s'

  abbrev close_unless : Bool × TcpServer H → ℤ → TcpServer H
  close_unless r conn_fd = if r.0 then r.1 else close_client_fd handler conn_fd r.1

  unfoldable pub finish_task : ℕ → ℤ → Bool → TcpServer H → TcpServer H
  unfolding finish_current_request_and_submit_next
  finish_task id conn_fd deferred s =
      if deferred then s else close_unless (finish_current_request_and_submit_next id s) conn_fd

  -- The session action, the pushes, their marks and the next request of the connection.
  unfoldable pub after_response : ResponseTask → ℤ → Bool → TcpServer H → TcpServer H
  unfolding apply_session_action push_all mark_all_cross mark_same finish_task
  after_response task conn_fd deferred s =
      let (marks, s1) = push_all task.conn_id task.pushes no_marks (apply_session_action task s) in
      let (waits, s2) =
        mark_same task.conn_id marks deferred (mark_all_cross marks.cross_conn s1) in
      finish_task task.conn_id conn_fd waits s2

  unfoldable pub run_response_task : ResponseTask → TcpServer H → TcpServer H
  unfolding send_response after_response
  run_response_task task s = elim (lookup task.conn_id s.connections) [
    | none ↦ s
    | some c ↦
        let (open_still, deferred, s') = send_response task c s in
        if task.close_after
        then close_client_fd handler (fd c) s
        else if open_still
        then after_response task (fd c) deferred s'
        else s'
  ]

  unfoldable pub run_response_tasks : List ResponseTask → TcpServer H → TcpServer H
  run_response_tasks [] s = s
  run_response_tasks (task ∷ tasks) s = run_response_tasks tasks (run_response_task task s)

  unfoldable pub run_post_delivery_event : PostDeliveryEvent → TcpServer H → TcpServer H
  unfolding finish_current_request_and_submit_next submit_next_queued_request_if_idle
  run_post_delivery_event event s = elim (lookup event.conn_id s.connections) [
    | none ↦ s
    | some c ↦
        close_unless
          (if event.finish_current_request
            then finish_current_request_and_submit_next event.conn_id s
            else submit_next_queued_request_if_idle event.conn_id s)
          (fd c)
  ]

  unfoldable pub run_post_delivery_events : List PostDeliveryEvent → TcpServer H → TcpServer H
  run_post_delivery_events [] s = s
  run_post_delivery_events (event ∷ events) s =
      run_post_delivery_events events (run_post_delivery_event event s)

  -- Each of the three queues is swapped out before it is worked off.
  unfoldable pub on_worker_result_readable : TcpServer H → TcpServer H
  unfolding run_remote_pushes run_response_tasks run_post_delivery_events
  on_worker_result_readable s =
      let s1 = run_remote_pushes s.remote_push_tasks (record s { remote_push_tasks = [] }) in
      let s2 = run_response_tasks s1.completed_tasks (record s1 { completed_tasks = [] }) in
      run_post_delivery_events s2.post_delivery_events (record s2 { post_delivery_events = [] })
