-- ===== src/Net/Server/Remote.antt =====
-- Deliveries for another server process (src/TcpServer.cc, `deliverRemotePush`, `stop`). The caller
-- posts a task, waits, and may give up; whoever first changes the state of the task decides.
use linux_server.Base.{
  ℕ, Bool, true, false, not, ◌||◌, List, [], ◌∷◌, ◌++◌, Option, none, some, is_empty, le_zero,
  lookup, insert, nat_beq, nat_eq, if◌then◌else◌,
}
use linux_server.Model.Records.{RemotePushEvent, RemoteDeliveryOutcome, invalid_target, retry}
use linux_server.Net.Server.{TcpServer, RemotePushTask}

module _ {H : Type 0} where
  -- compare_exchange of the state of a call from 0 to 2, with what its completion becomes.
  unfoldable pub give_up : ℕ → Option RemoteDeliveryOutcome → TcpServer H → Bool × TcpServer H
  give_up call completion s = elim (lookup call s.remote_calls) [
    | none ↦ (false, s)
    | some c ↦
        if nat_beq c.state 0
        then (
          true,
          record s {
            remote_calls =
                insert call (record { state = 2; completion = completion }) s.remote_calls;
          },
        )
        else (false, s)
  ]

  -- deliverRemotePush up to the wait: `some` is an answer at once, `none` a wait. `notified` tells
  -- whether the write to the event descriptor worked or would have blocked. The number of the call
  -- is a new one.
  unfoldable pub deliver_remote_push :
      ℕ → RemotePushEvent → Bool → TcpServer H → Option RemoteDeliveryOutcome × TcpServer H
  unfolding give_up
  deliver_remote_push call event notified s =
      let posted = record s {
        remote_push_tasks = s.remote_push_tasks ++ record { event = event; call = call } ∷ [];
        remote_calls = insert call (record { state = 0; completion = none }) s.remote_calls;
      } in
      if s.stopping
        || nat_beq event.target_connection_id 0
        || le_zero event.to_user_id
        || is_empty event.payload
      then (some invalid_target, s)
      else if not s.event_fd_open
      then (some retry, s)
      else if notified
      then (none, posted)
      else let (cancelled, s') = give_up call none posted in
        if cancelled then (some retry, s') else (none, s')

  -- The end of the wait: what is there, or after the time is over the attempt to give up. `none` is
  -- the wait for a delivery that the I/O thread has claimed.
  unfoldable pub await_remote_push :
      ℕ → Bool → TcpServer H → Option RemoteDeliveryOutcome × TcpServer H
  unfolding give_up
  await_remote_push call time_over s =
      let (cancelled, s') = give_up call none s in
      elim (lookup call s.remote_calls) [
        | none ↦ (none, s)
        | some c ↦ elim c.completion [
          | some outcome ↦ (some outcome, s)
          | none ↦
              if time_over then (if cancelled then (some retry, s') else (none, s)) else (none, s)
        ]
      ]

  unfoldable pub cancel_all : List RemotePushTask → TcpServer H → TcpServer H
  unfolding give_up
  cancel_all [] s = s
  cancel_all (task ∷ tasks) s = cancel_all tasks (give_up task.call (some retry) s).1

  -- The event descriptor is written to, which only wakes the I/O thread.
  unfoldable pub stop : TcpServer H → TcpServer H
  unfolding cancel_all
  stop s =
      if s.stopping
      then s
      else cancel_all s.remote_push_tasks (record s { stopping = true; remote_push_tasks = [] })
