-- ===== src/Net/Server/Events.antt =====
-- The event loop (src/TcpServer.cc, `acceptLoop`, `start`) as a function over the events that the
-- system, the workers and the callers of other threads bring about, in any order.
use linux_server.Base.{
  ℕ, ◌+◌, ◌<◌, ◌^◌, ◌≡◌, Bool, true, false, not, ◌&&◌, List, [], ◌∷◌, none, ℤ, Bytes, Map, lookup,
  int_eq, nat_eq, if◌then◌else◌,
}
use linux_server.Model.Records.{RemotePushEvent}
use linux_server.Net.Handler.{IMessageHandler}
use linux_server.Net.Server.{
  TcpServer, TcpServerTimeoutOptions, Job, register_connection, close_client_fd,
}
use linux_server.Net.Server.Workers.{work, run_job}
use linux_server.Net.Server.Delivery.{on_worker_result_readable}
use linux_server.Net.Server.Sockets.{
  RecvResult, SendResult, on_readable, on_writable, has_pending_send_of,
}
use linux_server.Net.Server.Timeouts.{scan_connection_timeouts}
use linux_server.Net.Server.Remote.{deliver_remote_push, await_remote_push, stop}

-- EPOLLERR, EPOLLIN, EPOLLOUT, and EPOLLHUP or EPOLLRDHUP
pub record EventMask : Type 0 where
  pub error : Bool
  pub readable : Bool
  pub writable : Bool
  pub hung_up : Bool

pub data Event : Type 0 where
  accepted : ℤ → Bytes → ℕ → ℕ → Event
  accept_failed : Event
  client : ℤ → EventMask → List RecvResult → List SendResult → Event
  worker_ready : Event
  timer : ℕ → Event
  worked : ℕ → Event
  posted : ℕ → RemotePushEvent → Bool → Event
  awaited : ℕ → Bool → Event
  stops : Event

-- What epoll_ctl and the pool's submit are going to answer, call by call, stands in the last two
-- arguments; calls beyond them succeed.
unfoldable pub start_server :
    (H : Type 0) → H → TcpServerTimeoutOptions → List Bool → List Bool → TcpServer H
start_server H h options epoll_results submit_results = record {
  handler_state = h;
  timeout_options = options;
  stopping = false;
  event_fd_open = true;
  next_conn_id = 1;
  connections = [];
  fd_to_context = [];
  writable_interest = [];
  authenticated_connections = [];
  timeout_scan_queue = [];
  jobs = [];
  completed_tasks = [];
  next_response_task_id = 1;
  post_delivery_events = [];
  remote_push_tasks = [];
  remote_calls = [];
  epoll_results = epoll_results;
  submit_results = submit_results;
}

abbrev descriptors : Map ℤ ℕ → List ℤ
descriptors [] = []
descriptors ((conn_fd, id) ∷ rest) = conn_fd ∷ descriptors rest

abbrev if_do : {H : Type 0} → Bool → (TcpServer H → TcpServer H) → TcpServer H → TcpServer H
if_do b f s = if b then f s else s

module _ {H : Type 0} (handler : IMessageHandler H) where
  -- An event of a client's socket: errors first, then reading and writing, and the end of a peer
  -- only when nothing is left to send.
  unfoldable pub on_client_event :
      ℤ → EventMask → List RecvResult → List SendResult → TcpServer H → TcpServer H
  unfolding on_readable on_writable has_pending_send_of close_client_fd
  on_client_event conn_fd mask received sent s =
      let s1 = if_do mask.readable (on_readable handler conn_fd received) s in
      let s2 = if_do mask.writable (on_writable handler conn_fd sent) s1 in
      if mask.error
      then close_client_fd handler conn_fd s
      else if_do (mask.hung_up && not (has_pending_send_of conn_fd s2))
          (close_client_fd handler conn_fd) s2

  unfoldable pub step : TcpServer H → Event → TcpServer H
  unfolding register_connection stop on_client_event on_worker_result_readable
      scan_connection_timeouts work deliver_remote_push await_remote_push
  step s (accepted conn_fd ip port now) = register_connection conn_fd ip port now s
  step s accept_failed = stop s
  step s (client conn_fd mask received sent) = on_client_event conn_fd mask received sent s
  step s worker_ready = on_worker_result_readable handler s
  step s (timer now) = scan_connection_timeouts handler now s
  step s (worked n) = work handler n [] s.jobs s
  step s (posted call event notified) = (deliver_remote_push call event notified s).1
  step s (awaited call time_over) = (await_remote_push call time_over s).1
  step s stops = stop s

  unfoldable pub run : TcpServer H → List Event → TcpServer H
  unfolding step
  run s [] = s
  run s (event ∷ events) = run (step s event) events

  -- What the system and the callers keep to: a new socket has a descriptor that no open one has,
  -- the connection counter does not come to its end, and a call has a number of its own.
  abbrev pub Possible : TcpServer H → Event → Type 0
  Possible s (accepted conn_fd ip port now) =
      (lookup conn_fd s.fd_to_context ≡ none) × (s.next_conn_id + 1 < 2 ^ 64)
  Possible s (posted call event notified) = lookup call s.remote_calls ≡ none
  Possible s accept_failed = Unit
  Possible s (client conn_fd mask received sent) = Unit
  Possible s worker_ready = Unit
  Possible s (timer now) = Unit
  Possible s (worked n) = Unit
  Possible s (awaited call time_over) = Unit
  Possible s stops = Unit

  abbrev pub AllPossible : TcpServer H → List Event → Type 0
  AllPossible s [] = Unit
  AllPossible s (event ∷ events) = Possible s event × AllPossible (step s event) events

  unfoldable pub close_all : List ℤ → TcpServer H → TcpServer H
  close_all [] s = s
  close_all (conn_fd ∷ rest) s = close_all rest (close_client_fd handler conn_fd s)

  -- The workers take what is left in the queue and end.
  unfoldable pub run_jobs : List Job → TcpServer H → TcpServer H
  unfolding run_job
  run_jobs [] s = s
  run_jobs (job ∷ jobs) s = run_jobs jobs (run_job handler job s)

  -- The end of `start`: its cleanup_resources, the release of the descriptors left out.
  unfoldable pub clean_up_resources : TcpServer H → TcpServer H
  unfolding stop close_all run_jobs
  clean_up_resources s =
      let s1 = stop s in
      let s2 = close_all (descriptors s1.fd_to_context) s1 in
      let s3 = run_jobs s2.jobs (record s2 { jobs = [] }) in
      record s3 { completed_tasks = []; event_fd_open = false }
