-- ===== src/Net/Server.antt =====
-- `TcpServer` (src/TcpServer.cc, include/net/TcpServer.h): its state and the tables of connections.
-- A `ConnectionContext` is a shared object that the tables and the tasks refer to; `connections`
-- holds the objects, and every other reference is the number of the connection. A weak pointer can
-- be locked as long as its connection is in the table. What a system call or the creation of a task
-- answers is taken from a list of results, one for each call; at its end they succeed.
pub mod Workers
pub mod Delivery
pub mod Sockets
pub mod Timeouts
pub mod Remote
pub mod Events
pub mod Balance
pub mod Tracking
mod Tests
use linux_server.Base.{
  ℕ, ◌+◌, ◌%◌, ◌^◌, Bool, true, false, List, [], ◌∷◌, ◌++◌, Option, none, some, Bytes, is_empty, ℤ,
  Map, lookup, insert, erase, int_eq, nat_eq, if◌then◌else◌,
}
use linux_server.Session.Manager.{ConnectionSession, contains, remove, or_empty}
use linux_server.Model.Records.{RemotePushEvent, RemoteDeliveryOutcome}
use linux_server.Net.Handler.{SessionAction, OutboundMessage, IMessageHandler}
use linux_server.Net.Context.{
  ConnectionContext, TcpConnection, new, set_authenticated_user_id, clear_authenticated_user_id,
}

pub record TcpServerTimeoutOptions : Type 0 where
  pub idle_timeout_ms : ℕ
  pub heartbeat_timeout_ms : ℕ

pub record RequestTask : Type 0 where
  pub conn_id : ℕ
  pub peer_ip : Bytes
  pub request : Bytes

pub record ResponseTask : Type 0 where
  pub conn_id : ℕ
  pub response : Bytes
  pub sequence : ℕ
  pub close_after : Bool
  pub session_action : SessionAction
  pub pending_session : ConnectionSession
  pub pushes : List OutboundMessage
  pub delivered_message_ids : List Bytes
  pub delivered_user_id : ℤ

pub record PostDeliveryEvent : Type 0 where
  pub conn_id : ℕ
  pub finish_current_request : Bool

-- A task shares its state with the caller that waits for it: `call` is the number of the caller.
pub record RemotePushTask : Type 0 where
  pub event : RemotePushEvent
  pub call : ℕ

-- `state`: 0 pending, 1 claimed by the I/O thread, 2 given up by the caller or by `stop`.
pub record RemoteCall : Type 0 where
  pub state : ℕ
  pub completion : Option RemoteDeliveryOutcome

-- What the closures in the queue of the worker pool do.
pub data Job : Type 0 where
  request : RequestTask → Job
  mark_and_finish mark_and_release : ℤ → List Bytes → ℕ → Job
  clean_up : ℕ → Job

pub record TcpServer (H : Type 0) : Type 0 where
  pub handler_state : H
  pub timeout_options : TcpServerTimeoutOptions
  pub stopping : Bool
  pub event_fd_open : Bool
  pub next_conn_id : ℕ
  pub connections : Map ℕ ConnectionContext
  pub fd_to_context : Map ℤ ℕ
  pub writable_interest : Map ℤ Bool
  pub authenticated_connections : Map ℤ (List ℕ)
  pub timeout_scan_queue : List ℕ
  pub jobs : List Job
  pub completed_tasks : List ResponseTask
  pub next_response_task_id : ℕ
  pub post_delivery_events : List PostDeliveryEvent
  pub remote_push_tasks : List RemotePushTask
  pub remote_calls : Map ℕ RemoteCall
  pub epoll_results : List Bool
  pub submit_results : List Bool

abbrev pub next_result : List Bool → Bool
next_result [] = true
next_result (b ∷ bs) = b

abbrev pub later_results : List Bool → List Bool
later_results [] = []
later_results (b ∷ bs) = bs

abbrev pub fd : ConnectionContext → ℤ
fd c = c.connection.conn_fd

-- Takes a connection off the list of its user; a user with no connection left has no entry.
unfoldable pub drop_authenticated : ℤ → ℕ → Map ℤ (List ℕ) → Map ℤ (List ℕ)
drop_authenticated user_id id users = elim (lookup user_id users) [
  | none ↦ users
  | some connections ↦
      if is_empty (remove id connections)
      then erase user_id users
      else insert user_id (remove id connections) users
]

abbrev add_connection : ℕ → List ℕ → List ℕ
add_connection id connections =
    if contains id connections then connections else connections ++ id ∷ []

module _ {H : Type 0} where
  unfoldable pub set_context : ℕ → ConnectionContext → TcpServer H → TcpServer H
  set_context id c s = record s { connections = insert id c s.connections }

  -- A call of a method on the object of a connection.
  unfoldable pub modify : ℕ → (ConnectionContext → ConnectionContext) → TcpServer H → TcpServer H
  unfolding set_context
  modify id f s = elim (lookup id s.connections) [ none ↦ s | some c ↦ set_context id (f c) s ]

  -- worker_pool_.submit; `false` is an exception.
  unfoldable pub submit : Job → TcpServer H → Bool × TcpServer H
  submit job s = (
    next_result s.submit_results,
    record s {
      submit_results = later_results s.submit_results;
      jobs = if next_result s.submit_results then s.jobs ++ job ∷ [] else s.jobs;
    },
  )

  -- epoll_ctl(EPOLL_CTL_MOD), with EPOLLOUT and without
  abbrev set_interest : ℤ → Bool → TcpServer H → Bool × TcpServer H
  set_interest conn_fd on s = (
    next_result s.epoll_results,
    record s {
      epoll_results = later_results s.epoll_results;
      writable_interest =
          if next_result s.epoll_results
          then insert conn_fd on s.writable_interest
          else s.writable_interest;
    },
  )

  unfoldable pub enable_writable_event : ℤ → TcpServer H → Bool × TcpServer H
  enable_writable_event conn_fd s = set_interest conn_fd true s

  unfoldable pub disable_writable_event : ℤ → TcpServer H → Bool × TcpServer H
  disable_writable_event conn_fd s = set_interest conn_fd false s

  -- The connection counter is a `uint64_t`.
  unfoldable pub register_connection : ℤ → Bytes → ℕ → ℕ → TcpServer H → TcpServer H
  register_connection conn_fd peer_ip peer_port now s =
      let id = s.next_conn_id in
      let connection : TcpConnection = record {
        conn_fd = conn_fd;
        peer_ip = peer_ip;
        peer_port = peer_port;
      } in
      record s {
        next_conn_id = (id + 1) % 2 ^ 64;
        connections = insert id (new connection id now) s.connections;
        fd_to_context = insert conn_fd id s.fd_to_context;
        writable_interest = insert conn_fd false s.writable_interest;
        timeout_scan_queue = s.timeout_scan_queue ++ id ∷ [];
      }

  -- The object is dropped, and with it the state `closing` that it is given.
  unfoldable pub unregister_connection : ℕ → TcpServer H → Bool × TcpServer H
  unfolding drop_authenticated
  unregister_connection id s = elim (lookup id s.connections) [
    | none ↦ (false, s)
    | some c ↦ (
      true,
      record s {
        connections = erase id s.connections;
        fd_to_context = erase (fd c) s.fd_to_context;
        authenticated_connections =
            drop_authenticated c.meta.authenticated_user_id id s.authenticated_connections;
      },
    )
  ]

  unfoldable pub unbind_authenticated_connection : ℕ → TcpServer H → TcpServer H
  unfolding drop_authenticated set_context
  unbind_authenticated_connection id s = elim (lookup id s.connections) [
    | none ↦ s
    | some c ↦ set_context id (clear_authenticated_user_id c) (record s {
      authenticated_connections =
          drop_authenticated c.meta.authenticated_user_id id s.authenticated_connections;
    })
  ]

  unfoldable pub bind_authenticated_connection : ℕ → ℤ → TcpServer H → TcpServer H
  unfolding unbind_authenticated_connection modify
  bind_authenticated_connection id user_id s =
      let s' = unbind_authenticated_connection id s in
      modify id (λ c. set_authenticated_user_id c user_id)
        (record s' {
          authenticated_connections =
              insert user_id
                (add_connection id (or_empty (lookup user_id s'.authenticated_connections)))
                s'.authenticated_connections;
        })

  module _ (handler : IMessageHandler H) where
    -- The cleaning up is submitted to the pool, or done at once where that fails.
    unfoldable pub dispatch_connection_closed : ℕ → TcpServer H → TcpServer H
    unfolding submit
    dispatch_connection_closed id s =
        let (submitted, s') = submit (clean_up id) s in
        if submitted
        then s'
        else record s' { handler_state = handler.on_connection_closed id s'.handler_state }

    unfoldable pub close_client_fd : ℤ → TcpServer H → TcpServer H
    unfolding unregister_connection dispatch_connection_closed
    close_client_fd conn_fd s = elim (lookup conn_fd s.fd_to_context) [
      | none ↦ s
      | some id ↦
          let (removed, s') = unregister_connection id s in
          if removed then dispatch_connection_closed id s' else s'
    ]
