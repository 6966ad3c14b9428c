-- ===== src/Net/Server/Timeouts.antt =====
-- The scan for silent connections (src/TcpServer.cc, `scanConnectionTimeouts`): at most
-- `max_timeout_scan_batch` connections off the front of the queue, at one reading of the clock.
use linux_server.Base.{
  ℕ, zero, suc, ◌-◌, Bool, not, ◌&&◌, ◌||◌, List, [], ◌∷◌, ◌++◌, none, some, length, leb, le_zero,
  lookup, nat_eq, if◌then◌else◌,
}
use linux_server.Net.Handler.{IMessageHandler}
use linux_server.Net.Context.{ConnectionContext, should_defer_timeout}
use linux_server.Net.Server.{TcpServer, TcpServerTimeoutOptions, fd, close_client_fd}

-- kMaxTimeoutScanBatch
abbrev pub max_timeout_scan_batch : ℕ
max_timeout_scan_batch = 256

abbrev later : ℕ → ℕ → ℕ
later a b = if leb a b then b else a

abbrev earlier : ℕ → ℕ → ℕ
earlier a b = if leb a b then a else b

-- The clock is steady: no reading is earlier than those that were stored.
unfoldable pub timed_out : TcpServerTimeoutOptions → ℕ → ConnectionContext → Bool
timed_out options now c =
    not (should_defer_timeout c)
    && (leb options.idle_timeout_ms (now - later c.meta.last_recv_at c.meta.last_send_at)
        || (not (le_zero c.meta.authenticated_user_id)
            && leb options.heartbeat_timeout_ms (now - c.meta.last_active_at)))

abbrev pop_queue : {H : Type 0} → List ℕ → TcpServer H → TcpServer H
pop_queue queue s = record s { timeout_scan_queue = queue }

module _ {H : Type 0} (handler : IMessageHandler H) where
  -- A connection that is not closed goes to the end of the queue.
  unfoldable pub scan_one : ℕ → ℕ → TcpServer H → TcpServer H
  unfolding timed_out
  scan_one now id s = elim (lookup id s.connections) [
    | none ↦ s
    | some c ↦
        if timed_out s.timeout_options now c
        then close_client_fd handler (fd c) s
        else record s { timeout_scan_queue = s.timeout_scan_queue ++ id ∷ [] }
  ]

  unfoldable pub scan : ℕ → ℕ → List ℕ → TcpServer H → TcpServer H
  unfolding scan_one
  scan now zero queue s = s
  scan now (suc n) [] s = s
  scan now (suc n) (id ∷ queue) s =
      let s' = scan_one now id (pop_queue queue s) in scan now n s'.timeout_scan_queue s'

  unfoldable pub scan_connection_timeouts : ℕ → TcpServer H → TcpServer H
  unfolding scan
  scan_connection_timeouts now s =
      scan now (earlier max_timeout_scan_batch (length s.timeout_scan_queue)) s.timeout_scan_queue s
