-- ===== src/Db/Pool/Borrowing.antt =====
-- Borrowing, giving back and stopping (src/db/db_pool.cc), cut where the code gives up the lock.
use linux_server.Base.{
  ℕ, ◌+◌, ◌-◌, ◌*◌, ◌%◌, ◌^◌, Bool, true, not, ◌&&◌, ◌||◌, Option, none, some, List, [], ◌∷◌, ◌++◌,
  codes, ltb, if◌then◌else◌, length, is_empty,
}
use linux_server.Db.Pool.{
  DbPool, Stats, IdleConnection, DbPoolError, CreateConnectionResult, BorrowCall, entering,
  checking, connecting, waiting, holding, refused, stop_refusal, init_refusal, increment, decrement,
}

unfoldable pub is_expired : DbPool → IdleConnection → ℕ → Bool
is_expired p idle now =
    ltb (p.pool_config.idle_timeout_ms * 1000000) (now - idle.last_return_time)
    || ltb (p.pool_config.max_lifetime_ms * 1000000) (now - idle.create_time)

unfoldable pub change_stats : (Stats → Stats) → DbPool → DbPool
change_stats f p = record p { stats = f p.stats }

-- `total_connections_--`
unfoldable pub release_slot : DbPool → DbPool
release_slot p = record p { total_connections = decrement p.total_connections }

-- The second, third and fourth case of the loop.
unfoldable pub take_idle : Bool → DbPool → List IdleConnection → DbPool × BorrowCall
take_idle unhealthy p (idle ∷ rest) =
    (record p { idle_connections = rest }, checking idle unhealthy)
take_idle unhealthy p [] =
    if ltb p.total_connections p.pool_config.max_connections
    then (record p { total_connections = increment p.total_connections }, connecting unhealthy)
    else (
      change_stats (λ st. record st { waiting_threads = increment st.waiting_threads }) p,
      waiting unhealthy,
    )

-- The head of the loop, with the lock.
unfoldable pub enter : Bool → DbPool → DbPool × BorrowCall
enter unhealthy p =
    if not p.initialized
    then (p, init_refusal)
    else if p.stopping
    then (p, stop_refusal)
    else take_idle unhealthy p p.idle_connections

-- An idle connection was looked at outside of the lock.
unfoldable pub check_idle : IdleConnection → Bool → ℕ → Bool → DbPool → DbPool × BorrowCall
check_idle idle unhealthy now healthy p =
    if is_expired p idle now
    then enter unhealthy (
        release_slot
          (change_stats (λ st. record st { total_expired = increment st.total_expired }) p))
    else if p.stopping
    then (release_slot p, stop_refusal)
    else if healthy
    then (p, holding idle.conn idle.create_time true)
    else (
      release_slot
          (change_stats (λ st. record st { total_ping_failed = increment st.total_ping_failed }) p),
      entering true,
    )

abbrev pub final_error : Bool → DbPoolError → DbPoolError
final_error unhealthy error = if unhealthy then DbPoolError.health_check_failed else error

abbrev pub accept_connection :
    Bool → CreateConnectionResult → ℕ → Option ℕ → DbPool → DbPool × BorrowCall
accept_connection unhealthy res now (some conn) p = (
  change_stats (λ st. record st { total_created = increment st.total_created }) p,
  holding conn now true,
)
accept_connection unhealthy res now none p =
    (release_slot p, refused (final_error unhealthy res.error) res.mysql_error_code res.message)

-- `createConnection` has come back.
unfoldable pub finish_connecting : Bool → CreateConnectionResult → ℕ → DbPool → DbPool × BorrowCall
finish_connecting unhealthy res now p =
    if p.stopping
    then (release_slot p, stop_refusal)
    else accept_connection unhealthy res now res.connection p

-- What the wait waits for.
abbrev pub ready : DbPool → Bool
ready p =
    p.stopping
    || (not (is_empty p.idle_connections) || ltb p.total_connections p.pool_config.max_connections)

-- The wait is over, with what it returns.
unfoldable pub end_wait : Bool → Bool → DbPool → DbPool × BorrowCall
end_wait unhealthy success p =
    if p.stopping
    then (p, stop_refusal)
    else if not success && is_empty p.idle_connections
    then (
      change_stats (λ st. record st { total_timeouts = increment st.total_timeouts }) p,
      refused (final_error unhealthy DbPoolError.borrow_timeout) 0
          (codes "borrow connection timeout"),
    )
    else enter unhealthy p

-- The waiting thread looks again, woken, by itself, or since its time is over.
unfoldable pub wake : Bool → Bool → DbPool → DbPool × BorrowCall
wake unhealthy timed_out p =
    if not (ready p || timed_out)
    then (p, waiting unhealthy)
    else end_wait unhealthy (ready p)
        (change_stats (λ st. record st { waiting_threads = decrement st.waiting_threads }) p)

unfoldable pub count_invalidated : Bool → DbPool → DbPool
count_invalidated healthy p =
    if not p.stopping && not healthy
    then change_stats (λ st. record st { total_invalidated = increment st.total_invalidated }) p
    else p

-- The connection's answer to the ping is asked for only if the user has not marked it.
unfoldable pub return_connection : ℕ → ℕ → Bool → Bool → ℕ → DbPool → DbPool
return_connection conn create_time reusable ping now p =
    if p.stopping || not (reusable && ping)
    then release_slot (count_invalidated (reusable && ping) p)
    else record p {
      idle_connections =
          p.idle_connections
          ++ (record { conn = conn; create_time = create_time; last_return_time = now } ∷ []);
    }

unfoldable pub stop : DbPool → DbPool
stop p = if p.stopping then p else record p {
  stopping = true;
  idle_connections = [];
  total_connections =
      (p.total_connections + (2 ^ 64 - length p.idle_connections % 2 ^ 64)) % 2 ^ 64;
}
