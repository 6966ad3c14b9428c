-- ===== src/Db/Pool/Running.antt =====
-- Starting the pool (src/db/db_pool.cc, `init`), and its threads: a history is a list of events in
-- any order, each a piece of a method between two points where the lock is taken or given up.
use linux_server.Base.{
  ℕ, zero, suc, Bool, true, false, ◌&&◌, ◌||◌, Option, none, some, List, [], ◌∷◌, ◌++◌, codes,
  Bytes, ltb, nat_beq, is_empty, if◌then◌else◌, ◌⊎◌, inl, inr,
}
use linux_server.Model.Settings.{DbConfig, DbPoolConfig}
use linux_server.Db.Pool.{
  DbPool, IdleConnection, DbPoolError, DbPoolInitResult, CreateConnectionResult, BorrowCall,
  entering, checking, connecting, waiting, holding, refused, returned, increment, db_pool,
}
use linux_server.Db.Pool.Connecting.{Attempt, create_connection}
use linux_server.Db.Pool.Borrowing.{
  enter, check_idle, finish_connecting, wake, return_connection, stop,
}

-- The connections that `init` opens: the answers to the attempts for each and the time.
module _ (pool_config : DbPoolConfig) (answers : ℕ → ℕ → Attempt) (now : ℕ → ℕ) where
  abbrev pub idle_at : ℕ → ℕ → IdleConnection
  idle_at conn i = record { conn = conn; create_time = now i; last_return_time = now i }

  unfoldable pub create_initial :
      ℕ → ℕ → List IdleConnection → CreateConnectionResult ⊎ List IdleConnection
  create_initial zero i temp = inr temp
  create_initial (suc n) i temp =
      let res = (create_connection pool_config i (answers i)).0 in
      elim res.connection [
        | none ↦ inl res
        | some conn ↦ create_initial n (suc i) (temp ++ (idle_at conn i ∷ []))
      ]

-- The connections become those of the pool, one by one.
unfoldable pub adopt : List IdleConnection → DbPool → DbPool
adopt [] p = p
adopt (idle ∷ rest) p = adopt rest (record p {
  idle_connections = p.idle_connections ++ (idle ∷ []);
  total_connections = increment p.total_connections;
  stats = record p.stats { total_created = increment p.stats.total_created };
})

abbrev bad_config : Bytes → DbPoolInitResult
bad_config message = record {
  success = false;
  error = DbPoolError.invalid_config;
  mysql_error_code = 0;
  message = message;
}

-- The first fault of the configuration.
unfoldable pub config_error : DbConfig → DbPoolConfig → Option Bytes
config_error config pool_config =
    if is_empty config.host
      || (nat_beq config.port 0 || (is_empty config.username || is_empty config.database))
    then some (codes "host, port, username, or database is empty")
    else if ltb pool_config.max_connections pool_config.min_connections
    then some (codes "min_connections > max_connections")
    else if nat_beq pool_config.max_connections 0
    then some (codes "max_connections <= 0")
    else if nat_beq pool_config.borrow_timeout_ms 0
    then some (codes "borrow_timeout_ms == 0")
    else if ltb 0 pool_config.connect_retry_count && nat_beq pool_config.connect_retry_delay_ms 0
    then some (codes "connect_retry_delay_ms == 0")
    else none

module _ (answers : ℕ → ℕ → Attempt) (now : ℕ → ℕ) where
  abbrev pub init_with :
      CreateConnectionResult ⊎ List IdleConnection → DbPool → DbPoolInitResult × DbPool
  init_with (inl res) p = (
    record {
      success = false;
      error = res.error;
      mysql_error_code = res.mysql_error_code;
      message = codes "failed to create initial connection: " ++ res.message;
    },
    p,
  )
  init_with (inr temp) p = (
    record {
      success = true;
      error = DbPoolError.none;
      mysql_error_code = 0;
      message = codes "init success";
    },
    record (adopt temp p) { initialized = true },
  )

  unfoldable pub init : DbPool → DbPoolInitResult × DbPool
  init p = elim (config_error p.config p.pool_config) [
    | some message ↦ (bad_config message, p)
    | none ↦
        init_with (create_initial p.pool_config answers now p.pool_config.min_connections 0 []) p
  ]

-- The pool, the calls of `borrow` in the order in which they were made, and the number of the next
-- connection.
pub record Run : Type 0 where
  pub pool : DbPool
  pub calls : List BorrowCall
  pub next_connection : ℕ

-- What the clock, the ping, the wait and the attempts to connect answer to a thread.
pub record Answer : Type 0 where
  pub now : ℕ
  pub healthy : Bool
  pub wait_over : Bool
  pub attempts : ℕ → Attempt

-- `borrow` is called; the thread of a call goes on; the caller marks its connection as bad, or
-- gives it back; `stop` is called.
pub data Event : Type 0 where
  called : Event
  runs : ℕ → Answer → Event
  marks_bad : ℕ → Event
  releases : ℕ → Answer → Event
  stops : Event

-- The next piece of a call of `borrow`.
unfoldable pub proceed : Answer → ℕ → BorrowCall → DbPool → DbPool × BorrowCall
proceed a fresh (entering unhealthy) p = enter unhealthy p
proceed a fresh (checking idle unhealthy) p = check_idle idle unhealthy a.now a.healthy p
proceed a fresh (connecting unhealthy) p =
    finish_connecting unhealthy (create_connection p.pool_config fresh a.attempts).0 a.now p
proceed a fresh (waiting unhealthy) p = wake unhealthy a.wait_over p
proceed a fresh (holding conn create_time reusable) p = (p, holding conn create_time reusable)
proceed a fresh (refused error code message) p = (p, refused error code message)
proceed a fresh returned p = (p, returned)

unfoldable pub mark_bad : BorrowCall → DbPool → DbPool × BorrowCall
mark_bad (holding conn create_time reusable) p = (p, holding conn create_time false)
mark_bad call p = (p, call)

-- The destructor of a `PooledConnection`.
unfoldable pub release : Answer → BorrowCall → DbPool → DbPool × BorrowCall
release a (holding conn create_time reusable) p =
    (return_connection conn create_time reusable a.healthy a.now p, returned)
release a call p = (p, call)

unfoldable pub get_elem? : List BorrowCall → ℕ → Option BorrowCall
get_elem? [] n = none
get_elem? (c ∷ rest) zero = some c
get_elem? (c ∷ rest) (suc n) = get_elem? rest n

unfoldable pub set : List BorrowCall → ℕ → BorrowCall → List BorrowCall
set [] n d = []
set (c ∷ rest) zero d = d ∷ rest
set (c ∷ rest) (suc n) d = c ∷ set rest n d

-- A piece of one call.
unfoldable pub move : (BorrowCall → DbPool → DbPool × BorrowCall) → ℕ → Run → Run
move f i r = elim (get_elem? r.calls i) [
  | none ↦ r
  | some c ↦ record r { pool = (f c r.pool).0; calls = set r.calls i (f c r.pool).1 }
]

unfoldable pub step : Run → Event → Run
step r called = record r { calls = r.calls ++ (entering false ∷ []) }
step r (runs i a) = record (move (proceed a r.next_connection) i r) {
  next_connection = suc r.next_connection;
}
step r (marks_bad i) = move mark_bad i r
step r (releases i a) = move (release a) i r
step r stops = record r { pool = stop r.pool }

unfoldable pub run : Run → List Event → Run
run r [] = r
run r (event ∷ events) = run (step r event) events

-- A pool after `init`, with no call yet.
unfoldable pub started : DbConfig → DbPoolConfig → (ℕ → ℕ → Attempt) → (ℕ → ℕ) → Run
started config pool_config answers now = record {
  pool = (init answers now (db_pool config pool_config)).1;
  calls = [];
  next_connection = pool_config.min_connections;
}
