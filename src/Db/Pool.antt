-- ===== src/Db/Pool.antt =====
-- The state of the database pool (include/db/db_pool.h). A connection is an object behind a
-- `unique_ptr`, so it is told by a number of its own; times are nanoseconds of the steady clock. A
-- `size_t` is a natural number with its wrap-around written out.
use linux_server.Base.{ℕ, ◌+◌, ◌-◌, ◌%◌, ◌^◌, Bool, false, List, [], Option, Bytes, codes}
use linux_server.Model.Settings.{DbConfig, DbPoolConfig}
pub mod Connecting
pub mod Borrowing
pub mod Running
pub mod Calls
pub mod Counting
pub mod Totals
pub mod Owning
pub mod Owners
pub mod Stopping
pub mod Retrying
mod Tests

pub data DbPoolError : Type 0 where
  none : DbPoolError
  invalid_config : DbPoolError
  not_initialized : DbPoolError
  stopping : DbPoolError
  connect_failed : DbPoolError
  borrow_timeout : DbPoolError
  health_check_failed : DbPoolError

pub record CreateConnectionResult : Type 0 where
  pub connection : Option ℕ
  pub error : DbPoolError
  pub mysql_error_code : ℕ
  pub message : Bytes

pub record DbPoolInitResult : Type 0 where
  pub success : Bool
  pub error : DbPoolError
  pub mysql_error_code : ℕ
  pub message : Bytes

pub record IdleConnection : Type 0 where
  pub conn : ℕ
  pub create_time : ℕ
  pub last_return_time : ℕ

-- Without `current_idle` and `current_total`, which `getStats` takes from the fields of the pool.
pub record Stats : Type 0 where
  pub waiting_threads : ℕ
  pub total_created : ℕ
  pub total_ping_failed : ℕ
  pub total_invalidated : ℕ
  pub total_expired : ℕ
  pub total_timeouts : ℕ

pub record DbPool : Type 0 where
  pub config : DbConfig
  pub pool_config : DbPoolConfig
  pub idle_connections : List IdleConnection
  pub total_connections : ℕ
  pub stopping : Bool
  pub initialized : Bool
  pub stats : Stats

unfoldable pub db_pool : DbConfig → DbPoolConfig → DbPool
db_pool config pool_config = record {
  config = config;
  pool_config = pool_config;
  idle_connections = [];
  total_connections = 0;
  stopping = false;
  initialized = false;
  stats = record {
    waiting_threads = 0;
    total_created = 0;
    total_ping_failed = 0;
    total_invalidated = 0;
    total_expired = 0;
    total_timeouts = 0;
  };
}

-- `++n` and `--n` on a `size_t`
unfoldable pub increment : ℕ → ℕ
increment n = (n + 1) % 2 ^ 64

unfoldable pub decrement : ℕ → ℕ
decrement n = (n + (2 ^ 64 - 1)) % 2 ^ 64

-- Where a call of `borrow` stands, or the `PooledConnection` that it handed out: at the head of
-- the loop and without the lock, looking at an idle connection outside of the lock, connecting
-- outside of the lock, in the wait, in the hands of the caller, refused, or given back. The flag is
-- `encountered_health_check`.
pub data BorrowCall : Type 0 where
  entering : Bool → BorrowCall
  checking : IdleConnection → Bool → BorrowCall
  connecting : Bool → BorrowCall
  waiting : Bool → BorrowCall
  holding : ℕ → ℕ → Bool → BorrowCall
  refused : DbPoolError → ℕ → Bytes → BorrowCall
  returned : BorrowCall

abbrev pub stop_refusal : BorrowCall
stop_refusal = refused DbPoolError.stopping 0 (codes "DbPool is stopping")

abbrev pub init_refusal : BorrowCall
init_refusal = refused DbPoolError.not_initialized 0 (codes "DbPool is not initialized")
