-- ===== src/Db/Pool/Tests.antt =====
-- The pool's theorems at a pool of one connection that two threads want (src/db/db_pool.cc).
use linux_server.Base.{
  ℕ, zero, suc, ◌+◌, ◌*◌, ◌≤◌, ◌≡◌, refl, true, false, List, [], ◌∷◌, some, codes, arith, length,
}
use linux_server.Model.Settings.{DbConfig, DbPoolConfig}
use linux_server.Db.Pool.{db_pool, increment, waiting, holding, stop_refusal}
use linux_server.Db.Pool.Connecting.{
  Attempt, failed, connected, create_loop, create_connection, opened,
}
use linux_server.Db.Pool.Running.{
  Run, Event, called, runs, stops, Answer, get_elem?, move, set, proceed, init, config_error,
  create_initial, adopt, step, run, started,
}
use linux_server.Db.Pool.Borrowing.{stop, enter, take_idle, check_idle, is_expired, change_stats}
use linux_server.Db.Pool.Calls.{sum}
use linux_server.Db.Pool.Totals.{slots, run-total}
use linux_server.Db.Pool.Owners.{owners, run-owners}
use linux_server.Db.Pool.Stopping.{step-stop_refusal}
use linux_server.Db.Pool.Retrying.{Connects, create_connection_lem}

abbrev config : DbConfig
config = record {
  host = codes "db";
  port = 3306;
  username = codes "chat";
  password = [];
  database = codes "chat";
  connect_timeout_seconds = 5;
  read_timeout_seconds = 5;
  write_timeout_seconds = 5;
  charset = codes "utf8mb4";
}

abbrev one : DbPoolConfig
one = record {
  min_connections = 1;
  max_connections = 1;
  borrow_timeout_ms = 1000;
  connect_retry_count = 1;
  connect_retry_delay_ms = 100;
  idle_timeout_ms = 300000;
  max_lifetime_ms = 1800000;
}

-- The first attempt fails, the second connects.
abbrev second_time : ℕ → Attempt
second_time zero = failed 2002 (codes "refused")
second_time (suc n) = connected

abbrev answers : ℕ → ℕ → Attempt
answers i = second_time

abbrev at_start : ℕ → ℕ
at_start i = 1

abbrev well : Answer
well = record { now = 2; healthy = true; wait_over = false; attempts = second_time }

-- Two calls: the first gets the connection, the second waits.
abbrev history : List Event
history = called ∷ called ∷ runs 0 well ∷ runs 0 well ∷ runs 1 well ∷ []

abbrev begun : Run
begun = started config one answers at_start

history_waits : (run begun history).calls ≡ holding 0 1 true ∷ waiting false ∷ []
unfolding run step started move get_elem? set proceed enter init config_error db_pool create_initial
    create_connection create_loop adopt take_idle check_idle is_expired increment
history_waits = refl

run-total_example :
    ((run begun history).pool.total_connections
      ≡ length (run begun history).pool.idle_connections + sum slots (run begun history).calls)
    × ((run begun history).pool.total_connections ≤ 1)
    × ((run begun history).pool.stopping ≡ true
        → (run begun history).pool.total_connections ≡ sum slots (run begun history).calls)
run-total_example = run-total config one answers at_start (omega arith) history

run-owners_example : owners 0 (run begun history) ≤ 1
run-owners_example = run-owners 0 config one answers at_start history

-- The pool is stopped while the second call waits.
abbrev stopped : Run
stopped = run begun (called ∷ called ∷ runs 0 well ∷ runs 0 well ∷ runs 1 well ∷ stops ∷ [])

stopped_waits :
    (stopped.pool.initialized ≡ true)
    × (stopped.pool.stopping ≡ true)
    × (get_elem? stopped.calls 1 ≡ some (waiting false))
unfolding run step stop started move get_elem? set proceed enter init config_error db_pool
    create_initial create_connection create_loop adopt take_idle check_idle is_expired increment
    change_stats
stopped_waits = (refl, refl, refl)

step-stop_refusal_example : get_elem? (step stopped (runs 1 well)).calls 1 ≡ some stop_refusal
step-stop_refusal_example =
    step-stop_refusal stopped 1 well (waiting false) stopped_waits.0 stopped_waits.1 stopped_waits.2
      tt

create_connection_lem_example :
    (((create_connection one 5 second_time).0.connection ≡ some 5)
      → (k : ℕ) × Connects second_time 2 0 k)
    × ((k : ℕ) → Connects second_time 2 0 k → (create_connection one 5 second_time).0 ≡ opened 5)
    × ((create_connection one 5 second_time).1 ≤ 1 * 100)
create_connection_lem_example = create_connection_lem one 5 second_time (omega arith)
