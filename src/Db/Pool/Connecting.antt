-- ===== src/Db/Pool/Connecting.antt =====
-- Connecting with retries (src/db/db_pool.cc, `createConnection`). What the factory and the server
-- answer is data: the answer to each attempt.
use linux_server.Base.{
  ℕ, zero, suc, ◌+◌, ◌-◌, ◌%◌, ◌^◌, ◌&&◌, none, some, Bytes, [], codes, ltb, if◌then◌else◌,
}
use linux_server.Model.Settings.{DbPoolConfig}
use linux_server.Db.Pool.{CreateConnectionResult, DbPoolError}

-- The factory has no object, the object cannot connect, or it can.
pub data Attempt : Type 0 where
  no_object : Attempt
  failed : ℕ → Bytes → Attempt
  connected : Attempt

-- A default `CreateConnectionResult`.
abbrev pub no_result : CreateConnectionResult
no_result = record {
  connection = none;
  error = DbPoolError.none;
  mysql_error_code = 0;
  message = [];
}

abbrev pub no_factory : CreateConnectionResult
no_factory = record {
  connection = none;
  error = DbPoolError.connect_failed;
  mysql_error_code = 0;
  message = codes "connection factory returned null";
}

abbrev pub opened : ℕ → CreateConnectionResult
opened fresh = record {
  connection = some fresh;
  error = DbPoolError.none;
  mysql_error_code = 0;
  message = [];
}

abbrev pub not_opened : ℕ → Bytes → CreateConnectionResult
not_opened code message = record {
  connection = none;
  error = DbPoolError.connect_failed;
  mysql_error_code = code;
  message = message;
}

module _ (config : DbPoolConfig) where
  -- The number of attempts is a `uint32_t`.
  abbrev pub max_attempts : ℕ
  max_attempts = (config.connect_retry_count + 1) % 2 ^ 32

  -- The milliseconds slept before the next attempt.
  abbrev pub delay_after : ℕ → ℕ
  delay_after attempt =
      if ltb attempt (max_attempts - 1) && ltb 0 config.connect_retry_delay_ms
      then config.connect_retry_delay_ms
      else 0

module _ (config : DbPoolConfig) (fresh : ℕ) where
  -- What follows an attempt, given what the further ones would give after this result.
  abbrev pub attempted :
      (CreateConnectionResult → CreateConnectionResult × ℕ)
      → ℕ
      → Attempt
      → CreateConnectionResult × ℕ
  attempted further attempt no_object = (no_factory, 0)
  attempted further attempt connected = (opened fresh, 0)
  attempted further attempt (failed code message) =
      let (res, slept) = further (not_opened code message) in
      (res, delay_after config attempt + slept)

module _ (config : DbPoolConfig) (fresh : ℕ) (answer : ℕ → Attempt) where
  -- The rounds that are left, the number of the attempt and the result so far; the answer is the
  -- result and the milliseconds slept.
  unfoldable pub create_loop : ℕ → ℕ → CreateConnectionResult → CreateConnectionResult × ℕ
  create_loop zero attempt res = (res, 0)
  create_loop (suc rounds) attempt res =
      attempted config fresh (create_loop rounds (attempt + 1)) attempt (answer attempt)

  unfoldable pub create_connection : CreateConnectionResult × ℕ
  create_connection = create_loop (max_attempts config) 0 no_result
