-- ===== src/Config/Validating.antt =====
-- The validation of the configuration (src/config/config_loader.cc, `Validate`). A chain of early returns is a list of tests with their messages, of
-- which the first that holds answers.
use linux_server.Base.{
  ◌*◌, ◌/◌, ◌%◌, ◌^◌, Bool, false, not, ◌&&◌, ◌||◌, Option, none, some, List, [], ◌∷◌, ◌++◌, Bytes,
  pos, codes, nat_beq, ltb, leb, int_ltb, is_empty, if◌then◌else◌, ◌==◌, list_eq, nat_eq,
}
use linux_server.Model.Settings.{ServerConfig}
use linux_server.Config.Json.{max_size}

abbrev pub ends_with_colon : Bytes → Bool
ends_with_colon [] = false
ends_with_colon (c ∷ []) = nat_beq c b':'
ends_with_colon (c ∷ d ∷ rest) = ends_with_colon (d ∷ rest)

abbrev pub contains_colon : Bytes → Bool
contains_colon [] = false
contains_colon (c ∷ rest) = nat_beq c b':' || contains_colon rest

abbrev pub first_error : {E : Type 0} → List (Bool × E) → Option E
first_error [] = none
first_error ((test, error) ∷ rest) =
    let later = first_error rest in if test then some error else later

-- What `inet_pton` accepts is a parameter.
module _ (is_ipv4 is_ipv6 : Bytes → Bool) (config : ServerConfig) where
  abbrev pub server_tests : List (Bool × Bytes)
  server_tests =
      (
        not (is_ipv4 config.server.listen_ip) && not (is_ipv6 config.server.listen_ip),
        (codes "server.listen_ip is not a valid IP address: " ++ config.server.listen_ip),
      )
      ∷ (ltb config.server.listen_port 1, codes "server.listen_port must be in range 1..65535")
      ∷ (is_empty config.mysql.host, codes "mysql.host must not be empty")
      ∷ (is_empty config.mysql.username, codes "mysql.username must not be empty")
      ∷ (is_empty config.mysql.database, codes "mysql.database must not be empty")
      ∷ (ltb config.mysql.port 1, codes "mysql.port must be in range 1..65535")
      ∷ (
        nat_beq config.mysql.connect_timeout_seconds 0,
        codes "mysql.connect_timeout_seconds must be positive",
      )
      ∷ (
        nat_beq config.mysql.read_timeout_seconds 0,
        codes "mysql.read_timeout_seconds must be positive",
      )
      ∷ (
        nat_beq config.mysql.write_timeout_seconds 0,
        codes "mysql.write_timeout_seconds must be positive",
      )
      ∷ (
        nat_beq config.mysql_pool.max_connections 0,
        codes "mysql.pool.max_connections must be positive",
      )
      ∷ (
        ltb config.mysql_pool.max_connections config.mysql_pool.min_connections,
        codes "mysql.pool.min_connections must be <= mysql.pool.max_connections",
      )
      ∷ (
        nat_beq config.mysql_pool.borrow_timeout_ms 0,
        codes "mysql.pool.borrow_timeout_ms must be positive",
      )
      ∷ []

  abbrev pub redis_tests : List (Bool × Bytes)
  redis_tests =
      (config.redis.enabled && is_empty config.redis.host, codes "redis.host must not be empty")
      ∷ (ltb config.redis.port 1, codes "redis.port must be in range 1..65535")
      ∷ (nat_beq config.redis.pool_size 0, codes "redis.pool_size must be positive")
      ∷ (int_ltb config.redis.database (pos 0), codes "redis.database must be >= 0")
      ∷ (
        nat_beq config.redis.connect_timeout_ms 0,
        codes "redis.connect_timeout_ms must be positive",
      )
      ∷ (
        nat_beq config.redis.command_timeout_ms 0,
        codes "redis.command_timeout_ms must be positive",
      )
      ∷ (
        is_empty config.redis.key_prefix || ends_with_colon config.redis.key_prefix,
        codes "redis.key_prefix must not be empty or end with ':'",
      )
      ∷ (
        is_empty config.redis.server_id || contains_colon config.redis.server_id,
        codes "redis.server_id must not be empty or contain ':'",
      )
      ∷ (
        nat_beq config.redis.session_ttl_seconds 0,
        codes "redis.session_ttl_seconds must be positive",
      )
      ∷ (
        nat_beq config.redis.presence_ttl_seconds 0,
        codes "redis.presence_ttl_seconds must be positive",
      )
      ∷ (
        nat_beq config.redis.user_cache_ttl_seconds 0,
        codes "redis.user_cache_ttl_seconds must be positive",
      )
      ∷ (
        nat_beq config.redis.user_not_found_ttl_seconds 0,
        codes "redis.user_not_found_ttl_seconds must be positive",
      )
      ∷ (
        nat_beq config.redis.message_dedup_ttl_seconds 0,
        codes "redis.message_dedup_ttl_seconds must be positive",
      )
      ∷ (
        nat_beq config.redis.login_rate_limit 0 || nat_beq config.redis.login_rate_window_seconds 0,
        codes "redis login rate limit values must be positive",
      )
      ∷ (
        nat_beq config.redis.register_rate_limit 0
            || nat_beq config.redis.register_rate_window_seconds 0,
        codes "redis register rate limit values must be positive",
      )
      ∷ (
        nat_beq config.redis.send_rate_limit 0 || nat_beq config.redis.send_rate_window_seconds 0,
        codes "redis send rate limit values must be positive",
      )
      ∷ []

  abbrev pub log_and_timeout_tests : List (Bool × Bytes)
  log_and_timeout_tests =
      (
        not (
            config.log.level == codes "debug"
            || (config.log.level == codes "info"
                || (config.log.level == codes "warn" || config.log.level == codes "error"))),
        codes "log.level must be one of: debug, info, warn, error",
      )
      ∷ (nat_beq config.log.max_size_mb 0, codes "log.max_size_mb must be positive")
      ∷ (nat_beq config.log.max_files 0, codes "log.max_files must be at least 1")
      ∷ (
        ltb (max_size / (1024 * 1024)) config.log.max_size_mb,
        codes "log.max_size_mb is too large",
      )
      ∷ (
        not config.log.console && is_empty config.log.file_path,
        codes "log must enable console or provide file_path",
      )
      ∷ (nat_beq config.timeout.remote_push_ms 0, codes "timeout.remote_push_ms must be positive")
      ∷ (
        nat_beq config.connection.idle_timeout_ms 0,
        codes "connection.idle_timeout_ms must be positive",
      )
      ∷ (nat_beq config.heartbeat.timeout_ms 0, codes "heartbeat.timeout_ms must be positive")
      ∷ (
        leb (config.redis.presence_ttl_seconds * 1000 % 2 ^ 64) config.heartbeat.timeout_ms,
        codes "redis.presence_ttl_seconds must be greater than heartbeat.timeout_ms",
      )
      ∷ []

  unfoldable pub validate : Option Bytes
  validate = first_error (server_tests ++ (redis_tests ++ log_and_timeout_tests))
