-- ===== src/Config/Accepting.antt =====
-- What the loader accepts (src/config/config_loader.cc, src/config/redis_config.cc).
use linux_server.Base.{
  ℕ, ◌*◌, ◌/◌, ◌%◌, ◌^◌, ◌≡◌, ◌↔◌, refl, subst, Bool, true, false, not, ◌||◌, Option, none, some,
  ◌++◌, Bytes, All, All-append, All-append_left, All-append_right, ◌⊎◌, inl, inr, codes, is_empty,
  beq_iff, ◌==◌, list_eq, nat_eq,
}
use linux_server.Model.Settings.{ServerConfig}
use linux_server.Config.Json.{Json, Checked, ◌>>=◌, max_size}
use linux_server.Config.Validating.{server_tests, redis_tests, log_and_timeout_tests, validate}
use linux_server.Config.Redis.{validate_redis_config}
use linux_server.Config.Environment.{apply_env_overrides}
use linux_server.Config.Loading.{unless_error, from_text, parse_and_validate}
use linux_server.Config.Valid.{
  ◌⋀◌, test_at, Passed, IsServerConfig, first_error-none, none-first_error, positive, at_least_one,
  at_most, below, not_empty, implies, one_of, unless, negated, equal_or,
}
use linux_server.Config.RedisSettings.{
  redis_tests-IsRedisConfig, IsRedisConfig-redis_tests, validate_redis_config-IsRedisConfig,
}

module _ (is_ipv4 is_ipv6 : Bytes → Bool) (config : ServerConfig) where
  level_iff :
      (not (
          config.log.level == codes "debug"
          || (config.log.level == codes "info"
              || (config.log.level == codes "warn" || config.log.level == codes "error")))
        ≡ false)
      ↔ ((config.log.level ≡ codes "debug")
          ⊎ ((config.log.level ≡ codes "info")
              ⊎ ((config.log.level ≡ codes "warn") ⊎ (config.log.level ≡ codes "error"))))
  level_iff =
      let l = config.log.level in
      let named =
        equal_or l (codes "debug") _
          (equal_or l (codes "info") _ (equal_or l (codes "warn") _ (beq_iff l (codes "error")))) in
      (λ h. named.0 ((negated _).0 h), λ h. (negated _).1 (named.1 h))

  tests-IsServerConfig :
      All Passed (server_tests is_ipv4 is_ipv6 config)
      → All Passed (redis_tests is_ipv4 is_ipv6 config)
      → All Passed (log_and_timeout_tests is_ipv4 is_ipv6 config)
      → IsServerConfig is_ipv4 is_ipv6 config
  tests-IsServerConfig h r l =
      let server_passed = λ (n : ℕ). test_at n (server_tests is_ipv4 is_ipv6 config) h in
      let redis_passed = λ (n : ℕ). test_at n (redis_tests is_ipv4 is_ipv6 config) r in
      let log_passed = λ (n : ℕ). test_at n (log_and_timeout_tests is_ipv4 is_ipv6 config) l in
      record {
        listen_ip =
            (one_of (is_ipv4 config.server.listen_ip) (is_ipv6 config.server.listen_ip)).0
              (server_passed 0);
        listen_port = (at_least_one config.server.listen_port).0 (server_passed 1);
        mysql_host = (not_empty config.mysql.host).0 (server_passed 2);
        mysql_username = (not_empty config.mysql.username).0 (server_passed 3);
        mysql_database = (not_empty config.mysql.database).0 (server_passed 4);
        mysql_port = (at_least_one config.mysql.port).0 (server_passed 5);
        connect_timeout_seconds =
            (positive config.mysql.connect_timeout_seconds).0 (server_passed 6);
        read_timeout_seconds = (positive config.mysql.read_timeout_seconds).0 (server_passed 7);
        write_timeout_seconds = (positive config.mysql.write_timeout_seconds).0 (server_passed 8);
        max_connections = (positive config.mysql_pool.max_connections).0 (server_passed 9);
        min_connections =
            (at_most config.mysql_pool.min_connections config.mysql_pool.max_connections).0
              (server_passed 10);
        borrow_timeout_ms = (positive config.mysql_pool.borrow_timeout_ms).0 (server_passed 11);
        redis = redis_tests-IsRedisConfig is_ipv4 is_ipv6 config r;
        redis_host = λ e.
            (not_empty config.redis.host).0
              ((implies config.redis.enabled (is_empty config.redis.host)).0 (redis_passed 0) e);
        level = (level_iff).0 (log_passed 0);
        max_size_mb = (positive config.log.max_size_mb).0 (log_passed 1);
        max_files = (positive config.log.max_files).0 (log_passed 2);
        bytes_fit = (at_most config.log.max_size_mb (max_size / (1024 * 1024))).0 (log_passed 3);
        output = λ e.
            (not_empty config.log.file_path).0
              ((unless config.log.console (is_empty config.log.file_path)).0 (log_passed 4) e);
        remote_push_ms = (positive config.timeout.remote_push_ms).0 (log_passed 5);
        idle_timeout_ms = (positive config.connection.idle_timeout_ms).0 (log_passed 6);
        heartbeat_ms = (positive config.heartbeat.timeout_ms).0 (log_passed 7);
        presence =
            (below (config.redis.presence_ttl_seconds * 1000 % 2 ^ 64)
                config.heartbeat.timeout_ms).0
              (log_passed 8);
      }

  IsServerConfig-server_tests :
      IsServerConfig is_ipv4 is_ipv6 config → All Passed (server_tests is_ipv4 is_ipv6 config)
  IsServerConfig-server_tests v =
      ((one_of (is_ipv4 config.server.listen_ip) (is_ipv6 config.server.listen_ip)).1 v.listen_ip)
      ⋀ ((at_least_one config.server.listen_port).1 v.listen_port)
      ⋀ ((not_empty config.mysql.host).1 v.mysql_host)
      ⋀ ((not_empty config.mysql.username).1 v.mysql_username)
      ⋀ ((not_empty config.mysql.database).1 v.mysql_database)
      ⋀ ((at_least_one config.mysql.port).1 v.mysql_port)
      ⋀ ((positive config.mysql.connect_timeout_seconds).1 v.connect_timeout_seconds)
      ⋀ ((positive config.mysql.read_timeout_seconds).1 v.read_timeout_seconds)
      ⋀ ((positive config.mysql.write_timeout_seconds).1 v.write_timeout_seconds)
      ⋀ ((positive config.mysql_pool.max_connections).1 v.max_connections)
      ⋀ ((at_most config.mysql_pool.min_connections config.mysql_pool.max_connections).1
          v.min_connections)
      ⋀ ((positive config.mysql_pool.borrow_timeout_ms).1 v.borrow_timeout_ms)
      ⋀ tt

  IsServerConfig-log_and_timeout_tests :
      IsServerConfig is_ipv4 is_ipv6 config
      → All Passed (log_and_timeout_tests is_ipv4 is_ipv6 config)
  IsServerConfig-log_and_timeout_tests v =
      ((level_iff).1 v.level)
      ⋀ ((positive config.log.max_size_mb).1 v.max_size_mb)
      ⋀ ((positive config.log.max_files).1 v.max_files)
      ⋀ ((at_most config.log.max_size_mb (max_size / (1024 * 1024))).1 v.bytes_fit)
      ⋀ ((unless config.log.console (is_empty config.log.file_path)).1
          (λ e. (not_empty config.log.file_path).1 (v.output e)))
      ⋀ ((positive config.timeout.remote_push_ms).1 v.remote_push_ms)
      ⋀ ((positive config.connection.idle_timeout_ms).1 v.idle_timeout_ms)
      ⋀ ((positive config.heartbeat.timeout_ms).1 v.heartbeat_ms)
      ⋀ ((below (config.redis.presence_ttl_seconds * 1000 % 2 ^ 64) config.heartbeat.timeout_ms).1
          v.presence)
      ⋀ tt

  -- `Validate` finds no error exactly if every setting is what the server needs: the address can be
  -- read, ports, sizes, times and limits are positive, the names that MySQL and Redis need are
  -- there, prefix and id can stand in keys, the log has a level and a place to go, and a presence
  -- outlives a heartbeat.
  pub validate_iff :
      (validate is_ipv4 is_ipv6 config ≡ none) ↔ IsServerConfig is_ipv4 is_ipv6 config
  unfolding validate
  validate_iff =
      let s = server_tests is_ipv4 is_ipv6 config in
      let r = redis_tests is_ipv4 is_ipv6 config in
      let l = log_and_timeout_tests is_ipv4 is_ipv6 config in
      (
        λ h.
            let all = first_error-none (s ++ (r ++ l)) h in
            let later = All-append_right Passed s (r ++ l) all in
            tests-IsServerConfig (All-append_left Passed s (r ++ l) all)
              (All-append_left Passed r l later) (All-append_right Passed r l later),
        λ v. none-first_error (s ++ (r ++ l)) (
            All-append Passed s (r ++ l) (IsServerConfig-server_tests v) (
              All-append Passed r l
                (IsRedisConfig-redis_tests is_ipv4 is_ipv6 config v.redis v.redis_host)
                (IsServerConfig-log_and_timeout_tests v))),
      )

checked_inv :
    (error : Option Bytes) (config loaded : ServerConfig)
    → unless_error error config ≡ inr loaded
    → (error ≡ none) × (config ≡ loaded)
checked_inv none config loaded e = (refl, cc e)
checked_inv (some message) config loaded e = absurd (cc e)

module _ (parse : Bytes → Checked Json) (env : Bytes → Option Bytes)
    (is_ipv4 is_ipv6 : Bytes → Bool) where
  validated :
      (overridden : Checked ServerConfig) (loaded : ServerConfig)
      → (overridden >>= λ config. unless_error (validate is_ipv4 is_ipv6 config) config)
        ≡ inr loaded
      → validate is_ipv4 is_ipv6 loaded ≡ none
  validated (inl error) loaded e = absurd (cc e)
  validated (inr config) loaded e =
      let v = checked_inv (validate is_ipv4 is_ipv6 config) config loaded e in
      subst (λ c. validate is_ipv4 is_ipv6 c ≡ none) v.1 v.0

  loaded_once :
      (parsed : Checked ServerConfig) (loaded : ServerConfig)
      → (parsed >>= λ config.
          apply_env_overrides env config >>= λ c. unless_error (validate is_ipv4 is_ipv6 c) c)
        ≡ inr loaded
      → validate is_ipv4 is_ipv6 loaded ≡ none
  loaded_once (inl error) loaded e = absurd (cc e)
  loaded_once (inr config) loaded e = validated (apply_env_overrides env config) loaded e

  -- Whatever the file and the environment say, a configuration that the loader hands out has every
  -- setting as the server needs it, also where the environment replaced what the file said, and
  -- the settings of Redis in it pass `ValidateRedisConfig` too.
  pub parse_and_validate_sound :
      (json_str : Bytes) (config : ServerConfig)
      → parse_and_validate parse env is_ipv4 is_ipv6 json_str ≡ inr config
      → IsServerConfig is_ipv4 is_ipv6 config
        × ((validate_redis_config config.redis).success ≡ true)
  unfolding parse_and_validate
  parse_and_validate_sound json_str config e =
      let v =
        (validate_iff is_ipv4 is_ipv6 config).0
          (loaded_once (from_text (parse json_str)) config e) in
      (v, validate_redis_config-IsRedisConfig config.redis v.redis)
