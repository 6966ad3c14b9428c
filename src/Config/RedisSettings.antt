-- ===== src/Config/RedisSettings.antt =====
-- The settings of Redis, as the loader and `ValidateRedisConfig` test them
-- (src/config/config_loader.cc, src/config/redis_config.cc).
use linux_server.Base.{
  ℕ, ◌≡◌, ◌≢◌, refl, Bool, true, [], Bytes, All, nat_beq, is_empty, list_eq, nat_eq,
}
use linux_server.Model.Records.{RedisConfig}
use linux_server.Model.Settings.{ServerConfig}
use linux_server.Config.Validating.{ends_with_colon, contains_colon, redis_tests}
use linux_server.Config.Redis.{redis_config_tests, validate_redis_config}
use linux_server.Config.Valid.{
  ◌⋀◌, test_at, Passed, IsRedisConfig, none-first_error, positive, at_least_one, not_empty, natural,
  neither, implies,
}

module _ (is_ipv4 is_ipv6 : Bytes → Bool) (config : ServerConfig) where
  pub redis_tests-IsRedisConfig :
      All Passed (redis_tests is_ipv4 is_ipv6 config) → IsRedisConfig config.redis
  redis_tests-IsRedisConfig h =
      let redis_passed = λ (n : ℕ). test_at n (redis_tests is_ipv4 is_ipv6 config) h in
      record {
        port = (at_least_one config.redis.port).0 (redis_passed 1);
        pool_size = (positive config.redis.pool_size).0 (redis_passed 2);
        database = (natural config.redis.database).0 (redis_passed 3);
        connect_timeout_ms = (positive config.redis.connect_timeout_ms).0 (redis_passed 4);
        command_timeout_ms = (positive config.redis.command_timeout_ms).0 (redis_passed 5);
        key_prefix =
            (not_empty config.redis.key_prefix).0
              ((neither (is_empty config.redis.key_prefix)
                  (ends_with_colon config.redis.key_prefix)).0
                (redis_passed 6)).0;
        key_prefix_end =
            ((neither (is_empty config.redis.key_prefix)
                (ends_with_colon config.redis.key_prefix)).0
              (redis_passed 6)).1;
        server_id =
            (not_empty config.redis.server_id).0
              ((neither (is_empty config.redis.server_id) (contains_colon config.redis.server_id)).0
                (redis_passed 7)).0;
        server_id_colon =
            ((neither (is_empty config.redis.server_id) (contains_colon config.redis.server_id)).0
              (redis_passed 7)).1;
        session_ttl_seconds = (positive config.redis.session_ttl_seconds).0 (redis_passed 8);
        presence_ttl_seconds = (positive config.redis.presence_ttl_seconds).0 (redis_passed 9);
        user_cache_ttl_seconds = (positive config.redis.user_cache_ttl_seconds).0 (redis_passed 10);
        user_not_found_ttl_seconds =
            (positive config.redis.user_not_found_ttl_seconds).0 (redis_passed 11);
        message_dedup_ttl_seconds =
            (positive config.redis.message_dedup_ttl_seconds).0 (redis_passed 12);
        login_rate_limit =
            (positive config.redis.login_rate_limit).0 ((neither _ _).0 (redis_passed 13)).0;
        login_rate_window_seconds =
            (positive config.redis.login_rate_window_seconds).0
              ((neither _ _).0 (redis_passed 13)).1;
        register_rate_limit =
            (positive config.redis.register_rate_limit).0 ((neither _ _).0 (redis_passed 14)).0;
        register_rate_window_seconds =
            (positive config.redis.register_rate_window_seconds).0
              ((neither _ _).0 (redis_passed 14)).1;
        send_rate_limit =
            (positive config.redis.send_rate_limit).0 ((neither _ _).0 (redis_passed 15)).0;
        send_rate_window_seconds =
            (positive config.redis.send_rate_window_seconds).0
              ((neither _ _).0 (redis_passed 15)).1;
      }

  pub IsRedisConfig-redis_tests :
      IsRedisConfig config.redis
      → (config.redis.enabled ≡ true → config.redis.host ≢ [])
      → All Passed (redis_tests is_ipv4 is_ipv6 config)
  IsRedisConfig-redis_tests v host =
      ((implies config.redis.enabled (is_empty config.redis.host)).1
        (λ e. (not_empty config.redis.host).1 (host e)))
      ⋀ ((at_least_one config.redis.port).1 v.port)
      ⋀ ((positive config.redis.pool_size).1 v.pool_size)
      ⋀ ((natural config.redis.database).1 v.database)
      ⋀ ((positive config.redis.connect_timeout_ms).1 v.connect_timeout_ms)
      ⋀ ((positive config.redis.command_timeout_ms).1 v.command_timeout_ms)
      ⋀ ((neither (is_empty config.redis.key_prefix) (ends_with_colon config.redis.key_prefix)).1
          ((not_empty config.redis.key_prefix).1 v.key_prefix, v.key_prefix_end))
      ⋀ ((neither (is_empty config.redis.server_id) (contains_colon config.redis.server_id)).1
          ((not_empty config.redis.server_id).1 v.server_id, v.server_id_colon))
      ⋀ ((positive config.redis.session_ttl_seconds).1 v.session_ttl_seconds)
      ⋀ ((positive config.redis.presence_ttl_seconds).1 v.presence_ttl_seconds)
      ⋀ ((positive config.redis.user_cache_ttl_seconds).1 v.user_cache_ttl_seconds)
      ⋀ ((positive config.redis.user_not_found_ttl_seconds).1 v.user_not_found_ttl_seconds)
      ⋀ ((positive config.redis.message_dedup_ttl_seconds).1 v.message_dedup_ttl_seconds)
      ⋀ ((neither (nat_beq config.redis.login_rate_limit 0)
            (nat_beq config.redis.login_rate_window_seconds 0)).1
          (
            (positive config.redis.login_rate_limit).1 v.login_rate_limit,
            (positive config.redis.login_rate_window_seconds).1 v.login_rate_window_seconds,
          ))
      ⋀ ((neither (nat_beq config.redis.register_rate_limit 0)
            (nat_beq config.redis.register_rate_window_seconds 0)).1
          (
            (positive config.redis.register_rate_limit).1 v.register_rate_limit,
            (positive config.redis.register_rate_window_seconds).1 v.register_rate_window_seconds,
          ))
      ⋀ ((neither (nat_beq config.redis.send_rate_limit 0)
            (nat_beq config.redis.send_rate_window_seconds 0)).1
          (
            (positive config.redis.send_rate_limit).1 v.send_rate_limit,
            (positive config.redis.send_rate_window_seconds).1 v.send_rate_window_seconds,
          ))
      ⋀ tt

-- Settings that are valid for the loader are valid for `ValidateRedisConfig`.
IsRedisConfig-redis_config_tests :
    (c : RedisConfig) → IsRedisConfig c → All Passed (redis_config_tests c)
IsRedisConfig-redis_config_tests c v =
    ((positive c.port).1 v.port)
    ⋀ ((natural c.database).1 v.database)
    ⋀ ((positive c.pool_size).1 v.pool_size)
    ⋀ ((neither _ _).1 (
      (positive c.connect_timeout_ms).1 v.connect_timeout_ms,
      (positive c.command_timeout_ms).1 v.command_timeout_ms,
    ))
    ⋀ ((neither (is_empty c.key_prefix) (ends_with_colon c.key_prefix)).1
        ((not_empty c.key_prefix).1 v.key_prefix, v.key_prefix_end))
    ⋀ ((neither (is_empty c.server_id) (contains_colon c.server_id)).1
        ((not_empty c.server_id).1 v.server_id, v.server_id_colon))
    ⋀ ((neither _ _).1 (
      (positive c.session_ttl_seconds).1 v.session_ttl_seconds,
      (neither _ _).1 (
        (positive c.presence_ttl_seconds).1 v.presence_ttl_seconds,
        (neither _ _).1 (
          (positive c.user_cache_ttl_seconds).1 v.user_cache_ttl_seconds,
          (neither _ _).1 (
            (positive c.user_not_found_ttl_seconds).1 v.user_not_found_ttl_seconds,
            (positive c.message_dedup_ttl_seconds).1 v.message_dedup_ttl_seconds,
          ),
        ),
      ),
    ))
    ⋀ ((neither _ _).1 (
      (positive c.login_rate_limit).1 v.login_rate_limit,
      (neither _ _).1 (
        (positive c.login_rate_window_seconds).1 v.login_rate_window_seconds,
        (neither _ _).1 (
          (positive c.register_rate_limit).1 v.register_rate_limit,
          (neither _ _).1 (
            (positive c.register_rate_window_seconds).1 v.register_rate_window_seconds,
            (neither _ _).1 (
              (positive c.send_rate_limit).1 v.send_rate_limit,
              (positive c.send_rate_window_seconds).1 v.send_rate_window_seconds,
            ),
          ),
        ),
      ),
    ))
    ⋀ tt

pub validate_redis_config-IsRedisConfig :
    (c : RedisConfig) → IsRedisConfig c → (validate_redis_config c).success ≡ true
unfolding validate_redis_config
validate_redis_config-IsRedisConfig c v =
    let accepted = none-first_error (redis_config_tests c) (IsRedisConfig-redis_config_tests c v) in
    rw accepted refl
