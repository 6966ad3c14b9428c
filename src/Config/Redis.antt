-- ===== src/Config/Redis.antt =====
-- The validation of the settings of Redis (src/config/redis_config.cc).
use linux_server.Base.{
  Bool, true, false, ◌||◌, Option, some, List, [], ◌∷◌, Bytes, pos, codes, nat_beq, int_ltb,
  is_empty,
}
use linux_server.Model.Records.{RedisConfig}
use linux_server.Config.Validating.{ends_with_colon, contains_colon, first_error}

pub data RedisConfigError : Type 0 where
  none : RedisConfigError
  invalid_port invalid_database invalid_pool_size : RedisConfigError
  invalid_timeout invalid_key_prefix invalid_server_id : RedisConfigError
  invalid_ttl invalid_rate_limit : RedisConfigError

pub record RedisConfigResult : Type 0 where
  pub success : Bool
  pub error : RedisConfigError
  pub message : Bytes
  pub config : RedisConfig

abbrev pub make_result : RedisConfig → Option (RedisConfigError × Bytes) → RedisConfigResult
make_result config Option.none = record {
  success = true;
  error = RedisConfigError.none;
  message = codes "ok";
  config = config;
}
make_result config (some (error, message)) = record {
  success = false;
  error = error;
  message = message;
  config = config;
}

abbrev pub redis_config_tests : RedisConfig → List (Bool × (RedisConfigError × Bytes))
redis_config_tests c =
    (nat_beq c.port 0, (invalid_port, codes "redis port must be positive"))
    ∷ (int_ltb c.database (pos 0), (invalid_database, codes "redis database must be non-negative"))
    ∷ (nat_beq c.pool_size 0, (invalid_pool_size, codes "redis pool size must be positive"))
    ∷ (
      nat_beq c.connect_timeout_ms 0 || nat_beq c.command_timeout_ms 0,
      (invalid_timeout, codes "redis timeouts must be positive"),
    )
    ∷ (
      is_empty c.key_prefix || ends_with_colon c.key_prefix,
      (invalid_key_prefix, codes "redis key prefix must not be empty or end with a colon"),
    )
    ∷ (
      is_empty c.server_id || contains_colon c.server_id,
      (invalid_server_id, codes "server id must be non-empty and contain no colon"),
    )
    ∷ (
      nat_beq c.session_ttl_seconds 0
          || (nat_beq c.presence_ttl_seconds 0
              || (nat_beq c.user_cache_ttl_seconds 0
                  || (nat_beq c.user_not_found_ttl_seconds 0
                      || nat_beq c.message_dedup_ttl_seconds 0))),
      (invalid_ttl, codes "redis TTL values must be positive"),
    )
    ∷ (
      nat_beq c.login_rate_limit 0
          || (nat_beq c.login_rate_window_seconds 0
              || (nat_beq c.register_rate_limit 0
                  || (nat_beq c.register_rate_window_seconds 0
                      || (nat_beq c.send_rate_limit 0 || nat_beq c.send_rate_window_seconds 0)))),
      (invalid_rate_limit, codes "redis rate limits must be positive"),
    )
    ∷ []

unfoldable pub validate_redis_config : RedisConfig → RedisConfigResult
validate_redis_config c = make_result c (first_error (redis_config_tests c))
