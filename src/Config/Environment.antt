-- ===== src/Config/Environment.antt =====
-- Overrides from the environment (src/config/config_loader.cc, `ApplyEnvOverrides`).
use linux_server.Base.{
  ℕ, ◌-◌, ◌^◌, Bool, true, false, not, ◌||◌, inl, inr, Option, none, some, [], ◌∷◌, ◌++◌, Bytes, ℤ,
  pos, negsuc, codes, scan_digits, nat_beq, ltb, is_empty, if◌then◌else◌, ◌==◌, list_eq, nat_eq,
}
use linux_server.Model.Records.{RedisConfig}
use linux_server.Model.Settings.{DbConfig, ServerConfig}
use linux_server.Config.Json.{Checked, ◌>>=◌, max_uint32, max_size}

-- `from_chars` into an unsigned type with the given maximum, which has to read the whole text.
abbrev pub strict_parse_uint : ℕ → Bytes → Option ℕ
strict_parse_uint max s =
    let (count, value, rest) = scan_digits 0 0 s in
    if nat_beq count 0 || (not (is_empty rest) || ltb max value) then none else some value

abbrev minus : Option ℕ → Option ℤ
minus none = none
minus (some n) = some (if nat_beq n 0 then pos 0 else negsuc (n - 1))

abbrev plus : Option ℕ → Option ℤ
plus none = none
plus (some n) = some (pos n)

-- `from_chars` into an `int`
abbrev pub strict_parse_int : Bytes → Option ℤ
strict_parse_int [] = none
strict_parse_int (c ∷ cs) =
    if nat_beq c b'-'
    then minus (strict_parse_uint (2 ^ 31) cs)
    else plus (strict_parse_uint (2 ^ 31 - 1) (c ∷ cs))

abbrev pub strict_parse_bool : Bytes → Option Bool
strict_parse_bool s =
    if s == codes "0" then some false else if s == codes "1" then some true else none

abbrev strict_parse_port : Bytes → Option ℕ
strict_parse_port s = elim (strict_parse_uint max_uint32 s) [
  | none ↦ none
  | some n ↦ if ltb n 1 || ltb 65535 n then none else some n
]

module _ (env : Bytes → Option Bytes) where
  abbrev override : Option Bytes → Bytes → Bytes
  override none old = old
  override (some v) old = v

  abbrev pub env_str : Bytes → Bytes → Bytes
  env_str name old = override (env name) old

  abbrev required : {A : Type 0} → Bytes → Bytes → Option A → Checked A
  required complaint v none = inl (complaint ++ v)
  required complaint v (some a) = inr a

  -- A value that has to be well-formed: its name, the complaint, and the parser.
  abbrev parsed : {A : Type 0} → Bytes → (Bytes → Option A) → Option Bytes → A → Checked A
  parsed complaint parse none old = inr old
  parsed complaint parse (some v) old = required complaint v (parse v)

  abbrev pub env_parsed : {A : Type 0} → Bytes → Bytes → (Bytes → Option A) → A → Checked A
  env_parsed name complaint parse old = parsed (name ++ complaint) parse (env name) old

  abbrev pub apply_unsigned : ℕ → Bytes → ℕ → Checked ℕ
  apply_unsigned max name old =
      env_parsed name (codes " is not a valid unsigned integer: ") (strict_parse_uint max) old

  unfoldable pub override_mysql : DbConfig → Checked DbConfig
  override_mysql cfg = do
    port ←
        env_parsed (codes "CHAT_DB_PORT") (codes " is not a valid port number: ") strict_parse_port
          cfg.port
    inr (record cfg {
      host = env_str (codes "CHAT_DB_HOST") cfg.host;
      username = env_str (codes "CHAT_DB_USER") cfg.username;
      password = env_str (codes "CHAT_DB_PASSWORD") cfg.password;
      database = env_str (codes "CHAT_DB_NAME") cfg.database;
      port = port;
    })

  unfoldable pub override_redis : RedisConfig → Checked RedisConfig
  override_redis cfg = do
    enabled ←
        env_parsed (codes "CHAT_REDIS_ENABLED") (codes " must be 0 or 1: ") strict_parse_bool
          cfg.enabled
    port ←
        env_parsed (codes "CHAT_REDIS_PORT") (codes " is not a valid port number: ")
          strict_parse_port cfg.port
    database ←
        env_parsed (codes "CHAT_REDIS_DB") (codes " is not a valid integer: ") strict_parse_int
          cfg.database
    pool_size ← apply_unsigned max_size (codes "CHAT_REDIS_POOL_SIZE") cfg.pool_size
    connect_timeout_ms ←
        apply_unsigned max_uint32 (codes "CHAT_REDIS_CONNECT_TIMEOUT_MS") cfg.connect_timeout_ms
    command_timeout_ms ←
        apply_unsigned max_uint32 (codes "CHAT_REDIS_COMMAND_TIMEOUT_MS") cfg.command_timeout_ms
    session_ttl_seconds ←
        apply_unsigned max_uint32 (codes "CHAT_SESSION_TTL_SECONDS") cfg.session_ttl_seconds
    presence_ttl_seconds ←
        apply_unsigned max_uint32 (codes "CHAT_PRESENCE_TTL_SECONDS") cfg.presence_ttl_seconds
    user_cache_ttl_seconds ←
        apply_unsigned max_uint32 (codes "CHAT_USER_CACHE_TTL_SECONDS") cfg.user_cache_ttl_seconds
    user_not_found_ttl_seconds ←
        apply_unsigned max_uint32 (codes "CHAT_USER_NOT_FOUND_TTL_SECONDS")
          cfg.user_not_found_ttl_seconds
    message_dedup_ttl_seconds ←
        apply_unsigned max_uint32 (codes "CHAT_MESSAGE_DEDUP_TTL_SECONDS")
          cfg.message_dedup_ttl_seconds
    login_rate_limit ←
        apply_unsigned max_uint32 (codes "CHAT_LOGIN_RATE_LIMIT") cfg.login_rate_limit
    login_rate_window_seconds ←
        apply_unsigned max_uint32 (codes "CHAT_LOGIN_RATE_WINDOW_SECONDS")
          cfg.login_rate_window_seconds
    register_rate_limit ←
        apply_unsigned max_uint32 (codes "CHAT_REGISTER_RATE_LIMIT") cfg.register_rate_limit
    register_rate_window_seconds ←
        apply_unsigned max_uint32 (codes "CHAT_REGISTER_RATE_WINDOW_SECONDS")
          cfg.register_rate_window_seconds
    send_rate_limit ← apply_unsigned max_uint32 (codes "CHAT_SEND_RATE_LIMIT") cfg.send_rate_limit
    send_rate_window_seconds ←
        apply_unsigned max_uint32 (codes "CHAT_SEND_RATE_WINDOW_SECONDS")
          cfg.send_rate_window_seconds
    inr (record cfg {
      enabled = enabled;
      host = env_str (codes "CHAT_REDIS_HOST") cfg.host;
      password = env_str (codes "CHAT_REDIS_PASSWORD") cfg.password;
      port = port;
      database = database;
      key_prefix = env_str (codes "CHAT_REDIS_KEY_PREFIX") cfg.key_prefix;
      server_id = env_str (codes "CHAT_SERVER_ID") cfg.server_id;
      pool_size = pool_size;
      connect_timeout_ms = connect_timeout_ms;
      command_timeout_ms = command_timeout_ms;
      session_ttl_seconds = session_ttl_seconds;
      presence_ttl_seconds = presence_ttl_seconds;
      user_cache_ttl_seconds = user_cache_ttl_seconds;
      user_not_found_ttl_seconds = user_not_found_ttl_seconds;
      message_dedup_ttl_seconds = message_dedup_ttl_seconds;
      login_rate_limit = login_rate_limit;
      login_rate_window_seconds = login_rate_window_seconds;
      register_rate_limit = register_rate_limit;
      register_rate_window_seconds = register_rate_window_seconds;
      send_rate_limit = send_rate_limit;
      send_rate_window_seconds = send_rate_window_seconds;
    })

  unfoldable pub apply_env_overrides : ServerConfig → Checked ServerConfig
  apply_env_overrides config = do
    mysql ← override_mysql config.mysql
    redis ← override_redis config.redis
    idle_timeout_ms ←
        apply_unsigned max_uint32 (codes "CHAT_CONNECTION_IDLE_TIMEOUT_MS")
          config.connection.idle_timeout_ms
    timeout_ms ←
        apply_unsigned max_uint32 (codes "CHAT_HEARTBEAT_TIMEOUT_MS") config.heartbeat.timeout_ms
    inr (record config {
      mysql = mysql;
      redis = redis;
      connection = record { idle_timeout_ms = idle_timeout_ms };
      heartbeat = record { timeout_ms = timeout_ms };
    })
