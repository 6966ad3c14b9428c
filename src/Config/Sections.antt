-- ===== src/Config/Sections.antt =====
-- The sections of the configuration (src/config/config_loader.cc, `ParseServer` and the functions
-- after it).
use linux_server.Base.{inl, inr, none, some, [], codes}
use linux_server.Model.Records.{RedisConfig}
use linux_server.Model.Settings.{
  ServerSection, DbConfig, DbPoolConfig, LogConfig, TimeoutConfig, ConnectionConfig,
  HeartbeatConfig,
}
use linux_server.Config.Json.{
  Json, get, Checked, ◌>>=◌, with_section, get_str, get_bool, get_uint, get_int, get_port,
  get_section, max_uint32, max_size,
}

unfoldable pub read_server : ServerSection → Json → Checked ServerSection
read_server cfg json = do
  listen_ip ← with_section (codes "server.") (get_str json (codes "listen_ip") cfg.listen_ip)
  listen_port ← get_port json (codes "server.") (codes "listen_port") cfg.listen_port
  inr (record cfg { listen_ip = listen_ip; listen_port = listen_port })

unfoldable pub read_mysql : DbConfig → Json → Checked DbConfig
read_mysql cfg json = do
  host ← with_section (codes "mysql.") (get_str json (codes "host") cfg.host)
  username ← with_section (codes "mysql.") (get_str json (codes "username") cfg.username)
  password ← with_section (codes "mysql.") (get_str json (codes "password") cfg.password)
  database ← with_section (codes "mysql.") (get_str json (codes "database") cfg.database)
  port ← get_port json (codes "mysql.") (codes "port") cfg.port
  connect_timeout_seconds ←
      get_uint max_uint32 json (codes "mysql.") (codes "connect_timeout_seconds")
        cfg.connect_timeout_seconds
  read_timeout_seconds ←
      get_uint max_uint32 json (codes "mysql.") (codes "read_timeout_seconds")
        cfg.read_timeout_seconds
  write_timeout_seconds ←
      get_uint max_uint32 json (codes "mysql.") (codes "write_timeout_seconds")
        cfg.write_timeout_seconds
  inr (record cfg {
    host = host;
    username = username;
    password = password;
    database = database;
    port = port;
    connect_timeout_seconds = connect_timeout_seconds;
    read_timeout_seconds = read_timeout_seconds;
    write_timeout_seconds = write_timeout_seconds;
  })

unfoldable pub read_pool : DbPoolConfig → Json → Checked DbPoolConfig
read_pool cfg json = do
  min_connections ←
      get_uint max_size json (codes "mysql.pool.") (codes "min_connections") cfg.min_connections
  max_connections ←
      get_uint max_size json (codes "mysql.pool.") (codes "max_connections") cfg.max_connections
  borrow_timeout_ms ←
      get_uint max_uint32 json (codes "mysql.pool.") (codes "borrow_timeout_ms")
        cfg.borrow_timeout_ms
  inr (record cfg {
    min_connections = min_connections;
    max_connections = max_connections;
    borrow_timeout_ms = borrow_timeout_ms;
  })

unfoldable pub read_redis : RedisConfig → Json → Checked RedisConfig
read_redis cfg json = do
  enabled ← with_section (codes "redis.") (get_bool json (codes "enabled") cfg.enabled)
  host ← with_section (codes "redis.") (get_str json (codes "host") cfg.host)
  password ← with_section (codes "redis.") (get_str json (codes "password") cfg.password)
  key_prefix ← with_section (codes "redis.") (get_str json (codes "key_prefix") cfg.key_prefix)
  server_id ← with_section (codes "redis.") (get_str json (codes "server_id") cfg.server_id)
  port ← get_port json (codes "redis.") (codes "port") cfg.port
  database ← get_int json (codes "redis.") (codes "database") cfg.database
  pool_size ← get_uint max_size json (codes "redis.") (codes "pool_size") cfg.pool_size
  connect_timeout_ms ←
      get_uint max_uint32 json (codes "redis.") (codes "connect_timeout_ms") cfg.connect_timeout_ms
  command_timeout_ms ←
      get_uint max_uint32 json (codes "redis.") (codes "command_timeout_ms") cfg.command_timeout_ms
  session_ttl_seconds ←
      get_uint max_uint32 json (codes "redis.") (codes "session_ttl_seconds")
        cfg.session_ttl_seconds
  presence_ttl_seconds ←
      get_uint max_uint32 json (codes "redis.") (codes "presence_ttl_seconds")
        cfg.presence_ttl_seconds
  user_cache_ttl_seconds ←
      get_uint max_uint32 json (codes "redis.") (codes "user_cache_ttl_seconds")
        cfg.user_cache_ttl_seconds
  user_not_found_ttl_seconds ←
      get_uint max_uint32 json (codes "redis.") (codes "user_not_found_ttl_seconds")
        cfg.user_not_found_ttl_seconds
  message_dedup_ttl_seconds ←
      get_uint max_uint32 json (codes "redis.") (codes "message_dedup_ttl_seconds")
        cfg.message_dedup_ttl_seconds
  login_rate_limit ←
      get_uint max_uint32 json (codes "redis.") (codes "login_rate_limit") cfg.login_rate_limit
  login_rate_window_seconds ←
      get_uint max_uint32 json (codes "redis.") (codes "login_rate_window_seconds")
        cfg.login_rate_window_seconds
  register_rate_limit ←
      get_uint max_uint32 json (codes "redis.") (codes "register_rate_limit")
        cfg.register_rate_limit
  register_rate_window_seconds ←
      get_uint max_uint32 json (codes "redis.") (codes "register_rate_window_seconds")
        cfg.register_rate_window_seconds
  send_rate_limit ←
      get_uint max_uint32 json (codes "redis.") (codes "send_rate_limit") cfg.send_rate_limit
  send_rate_window_seconds ←
      get_uint max_uint32 json (codes "redis.") (codes "send_rate_window_seconds")
        cfg.send_rate_window_seconds
  inr (record cfg {
    enabled = enabled;
    host = host;
    password = password;
    key_prefix = key_prefix;
    server_id = server_id;
    port = port;
    database = database;
    pool_size = pool_size;
    connect_timeout_ms = connect_timeout_ms;
    command_timeout_ms = command_timeout_ms;
    session_ttl_seconds = session_ttl_seconds;
    presence_ttl_seconds = presence_ttl_seconds;
    user_cache_ttl_seconds = user_cache_ttl_seconds;
    user_not_found_ttl_seconds = user_not_found_ttl_seconds;
    message_dedup_ttl_seconds = message_dedup_ttl_seconds;
    login_rate_limit = login_rate_limit;
    login_rate_window_seconds = login_rate_window_seconds;
    register_rate_limit = register_rate_limit;
    register_rate_window_seconds = register_rate_window_seconds;
    send_rate_limit = send_rate_limit;
    send_rate_window_seconds = send_rate_window_seconds;
  })

unfoldable pub read_log_fields : LogConfig → Json → Checked LogConfig
read_log_fields cfg json = do
  level ← with_section (codes "log.") (get_str json (codes "level") cfg.level)
  file_path ← with_section (codes "log.") (get_str json (codes "file_path") cfg.file_path)
  console ← with_section (codes "log.") (get_bool json (codes "console") cfg.console)
  max_size_mb ← get_uint max_size json (codes "log.") (codes "max_size_mb") cfg.max_size_mb
  max_files ← get_uint max_size json (codes "log.") (codes "max_files") cfg.max_files
  async ← with_section (codes "log.") (get_bool json (codes "async") cfg.async)
  inr (record cfg {
    level = level;
    file_path = file_path;
    console = console;
    max_size_mb = max_size_mb;
    max_files = max_files;
    async = async;
  })

unfoldable pub read_timeout : TimeoutConfig → Json → Checked TimeoutConfig
read_timeout cfg json = do
  remote_push_ms ←
      get_uint max_uint32 json (codes "timeout.") (codes "remote_push_ms") cfg.remote_push_ms
  inr (record cfg { remote_push_ms = remote_push_ms })

unfoldable pub read_connection : ConnectionConfig → Json → Checked ConnectionConfig
read_connection cfg json = do
  idle_timeout_ms ←
      get_uint max_uint32 json (codes "connection.") (codes "idle_timeout_ms") cfg.idle_timeout_ms
  inr (record cfg { idle_timeout_ms = idle_timeout_ms })

unfoldable pub read_heartbeat : HeartbeatConfig → Json → Checked HeartbeatConfig
read_heartbeat cfg json = do
  timeout_ms ← get_uint max_uint32 json (codes "heartbeat.") (codes "timeout_ms") cfg.timeout_ms
  inr (record cfg { timeout_ms = timeout_ms })

-- The field with the former name is refused.
unfoldable pub read_log : LogConfig → Json → Checked LogConfig
read_log cfg json = elim (get json (codes "path")) [
  | some v ↦ inl (codes "log.path is no longer supported; use log.file_path")
  | none ↦ read_log_fields cfg json
]

unfoldable pub parse_server : Json → ServerSection → Checked ServerSection
parse_server root cfg = get_section root [] (codes "server") cfg (read_server cfg)

unfoldable pub read_mysql_and_pool :
    DbConfig → DbPoolConfig → Json → Checked (DbConfig × DbPoolConfig)
read_mysql_and_pool cfg pool json = do
  cfg' ← read_mysql cfg json
  pool' ← get_section json (codes "mysql.") (codes "pool") pool (read_pool pool)
  inr (cfg', pool')

unfoldable pub parse_mysql : Json → DbConfig → DbPoolConfig → Checked (DbConfig × DbPoolConfig)
parse_mysql root cfg pool =
    get_section root [] (codes "mysql") (cfg, pool) (read_mysql_and_pool cfg pool)

unfoldable pub parse_redis : Json → RedisConfig → Checked RedisConfig
parse_redis root cfg = get_section root [] (codes "redis") cfg (read_redis cfg)

unfoldable pub parse_log : Json → LogConfig → Checked LogConfig
parse_log root cfg = get_section root [] (codes "log") cfg (read_log cfg)

unfoldable pub parse_timeout : Json → TimeoutConfig → Checked TimeoutConfig
parse_timeout root cfg = get_section root [] (codes "timeout") cfg (read_timeout cfg)

unfoldable pub parse_connection : Json → ConnectionConfig → Checked ConnectionConfig
parse_connection root cfg = get_section root [] (codes "connection") cfg (read_connection cfg)

unfoldable pub parse_heartbeat : Json → HeartbeatConfig → Checked HeartbeatConfig
parse_heartbeat root cfg = get_section root [] (codes "heartbeat") cfg (read_heartbeat cfg)
