-- ===== src/Model/Settings.antt =====
-- The settings of the server (include/config/db_config.h, include/db/db_pool_config.h,
-- include/config/server_config.h).
use linux_server.Base.{ℕ, Bytes, Bool, true, false, [], codes, pos}
use linux_server.Model.Records.{RedisConfig}

pub record DbConfig : Type 0 where
  pub host : Bytes
  pub port : ℕ
  pub username : Bytes
  pub password : Bytes
  pub database : Bytes
  pub connect_timeout_seconds : ℕ
  pub read_timeout_seconds : ℕ
  pub write_timeout_seconds : ℕ
  pub charset : Bytes

pub record DbPoolConfig : Type 0 where
  pub min_connections : ℕ
  pub max_connections : ℕ
  pub borrow_timeout_ms : ℕ
  pub connect_retry_count : ℕ
  pub connect_retry_delay_ms : ℕ
  pub idle_timeout_ms : ℕ
  pub max_lifetime_ms : ℕ

-- include/config/server_config.h
pub record ServerSection : Type 0 where
  pub listen_ip : Bytes
  pub listen_port : ℕ

pub record LogConfig : Type 0 where
  pub level : Bytes
  pub file_path : Bytes
  pub console : Bool
  pub max_size_mb : ℕ
  pub max_files : ℕ
  pub async : Bool

pub record TimeoutConfig : Type 0 where
  pub remote_push_ms : ℕ

pub record ConnectionConfig : Type 0 where
  pub idle_timeout_ms : ℕ

pub record HeartbeatConfig : Type 0 where
  pub timeout_ms : ℕ

pub record ServerConfig : Type 0 where
  pub server : ServerSection
  pub mysql : DbConfig
  pub mysql_pool : DbPoolConfig
  pub redis : RedisConfig
  pub log : LogConfig
  pub timeout : TimeoutConfig
  pub connection : ConnectionConfig
  pub heartbeat : HeartbeatConfig

abbrev pub default_config : ServerConfig
default_config = record {
  server = record { listen_ip = codes "127.0.0.1"; listen_port = 8080 };
  mysql = record {
    host = codes "127.0.0.1";
    port = 3306;
    username = [];
    password = [];
    database = [];
    connect_timeout_seconds = 5;
    read_timeout_seconds = 5;
    write_timeout_seconds = 5;
    charset = codes "utf8mb4";
  };
  mysql_pool = record {
    min_connections = 1;
    max_connections = 4;
    borrow_timeout_ms = 1000;
    connect_retry_count = 1;
    connect_retry_delay_ms = 100;
    idle_timeout_ms = 300000;
    max_lifetime_ms = 1800000;
  };
  redis = record {
    enabled = false;
    host = codes "127.0.0.1";
    port = 6379;
    password = [];
    database = pos 0;
    pool_size = 4;
    connect_timeout_ms = 500;
    command_timeout_ms = 500;
    key_prefix = codes "chat";
    server_id = codes "server-1";
    session_ttl_seconds = 604800;
    presence_ttl_seconds = 120;
    user_cache_ttl_seconds = 300;
    user_not_found_ttl_seconds = 30;
    message_dedup_ttl_seconds = 86400;
    login_rate_limit = 10;
    login_rate_window_seconds = 60;
    register_rate_limit = 5;
    register_rate_window_seconds = 300;
    send_rate_limit = 60;
    send_rate_window_seconds = 60;
  };
  log = record {
    level = codes "info";
    file_path = codes "logs/server.log";
    console = true;
    max_size_mb = 100;
    max_files = 5;
    async = true;
  };
  timeout = record { remote_push_ms = 500 };
  connection = record { idle_timeout_ms = 300000 };
  heartbeat = record { timeout_ms = 90000 };
}
