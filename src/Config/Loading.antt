-- ===== src/Config/Loading.antt =====
-- Loading the configuration (src/config/config_loader.cc, `ParseAndValidate`).
use linux_server.Base.{
  Bool, Option, none, some, inl, inr, List, [], ◌∷◌, ◌++◌, Bytes, codes, if◌then◌else◌, ◌==◌,
  list_eq, nat_eq,
}
use linux_server.Model.Settings.{ServerConfig, default_config}
use linux_server.Config.Json.{Json, object, Checked, ◌>>=◌}
use linux_server.Config.Sections.{
  parse_server, parse_mysql, parse_redis, parse_log, parse_timeout, parse_connection,
  parse_heartbeat,
}
use linux_server.Config.Environment.{apply_env_overrides}
use linux_server.Config.Validating.{validate}

-- `none` is no error.
abbrev pub unless_error : Option Bytes → ServerConfig → Checked ServerConfig
unless_error none config = inr config
unless_error (some error) config = inl error

-- The sections of the root, over the defaults.
unfoldable pub parse_sections : Json → Checked ServerConfig
parse_sections root = do
  server ← parse_server root default_config.server
  (mysql, mysql_pool) ← parse_mysql root default_config.mysql default_config.mysql_pool
  redis ← parse_redis root default_config.redis
  log ← parse_log root default_config.log
  timeout ← parse_timeout root default_config.timeout
  connection ← parse_connection root default_config.connection
  heartbeat ← parse_heartbeat root default_config.heartbeat
  inr record {
    server = server;
    mysql = mysql;
    mysql_pool = mysql_pool;
    redis = redis;
    log = log;
    timeout = timeout;
    connection = connection;
    heartbeat = heartbeat;
  }

abbrev parse_root : Json → Checked ServerConfig
parse_root (object members) = parse_sections (object members)
parse_root _ = inl (codes "config root must be a JSON object")

abbrev pub from_text : Checked Json → Checked ServerConfig
from_text (inl what) = inl (codes "JSON parse error: " ++ what)
from_text (inr root) = parse_root root

-- `json::parse` is a parameter, whose error is the message of its exception, as are the environment
-- and `inet_pton`.
module _ (parse : Bytes → Checked Json) (env : Bytes → Option Bytes)
    (is_ipv4 is_ipv6 : Bytes → Bool) where
  unfoldable pub parse_and_validate : Bytes → Checked ServerConfig
  parse_and_validate json_str = do
    parsed ← from_text (parse json_str)
    config ← apply_env_overrides env parsed
    unless_error (validate is_ipv4 is_ipv6 config) config

-- The value after the first `--config` that has one; the first argument is the program.
abbrev after_flag : List Bytes → Bytes
after_flag [] = []
after_flag (flag ∷ []) = []
after_flag (flag ∷ value ∷ rest) =
    let later = after_flag (value ∷ rest) in if flag == codes "--config" then value else later

unfoldable pub parse_config_path_arg : List Bytes → Bytes
parse_config_path_arg [] = []
parse_config_path_arg (program ∷ args) = after_flag args
