-- ===== src/Config/Tests.antt =====
-- The loader at a small file, with a host from the environment (src/config/config_loader.cc).
use linux_server.Base.{
  ◌≡◌, ◌↔◌, refl, Bool, true, false, [], ◌∷◌, Option, none, some, inr, Bytes, codes, if◌then◌else◌,
  ◌==◌, list_eq, nat_eq,
}
use linux_server.Model.Settings.{ServerConfig, default_config}
use linux_server.Config.Json.{Json, text, unsigned_number, object, no_members, member, Checked}
use linux_server.Config.Sections
use linux_server.Config.Environment
use linux_server.Config.Validating.{validate}
use linux_server.Config.Redis.{validate_redis_config}
use linux_server.Config.Loading.{parse_sections, parse_and_validate, parse_config_path_arg}
use linux_server.Config.Valid.{IsServerConfig}
use linux_server.Config.Accepting.{validate_iff, parse_and_validate_sound}

-- {"server": {"listen_port": 9000}, "mysql": {"username": "chat", "database": "chat"}}
abbrev file : Json
file = object (
    member (codes "server")
      (object (member (codes "listen_port") (unsigned_number 9000) no_members))
      (member (codes "mysql")
        (object (
          member (codes "username") (text (codes "chat"))
            (member (codes "database") (text (codes "chat")) no_members)))
        no_members))

abbrev parse : Bytes → Checked Json
parse s = inr file

abbrev env : Bytes → Option Bytes
env name = if name == codes "CHAT_DB_HOST" then some (codes "db") else none

abbrev is_ipv4 : Bytes → Bool
is_ipv4 s = s == codes "127.0.0.1"

abbrev is_ipv6 : Bytes → Bool
is_ipv6 s = false

abbrev loaded : ServerConfig
loaded = record default_config {
  server = record default_config.server { listen_port = 9000 };
  mysql = record default_config.mysql {
    host = codes "db";
    username = codes "chat";
    database = codes "chat";
  };
}

file_loads : parse_and_validate parse env is_ipv4 is_ipv6 (codes "{}") ≡ inr loaded
unfolding parse_and_validate parse_sections Sections.parse_server Sections.read_server
    Sections.parse_mysql Sections.read_mysql_and_pool Sections.read_mysql Sections.parse_redis
    Sections.parse_log Sections.parse_timeout Sections.parse_connection Sections.parse_heartbeat
    Environment.apply_env_overrides Environment.override_mysql Environment.override_redis validate
file_loads = refl

-- The flag needs a value after it.
flag_found :
    parse_config_path_arg (codes "server" ∷ codes "--config" ∷ codes "a.json" ∷ []) ≡ codes "a.json"
unfolding parse_config_path_arg
flag_found = refl

validate_iff_example :
    (validate is_ipv4 is_ipv6 loaded ≡ none) ↔ IsServerConfig is_ipv4 is_ipv6 loaded
validate_iff_example = validate_iff is_ipv4 is_ipv6 loaded

parse_and_validate_sound_example :
    IsServerConfig is_ipv4 is_ipv6 loaded × ((validate_redis_config loaded.redis).success ≡ true)
parse_and_validate_sound_example =
    parse_and_validate_sound parse env is_ipv4 is_ipv6 (codes "{}") loaded file_loads
