-- ===== src/Session/Store.antt =====
-- `RedisSessionStore` (src/server/redis_session_store.cc) with its Lua scripts, over the hashes that
-- Redis keeps. A command that fails changes nothing here, and no key expires.
pub mod Laws
pub mod Presence
mod Tests
use linux_server.Base.{
  ℕ, Bool, true, false, not, ◌&&◌, ◌||◌, List, [], ◌∷◌, ◌++◌, Option, none, some, Bytes, codes,
  is_empty, ℤ, pos, negsuc, le_zero, to_string, parse_integer, Map, lookup, insert, erase, ◌==◌,
  nat_eq, int_eq, list_eq, int_ltb, if◌then◌else◌,
}
use linux_server.Model.Records.{RedisConfig, StoredSessionToken, StoredUserPresence}
use linux_server.Session.Manager.{ConnectionSession}
use linux_server.Validation.Validator

abbrev pub Hashes : Type 0
Hashes = Map Bytes (Map Bytes Bytes)

abbrev pub or_no_fields : Option (Map Bytes Bytes) → Map Bytes Bytes
or_no_fields none = []
or_no_fields (some fields) = fields

unfoldable pub hget : Bytes → Bytes → Hashes → Option Bytes
hget key field h = lookup field (or_no_fields (lookup key h))

unfoldable pub hset : Bytes → Bytes → Bytes → Hashes → Hashes
hset key field value h = insert key (insert field value (or_no_fields (lookup key h))) h

abbrev pub equals : Bytes → Option Bytes → Bool
equals value none = false
equals value (some found) = found == value

-- HGET(key, field) == value, in Lua, where a missing field is false
unfoldable pub has : Bytes → Bytes → Bytes → Hashes → Bool
has key field value h = equals value (hget key field h)

module _ (config : RedisConfig) where
  unfoldable pub token_key : Bytes → Bytes
  token_key token = config.key_prefix ++ (codes ":session:token:" ++ token)

  unfoldable pub user_presence_key : ℤ → Bytes
  user_presence_key user_id = config.key_prefix ++ (codes ":presence:user:" ++ to_string user_id)

  unfoldable pub user_session_key : ℤ → Bytes
  user_session_key user_id = config.key_prefix ++ (codes ":session:user:" ++ to_string user_id)

  unfoldable pub connection_presence_key : Bytes → ℕ → Bytes
  connection_presence_key server_id connection_id =
      config.key_prefix
      ++ (codes ":presence:conn:" ++ (server_id ++ (codes ":" ++ to_string (pos connection_id))))

-- The presence under the key is that of this connection.
unfoldable pub owns_presence : Bytes → Bytes → Bytes → Bytes → Hashes → Bool
owns_presence key server conn token h =
    has key (codes "server_id") server h
    && has key (codes "connection_id") conn h
    && has key (codes "token") token h

-- if HGET(...) == ... then DEL(key)
unfoldable pub del_if : Bool → Bytes → Hashes → Hashes
del_if b key h = if b then erase key h else h

abbrev differs : Bytes → Option Bytes → Bool
differs token none = false
differs token (some old) = not (old == token)

abbrev or_text : Option Bytes → Bytes
or_text none = []
or_text (some text) = text

abbrev both : Option Bytes → Option Bytes → Bool
both none b = false
both (some a) none = false
both (some a) (some b) = true

-- `kBindScript`, its deletions.
unfoldable pub bind_clears : Bytes → Bytes → Bytes → Bytes → Bytes → Bytes → Bytes → Hashes → Hashes
bind_clears user_key conn_key session_key prefix server conn token h =
    let old_server = hget user_key (codes "server_id") h in
    let old_conn = hget user_key (codes "connection_id") h in
    let old_presence_token = hget session_key (codes "token") h in
    let h1 =
      del_if (differs token old_presence_token)
        (prefix ++ (codes ":session:token:" ++ or_text old_presence_token)) h in
    let h2 =
      del_if (both old_server old_conn)
        (prefix
          ++ (codes ":presence:conn:" ++ (or_text old_server ++ (codes ":" ++ or_text old_conn))))
        h1 in
    let old_user = hget conn_key (codes "user_id") h2 in
    let old_token = hget conn_key (codes "token") h2 in
    let old_user_key = prefix ++ (codes ":presence:user:" ++ or_text old_user) in
    del_if
      (both old_user old_token && owns_presence old_user_key server conn (or_text old_token) h2)
      old_user_key h2

-- `kBindScript`
unfoldable pub bind_script : RedisConfig → ℕ → ConnectionSession → ℤ → Hashes → Hashes
bind_script config connection_id session issued_at h =
    let t = token_key config session.token in
    let u = user_presence_key config session.user_id in
    let c = connection_presence_key config config.server_id connection_id in
    let s = user_session_key config session.user_id in
    let conn = to_string (pos connection_id) in
    let h1 = bind_clears u c s config.key_prefix config.server_id conn session.token h in
    let h2 = hset t (codes "issued_at") (to_string issued_at) (
      hset t (codes "username") session.username
        (hset t (codes "user_id") (to_string session.user_id) h1)) in
    let h3 =
      hset u (codes "token") session.token
        (hset u (codes "connection_id") conn (hset u (codes "server_id") config.server_id h2)) in
    let h4 =
      hset c (codes "token") session.token
        (hset c (codes "user_id") (to_string session.user_id) h3) in
    hset s (codes "token") session.token h4

-- `kRefreshScript`: whether it goes on to prolong the keys.
unfoldable pub refresh_script : RedisConfig → ℕ → ConnectionSession → Hashes → Bool
refresh_script config connection_id session h =
    let c = connection_presence_key config config.server_id connection_id in
    owns_presence (user_presence_key config session.user_id) config.server_id
      (to_string (pos connection_id)) session.token h
    && has c (codes "user_id") (to_string session.user_id) h
    && has c (codes "token") session.token h

-- `kClearScript`
unfoldable pub clear_script : RedisConfig → ℕ → ConnectionSession → Hashes → Hashes
clear_script config connection_id session h =
    let u = user_presence_key config session.user_id in
    let h1 = erase (connection_presence_key config config.server_id connection_id) h in
    del_if (owns_presence u config.server_id (to_string (pos connection_id)) session.token h1) u h1

-- `kRevokeScript`
unfoldable pub revoke_script : RedisConfig → ℕ → ConnectionSession → Hashes → Hashes
unfolding clear_script
revoke_script config connection_id session h =
    let s = user_session_key config session.user_id in
    let h1 = erase (token_key config session.token) h in
    let h2 = del_if (has s (codes "token") session.token h1) s h1 in
    clear_script config connection_id session h2

unfoldable pub is_valid_session : ConnectionSession → Bool
is_valid_session session =
    session.authenticated
    && not (le_zero session.user_id)
    && not (is_empty session.username)
    && (Validator.token session.token).valid

-- A command that Redis answers, or one that fails.
module _ (config : RedisConfig) (reached : Bool) where
  abbrev run_script : Bool → Hashes → Hashes → Bool × Hashes
  run_script ok after h = if ok && reached then (true, after) else (false, h)

  unfoldable pub store_bind : ℕ → ConnectionSession → ℤ → Hashes → Bool × Hashes
  store_bind connection_id session issued_at h =
      run_script
        (not (connection_id == 0) && not (int_ltb issued_at (pos 0)) && is_valid_session session)
        (bind_script config connection_id session issued_at h) h

  unfoldable pub store_refresh : ℕ → ConnectionSession → Hashes → Bool × Hashes
  store_refresh connection_id session h =
      run_script
        (not (connection_id == 0)
          && is_valid_session session
          && refresh_script config connection_id session h)
        h h

  unfoldable pub store_clear_presence : ℕ → ConnectionSession → Hashes → Bool × Hashes
  store_clear_presence connection_id session h =
      run_script (not (connection_id == 0) && is_valid_session session)
        (clear_script config connection_id session h) h

  unfoldable pub store_revoke_session : ℕ → ConnectionSession → Hashes → Bool × Hashes
  store_revoke_session connection_id session h =
      run_script (not (connection_id == 0) && is_valid_session session)
        (revoke_script config connection_id session h) h

  unfoldable pub store_revoke_token : Bytes → Hashes → Bool × Hashes
  store_revoke_token token h =
      run_script (Validator.token token).valid (erase (token_key config token) h) h

  -- The values that were read and what they are worth; a malformed hash is deleted.
  abbrev pub token_parsed :
      Bytes → Bytes → Option ℤ → Option ℤ → Hashes → Option StoredSessionToken × Hashes
  token_parsed key username (some user_id) (some issued_at) h =
      if le_zero user_id || is_empty username || int_ltb issued_at (pos 0)
      then (none, erase key h)
      else (some (record { user_id = user_id; username = username; issued_at = issued_at }), h)
  token_parsed key username user_id issued_at h = (none, erase key h)

  abbrev pub token_of :
      Bytes
      → Option Bytes
      → Option Bytes
      → Option Bytes
      → Hashes
      → Option StoredSessionToken × Hashes
  token_of key (some user) (some username) (some issued) h =
      token_parsed key username (parse_integer user) (parse_integer issued) h
  token_of key user username issued h = (none, h)

  unfoldable pub store_get_token : Bytes → Hashes → Option StoredSessionToken × Hashes
  store_get_token token h =
      let key = token_key config token in
      if (Validator.token token).valid && reached
      then token_of key (hget key (codes "user_id") h) (hget key (codes "username") h)
          (hget key (codes "issued_at") h) h
      else (none, h)

  abbrev pub presence_parsed :
      Bytes → Bytes → Bytes → Option ℤ → Hashes → Option StoredUserPresence × Hashes
  presence_parsed key server token (some (pos connection_id)) h =
      if is_empty server || connection_id == 0 || not (Validator.token token).valid
      then (none, erase key h)
      else (some (record { server_id = server; connection_id = connection_id; token = token }), h)
  presence_parsed key server token connection_id h = (none, erase key h)

  abbrev pub presence_of :
      Bytes
      → Option Bytes
      → Option Bytes
      → Option Bytes
      → Hashes
      → Option StoredUserPresence × Hashes
  presence_of key (some server) (some conn) (some token) h =
      presence_parsed key server token (parse_integer conn) h
  presence_of key server conn token h = (none, h)

  unfoldable pub store_get_presence : ℤ → Hashes → Option StoredUserPresence × Hashes
  store_get_presence user_id h =
      let key = user_presence_key config user_id in
      if not (le_zero user_id) && reached
      then presence_of key (hget key (codes "server_id") h) (hget key (codes "connection_id") h)
          (hget key (codes "token") h) h
      else (none, h)
