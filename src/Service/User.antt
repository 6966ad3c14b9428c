-- ===== src/Service/User.antt =====
-- `UserService` (src/service/user_service.cc). What `getrandom` gives is an argument, `none` where
-- it fails; bcrypt is behind the `PasswordHasher` interface.
pub mod Answering
pub mod Laws
mod Tests
use linux_server.Base.{
  ℕ, Bool, true, false, not, ◌&&◌, ◌||◌, [], Option, none, some, Bytes, codes, is_empty, hex_bytes,
  ℤ, ◌==◌, int_eq, list_eq, nat_eq, if◌then◌else◌,
}
use linux_server.Model.Status.{
  ErrorCode, invalid_param, rate_limited, user_already_exists, user_not_found, db_query_failed,
  db_insert_failed, invalid_credentials, internal_error, RepositoryStatus, status_ok, not_found,
  query_failed, duplicate, insert_failed, connection_unavailable, borrow_timeout, is_ok,
  is_not_found, is_duplicate,
}
use linux_server.Model.Records.{UserRecord, RedisConfig, StoredSessionToken}
use linux_server.Session.Manager
use linux_server.Session.Manager.{ConnectionSession, SessionManager, get_session}
use linux_server.Validation.Validator
use linux_server.Validation.Validator.{
  ValidationResult, register_password, login_password, nickname,
}
use linux_server.Service.Exec.{Exec, pure, refuse, refuse_until, call, check, ◌>>=◌, ◌>>◌}
use linux_server.Service.Interfaces.{
  FindUserResult, UserRepository, CreateUserResult, RateLimiter, GlobalSessionStore, PasswordHasher,
}

pub record UserService (W : Type 0) : Type 0 where
  pub user_repository : UserRepository W
  pub global_session_store : Option (GlobalSessionStore W)
  pub rate_limiter : Option (RateLimiter W)
  pub redis_config : RedisConfig
  pub password_hasher : PasswordHasher W

pub record RegisterRequest : Type 0 where
  pub username : Bytes
  pub password : Bytes
  pub nickname : Bytes

pub record LoginRequest : Type 0 where
  pub username : Bytes
  pub password : Bytes

pub record LoginResult : Type 0 where
  pub user_id : ℤ
  pub nickname : Bytes
  pub token : Bytes
  pub session : ConnectionSession

-- kQueryFailed, kConnectionUnavailable and kBorrowTimeout
abbrev pub is_query_error : RepositoryStatus → Bool
is_query_error query_failed = true
is_query_error connection_unavailable = true
is_query_error borrow_timeout = true
is_query_error _ = false

-- kInsertFailed, kConnectionUnavailable and kBorrowTimeout
abbrev is_insert_error : RepositoryStatus → Bool
is_insert_error insert_failed = true
is_insert_error connection_unavailable = true
is_insert_error borrow_timeout = true
is_insert_error _ = false

abbrev require_valid : {W : Type 0} → ValidationResult → Exec W (Unit {0})
require_valid v = check v.valid invalid_param v.message

unfoldable pub validate_register_request : {W : Type 0} → RegisterRequest → Exec W (Unit {0})
validate_register_request req = do
  require_valid (Validator.username req.username)
  require_valid (register_password req.password)
  require_valid (nickname req.nickname)

unfoldable pub validate_login_request : {W : Type 0} → LoginRequest → Exec W (Unit {0})
validate_login_request req = do
  require_valid (Validator.username req.username)
  require_valid (login_password req.password)

-- The limit that both calls ask for, which an unknown identity is free of.
unfoldable pub limit_identity :
    {W : Type 0} → Option (RateLimiter W) → Bytes → Bytes → Bytes → ℕ → ℕ → Exec W (Unit {0})
limit_identity none scope text identity limit window = pure tt
limit_identity (some limiter) scope text identity limit window =
    if is_empty identity
    then pure tt
    else (call (limiter.allow scope identity limit window) >>= λ result.
        if result.allowed
        then pure tt
        else refuse_until rate_limited text result.retry_after_seconds)

unfoldable pub require_free_name : {W : Type 0} → FindUserResult → Exec W (Unit {0})
require_free_name found = do
  check (not (is_ok found.status)) user_already_exists (codes "username already exists")
  check (not (is_query_error found.status)) db_query_failed (codes "query user failed")
  check (is_not_found found.status) internal_error (codes "unexpected repository status")

unfoldable pub accept_created_user : {W : Type 0} → CreateUserResult → Exec W ℤ
accept_created_user created = do
  check (not (is_duplicate created.status)) user_already_exists (codes "username already exists")
  check (not (is_insert_error created.status)) db_insert_failed (codes "create user failed")
  check (is_ok created.status) internal_error (codes "unexpected repository status")
  pure created.user_id

abbrev present_or : {W A : Type 0} → ErrorCode → Bytes → Option A → Exec W A
present_or code text none = refuse code text
present_or code text (some a) = pure a

unfoldable pub register_user : {W : Type 0} → UserService W → RegisterRequest → Bytes → Exec W ℤ
register_user service req identity = do
  validate_register_request req
  limit_identity service.rate_limiter (codes "register") (codes "register rate limit exceeded")
      identity service.redis_config.register_rate_limit
      service.redis_config.register_rate_window_seconds
  found ← call (service.user_repository.find_by_username req.username)
  require_free_name found
  hashed ← call (service.password_hasher.hash req.password)
  password_hash ← present_or internal_error (codes "password hashing failed") hashed
  created ← call (service.user_repository.create_user req.username password_hash req.nickname)
  accept_created_user created

unfoldable pub require_user_record : {W : Type 0} → FindUserResult → Exec W UserRecord
require_user_record found = do
  check (not (is_query_error found.status)) db_query_failed (codes "query user failed")
  check (not (is_not_found found.status)) invalid_credentials (codes "invalid username or password")
  check (is_ok found.status) internal_error (codes "unexpected repository result")
  present_or internal_error (codes "unexpected repository result") found.user

abbrev upgrade_failed : {W : Type 0} → Bool → Exec W (Unit {0})
upgrade_failed stored = check stored internal_error (codes "credential upgrade failed")

-- A hash of an old form is replaced.
unfoldable pub upgrade_hash : {W : Type 0} → UserService W → Bytes → UserRecord → Exec W (Unit {0})
upgrade_hash service password user =
    let upgrade = (do
      hashed ← call (service.password_hasher.hash password)
      upgraded ← present_or internal_error (codes "credential upgrade failed") hashed
      updated ← call (service.user_repository.update_password_hash user.id upgraded)
      upgrade_failed (is_ok updated)) in
    if service.password_hasher.needs_rehash user.password_hash then upgrade else pure tt

unfoldable pub generate_token : Option Bytes → Bytes
generate_token none = []
generate_token (some bytes) = hex_bytes bytes

unfoldable pub login :
    {W : Type 0} → UserService W → LoginRequest → Bytes → Option Bytes → Exec W LoginResult
login service req identity random = do
  validate_login_request req
  limit_identity service.rate_limiter (codes "login") (codes "login rate limit exceeded") identity
      service.redis_config.login_rate_limit service.redis_config.login_rate_window_seconds
  found ← call (service.user_repository.find_by_username req.username)
  user ← require_user_record found
  check (service.password_hasher.verify req.password user.password_hash) invalid_credentials
      (codes "invalid username or password")
  upgrade_hash service req.password user
  let token = generate_token random
  check (not (is_empty token)) internal_error (codes "generate token failed")
  pure (record {
    user_id = user.id;
    nickname = user.nickname;
    token = token;
    session = record {
      authenticated = true;
      user_id = user.id;
      username = user.username;
      token = token;
    };
  })

abbrev token_session : Bytes → StoredSessionToken → ConnectionSession
token_session token stored = record {
  authenticated = true;
  user_id = stored.user_id;
  username = stored.username;
  token = token;
}

unfoldable pub resume_session : {W : Type 0} → UserService W → Bytes → Exec W ConnectionSession
resume_session service token = elim service.global_session_store [
  | none ↦ refuse invalid_credentials (codes "invalid or expired token")
  | some store ↦ do
    check (Validator.token token).valid invalid_credentials (codes "invalid or expired token")
    found ← call (store.get_token token)
    stored ← present_or invalid_credentials (codes "invalid or expired token") found
    pure (token_session token stored)
]
