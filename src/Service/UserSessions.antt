-- ===== src/Service/UserSessions.antt =====
-- What `UserService` (src/service/user_service.cc) does with the sessions of connections.
pub mod Laws
use linux_server.Base.{
  ℕ, Bool, true, false, not, ◌&&◌, ◌||◌, [], Option, none, some, Bytes, codes, is_empty, hex_bytes,
  ℤ, ◌==◌, int_eq, list_eq, nat_eq, if◌then◌else◌,
}
use linux_server.Model.Status.{
  ErrorCode, invalid_param, rate_limited, user_already_exists, user_not_found, db_query_failed,
  db_insert_failed, invalid_credentials, internal_error, RepositoryStatus, status_ok, not_found,
  query_failed, duplicate, insert_failed, connection_unavailable, borrow_timeout, is_ok,
  is_not_found, is_duplicate,
}
use linux_server.Model.Records.{UserRecord, RedisConfig, StoredSessionToken}
use linux_server.Session.Manager.{ConnectionSession, SessionManager, get_session}
use linux_server.Validation.Validator.{
  ValidationResult, register_password, login_password, nickname,
}
use linux_server.Service.Exec.{Exec, pure, refuse, refuse_until, call, check, ◌>>=◌, ◌>>◌}
use linux_server.Service.Interfaces.{
  FindUserResult, UserRepository, CreateUserResult, RateLimiter, GlobalSessionStore, PasswordHasher,
}
use linux_server.Service.User.{UserService}
use linux_server.Session.Manager
use linux_server.Validation.Validator

abbrev stored_for : ConnectionSession → Option StoredSessionToken → Bool
stored_for session none = false
stored_for session (some stored) =
    stored.user_id == session.user_id && stored.username == session.username

abbrev session_has : Bytes → Option ConnectionSession → Bool
session_has token none = false
session_has token (some session) = session.authenticated && session.token == token

unfoldable pub request_token_matches :
    {W : Type 0} → UserService W → SessionManager → ℕ → Bytes → W → Bool × W
request_token_matches service sessions conn_id token w =
    if not (Validator.token token).valid
    then (false, w)
    else if not (session_has token (get_session sessions conn_id))
    then (false, w)
    else elim service.global_session_store [
      | none ↦ (true, w)
      | some store ↦
          let (found, w1) = store.get_token token w in
          elim (get_session sessions conn_id) [
            | none ↦ (false, w1)
            | some session ↦ (stored_for session found, w1)
          ]
    ]

abbrev logged_in : {W : Type 0} → Option ConnectionSession → Exec W (Unit {0})
logged_in none = refuse user_not_found (codes "user not logged in")
logged_in (some session) = pure tt

unfoldable pub logout : {W : Type 0} → SessionManager → ℕ → Exec W (Unit {0})
logout sessions conn_id = logged_in (get_session sessions conn_id)

abbrev pub who : {W : Type 0} → Option ConnectionSession → Exec W ConnectionSession
who none = refuse user_not_found (codes "user not logged in")
who (some session) =
    if session.authenticated
    then pure session
    else refuse user_not_found (codes "user not logged in")

unfoldable pub whoami : {W : Type 0} → SessionManager → ℕ → Exec W ConnectionSession
whoami sessions conn_id = who (get_session sessions conn_id)

-- What the store behind the sessions is told; its answers are not looked at.
abbrev tell :
    {W : Type 0} → Option (GlobalSessionStore W) → (GlobalSessionStore W → W → Bool × W) → W → W
tell none f w = w
tell (some store) f w = (f store w).1

unfoldable pub bind_session :
    {W : Type 0}
    → UserService W
    → SessionManager
    → ℕ
    → ConnectionSession
    → ℤ
    → W
    → SessionManager × W
bind_session service sessions conn_id session now w =
    let (bound, accepted) = Manager.bind_session sessions conn_id session in
    (
      bound,
      if accepted
          then tell service.global_session_store (λ store. store.bind conn_id session now) w
          else w,
    )

unfoldable pub logout_session :
    {W : Type 0} → UserService W → SessionManager → ℕ → W → SessionManager × W
logout_session service sessions conn_id w = elim (get_session sessions conn_id) [
  | none ↦ (sessions, w)
  | some session ↦ (
    Manager.clear_session sessions conn_id,
    tell service.global_session_store (λ store. store.revoke_session conn_id session) w,
  )
]

unfoldable pub clear_session :
    {W : Type 0} → UserService W → SessionManager → ℕ → W → SessionManager × W
clear_session service sessions conn_id w = elim (get_session sessions conn_id) [
  | none ↦ (sessions, w)
  | some session ↦ (
    Manager.clear_session sessions conn_id,
    tell service.global_session_store (λ store. store.clear_presence conn_id session) w,
  )
]

unfoldable pub refresh_presence : {W : Type 0} → UserService W → SessionManager → ℕ → W → W
refresh_presence service sessions conn_id w = elim (get_session sessions conn_id) [
  | none ↦ w
  | some session ↦ tell service.global_session_store (λ store. store.refresh conn_id session) w
]

abbrev pub session_of : ℤ → Option ConnectionSession → Bool
session_of user_id none = false
session_of user_id (some session) = session.authenticated && session.user_id == user_id

unfoldable pub is_connection_bound_to_user : SessionManager → ℕ → ℤ → Bool
is_connection_bound_to_user sessions conn_id user_id =
    session_of user_id (get_session sessions conn_id)
