-- ===== src/Service/Common.antt =====
-- Helpers that the services declare each for itself (src/service/chat_service.cc,
-- friend_service.cc, group_service.cc).
use linux_server.Base.{ℕ, ◌≡◌, refl, Option, none, some, codes, if◌then◌else◌}
use linux_server.Model.Status.{
  ErrorCode, db_insert_failed, db_query_failed, internal_error, not_logged_in, RepositoryStatus,
  status_ok, not_found, query_failed, duplicate, insert_failed, connection_unavailable,
  borrow_timeout,
}
use linux_server.Session.Manager.{ConnectionSession, SessionManager, get_session}
use linux_server.Service.Exec.{
  Exec, answered, pure, refuse, refuse-ne-answered, refused-ne-answered, ◌>>=◌,
}

-- `MapRepositoryError` of the chat and friend services.
unfoldable pub map_repository_error : RepositoryStatus → ErrorCode
map_repository_error insert_failed = db_insert_failed
map_repository_error duplicate = db_insert_failed
map_repository_error query_failed = db_query_failed
map_repository_error connection_unavailable = db_query_failed
map_repository_error borrow_timeout = db_query_failed
map_repository_error not_found = db_query_failed
map_repository_error status_ok = internal_error

abbrev authenticated_only : Option ConnectionSession → Option ConnectionSession
authenticated_only none = none
authenticated_only (some session) = if session.authenticated then some session else none

-- `GetAuthenticatedSession`
unfoldable pub get_authenticated_session : SessionManager → ℕ → Option ConnectionSession
get_authenticated_session sessions conn_id = authenticated_only (get_session sessions conn_id)

abbrev pub or_not_logged_in : {W : Type 0} → Option ConnectionSession → Exec W ConnectionSession
or_not_logged_in none = refuse not_logged_in (codes "User not logged in")
or_not_logged_in (some session) = pure session

-- The session of the caller, or the refusal that every service starts with.
unfoldable pub require_session : {W : Type 0} → SessionManager → ℕ → Exec W ConnectionSession
unfolding get_authenticated_session
require_session sessions conn_id = or_not_logged_in (get_authenticated_session sessions conn_id)

pub require_session_inv :
    {W : Type 0} (sessions : SessionManager) (conn_id : ℕ) (w : W) (s : ConnectionSession)
    → (require_session sessions conn_id w).0 ≡ answered s
    → (get_authenticated_session sessions conn_id ≡ some s)
      × ((require_session sessions conn_id w).1 ≡ w)
unfolding require_session
require_session_inv sessions conn_id w s e =
    from_option (get_authenticated_session sessions conn_id) e
  where
    from_option :
        (o : Option ConnectionSession)
        → (or_not_logged_in o w).0 ≡ answered s
        → (o ≡ some s) × ((or_not_logged_in o w).1 ≡ w)
    from_option none e =
        absurd (refuse-ne-answered not_logged_in (codes "User not logged in") w s e)
    from_option (some t) e = (cc e, refl)

pub session_then :
    {W B : Type 0} (sessions : SessionManager) (conn_id : ℕ) (f : ConnectionSession → Exec W B)
    (w v : W) (r : B)
    → (require_session sessions conn_id >>= f) w ≡ (answered r, v)
    → (s : ConnectionSession) × (get_authenticated_session sessions conn_id ≡ some s)
      × (f s w ≡ (answered r, v))
unfolding require_session ◌>>=◌
session_then sessions conn_id f w v r e = from_option (get_authenticated_session sessions conn_id) e
  where
    from_option :
        (o : Option ConnectionSession)
        → (or_not_logged_in o >>= f) w ≡ (answered r, v)
        → (s : ConnectionSession) × (o ≡ some s) × (f s w ≡ (answered r, v))
    from_option none e = absurd (refused-ne-answered _ _ v r e)
    from_option (some s) e = (s, refl, e)
