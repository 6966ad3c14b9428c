-- ===== src/Session/Manager.antt =====
-- `SessionManager` (src/server/session_manager.cc): the two maps between users and connections of
-- this process. Each method holds `mutex_`, so it is one step.
pub mod Refinement
mod Tests
use linux_server.Base.{
  ℕ, Bool, true, false, not, ◌||◌, List, [], ◌∷◌, ◌++◌, Option, none, some, Bytes, is_empty, last?,
  ℤ, le_zero, Map, lookup, insert, erase, ◌==◌, int_eq, nat_eq, if◌then◌else◌,
}

pub record ConnectionSession : Type 0 where
  pub authenticated : Bool
  pub user_id : ℤ
  pub username : Bytes
  pub token : Bytes

pub record SessionManager : Type 0 where
  pub user_to_connections : Map ℤ (List ℕ)
  pub connection_to_session : Map ℕ ConnectionSession

abbrev pub empty : SessionManager
empty = record { user_to_connections = []; connection_to_session = [] }

-- std::find(...) != end()
unfoldable pub contains : ℕ → List ℕ → Bool
contains a [] = false
contains a (x ∷ xs) = x == a || contains a xs

-- erase(std::remove(...), end())
unfoldable pub remove : ℕ → List ℕ → List ℕ
remove a [] = []
remove a (x ∷ xs) = let rest = remove a xs in if x == a then rest else x ∷ rest

-- `map[key]` on vectors: a missing key is given an empty vector.
abbrev pub or_empty : Option (List ℕ) → List ℕ
or_empty none = []
or_empty (some xs) = xs

-- Takes a connection off the list of its user; a user with no connection left has no entry.
unfoldable pub detach : ℕ → Option ConnectionSession → Map ℤ (List ℕ) → Map ℤ (List ℕ)
detach connection_id none users = users
detach connection_id (some session) users =
    let connections = remove connection_id (or_empty (lookup session.user_id users)) in
    if is_empty connections
    then erase session.user_id users
    else insert session.user_id connections users

-- Puts a connection at the end of the list of a user, unless it is there.
unfoldable pub attach : ℕ → ℤ → Map ℤ (List ℕ) → Map ℤ (List ℕ)
attach connection_id user_id users =
    let connections = or_empty (lookup user_id users) in
    insert user_id
      (if contains connection_id connections
        then connections
        else connections ++ connection_id ∷ [])
      users

-- The first test of BindSession, negated.
abbrev pub can_bind : ConnectionSession → Bool
can_bind session =
    not (not session.authenticated || le_zero session.user_id || is_empty session.username)

unfoldable pub bind_session : SessionManager → ℕ → ConnectionSession → SessionManager × Bool
bind_session m connection_id session =
    if can_bind session
    then (
      record {
        user_to_connections = attach connection_id session.user_id (
            detach connection_id (lookup connection_id m.connection_to_session)
              m.user_to_connections);
        connection_to_session = insert connection_id session m.connection_to_session;
      },
      true,
    )
    else (m, false)

unfoldable pub get_connection_ids : SessionManager → ℤ → List ℕ
get_connection_ids m user_id = or_empty (lookup user_id m.user_to_connections)

unfoldable pub get_connection_id : SessionManager → ℤ → Option ℕ
get_connection_id m user_id = last? (or_empty (lookup user_id m.user_to_connections))

unfoldable pub get_session : SessionManager → ℕ → Option ConnectionSession
get_session m connection_id = lookup connection_id m.connection_to_session

clear_found : SessionManager → ℕ → Option ConnectionSession → SessionManager
clear_found m connection_id none = m
clear_found m connection_id (some session) = record {
  user_to_connections = detach connection_id (some session) m.user_to_connections;
  connection_to_session = erase connection_id m.connection_to_session;
}

unfoldable pub clear_session : SessionManager → ℕ → SessionManager
unfolding clear_found
clear_session m connection_id =
    clear_found m connection_id (lookup connection_id m.connection_to_session)
