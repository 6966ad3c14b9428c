-- ===== src/Service/Friend.antt =====
-- `FriendService` (src/service/friend_service.cc).
pub mod Checks
pub mod Laws
mod Tests
use linux_server.Base.{
  ℕ, Bool, true, false, not, ◌&&◌, ◌||◌, List, Option, none, some, Bytes, codes, ℤ, pos, le_zero,
  ◌==◌, int_eq, if◌then◌else◌,
}
use linux_server.Model.Status.{
  ErrorCode, invalid_param, cannot_send_to_self, user_not_found, friendship_already_exists,
  friendship_blocked, friend_request_already_exists, friend_request_not_found, friendship_not_found,
  RepositoryStatus, is_ok, is_not_found, is_duplicate,
}
use linux_server.Model.Records.{FriendshipRecord, FriendshipListItem, FriendshipStatus}
use linux_server.Session.Manager.{ConnectionSession, SessionManager}
use linux_server.Service.Exec.{Exec, pure, refuse, call, check, ◌>>=◌, ◌>>◌}
use linux_server.Service.Interfaces.{
  FindUserResult, UserRepository, FriendRepository, FindFriendshipResult, CreateFriendshipResult,
  UpdateFriendshipResult,
}
use linux_server.Service.Common.{map_repository_error, require_session}

pub record FriendService (W : Type 0) : Type 0 where
  pub friend_repository : FriendRepository W
  pub user_repository : UserRepository W

-- The fields of a `FriendshipActionResult` with code `OK`.
pub record FriendshipActionResult : Type 0 where
  pub friendship : Option FriendshipRecord
  pub friend_user_id : ℤ
  pub deleted : Bool

abbrev pub has_value : {A : Type 0} → Option A → Bool
has_value none = false
has_value (some a) = true

-- `ValidateUserExists`, on what `findById` answers.
unfoldable pub validate_user_exists :
    {W : Type 0} → Bytes → Bytes → FindUserResult → Exec W (Unit {0})
validate_user_exists missing_message query_failed_message user = do
  check (not (is_not_found user.status || (is_ok user.status && not (has_value user.user))))
      user_not_found missing_message
  check (is_ok user.status) (map_repository_error user.status) query_failed_message

unfoldable pub existing_friendship_error : {W A : Type 0} → FriendshipStatus → Exec W A
existing_friendship_error FriendshipStatus.accepted =
    refuse friendship_already_exists (codes "friendship already exists")
existing_friendship_error FriendshipStatus.blocked =
    refuse friendship_blocked (codes "friendship is blocked")
existing_friendship_error FriendshipStatus.pending =
    refuse friend_request_already_exists (codes "friend request already exists")

unfoldable pub require_no_friendship : {W : Type 0} → FindFriendshipResult → Exec W (Unit {0})
require_no_friendship existing = elim existing.friendship [
  | none ↦
      check (is_not_found existing.status) (map_repository_error existing.status)
        (codes "query friendship failed")
  | some friendship ↦
      if is_ok existing.status
      then existing_friendship_error friendship.status
      else check (is_not_found existing.status) (map_repository_error existing.status)
          (codes "query friendship failed")
]

unfoldable pub accept_created : {W : Type 0} → CreateFriendshipResult → Exec W FriendshipRecord
accept_created created = do
  check (not (is_duplicate created.status)) friend_request_already_exists
      (codes "friend request already exists")
  elim created.friendship [
    | none ↦ refuse (map_repository_error created.status) (codes "create friend request failed")
    | some friendship ↦
        if is_ok created.status
        then pure friendship
        else refuse (map_repository_error created.status) (codes "create friend request failed")
  ]

unfoldable pub add_friend :
    {W : Type 0} → FriendService W → SessionManager → ℕ → ℤ → Exec W FriendshipActionResult
add_friend service sessions conn_id target_user_id = do
  check (not (le_zero target_user_id)) invalid_param (codes "target_user_id must be greater than 0")
  session ← require_session sessions conn_id
  check (not (target_user_id == session.user_id)) cannot_send_to_self
      (codes "cannot add yourself as friend")
  user ← call (service.user_repository.find_by_id target_user_id)
  validate_user_exists (codes "target user not found") (codes "query target user failed") user
  existing ← call (service.friend_repository.find_friendship session.user_id target_user_id)
  require_no_friendship existing
  created ← call (service.friend_repository.create_friend_request session.user_id target_user_id)
  friendship ← accept_created created
  pure (record { friendship = some friendship; friend_user_id = target_user_id; deleted = false })

-- A request from the one user to the other that waits for an answer.
unfoldable pub require_request : {W : Type 0} → ℤ → ℤ → Option FriendshipRecord → Exec W (Unit {0})
require_request requester addressee none =
    refuse friend_request_not_found (codes "friend request not found")
require_request requester addressee (some f) = elim f.status [
  | FriendshipStatus.accepted ↦ refuse friendship_already_exists (codes "friendship already exists")
  | FriendshipStatus.blocked ↦ refuse friendship_blocked (codes "friendship is blocked")
  | FriendshipStatus.pending ↦
      check (f.requester_id == requester && f.addressee_id == addressee) friend_request_not_found
        (codes "friend request not found")
]

unfoldable pub accept_updated : {W : Type 0} → UpdateFriendshipResult → Exec W FriendshipRecord
accept_updated accepted = do
  check (not (is_not_found accepted.status)) friend_request_not_found
      (codes "friend request not found")
  check (is_ok accepted.status) (map_repository_error accepted.status)
      (codes "accept friend request failed")
  elim accepted.friendship [
    | none ↦ refuse friend_request_not_found (codes "friend request not found")
    | some friendship ↦ pure friendship
  ]

unfoldable pub accept_friend :
    {W : Type 0} → FriendService W → SessionManager → ℕ → ℤ → Exec W FriendshipActionResult
accept_friend service sessions conn_id requester = do
  check (not (le_zero requester)) invalid_param (codes "requester_user_id must be greater than 0")
  session ← require_session sessions conn_id
  check (not (requester == session.user_id)) cannot_send_to_self
      (codes "cannot accept your own friend request")
  user ← call (service.user_repository.find_by_id requester)
  validate_user_exists (codes "requester user not found") (codes "query requester user failed") user
  existing ← call (service.friend_repository.find_friendship requester session.user_id)
  check (not (is_not_found existing.status)) friend_request_not_found
      (codes "friend request not found")
  check (is_ok existing.status) (map_repository_error existing.status)
      (codes "query friendship failed")
  require_request requester session.user_id existing.friendship
  accepted ← call (service.friend_repository.accept_friend_request requester session.user_id)
  friendship ← accept_updated accepted
  pure (record { friendship = some friendship; friend_user_id = requester; deleted = false })

unfoldable pub delete_friend :
    {W : Type 0} → FriendService W → SessionManager → ℕ → ℤ → Exec W FriendshipActionResult
delete_friend service sessions conn_id friend = do
  check (not (le_zero friend)) invalid_param (codes "friend_user_id must be greater than 0")
  session ← require_session sessions conn_id
  check (not (friend == session.user_id)) cannot_send_to_self
      (codes "cannot delete yourself as friend")
  deleted ← call (service.friend_repository.delete_friendship session.user_id friend)
  check (not (is_not_found deleted.status)) friendship_not_found (codes "friendship not found")
  check (is_ok deleted.status) (map_repository_error deleted.status)
      (codes "delete friendship failed")
  check (not (deleted.affected_rows == pos 0)) friendship_not_found (codes "friendship not found")
  pure (record { friendship = none; friend_user_id = friend; deleted = true })

unfoldable pub list_friends :
    {W : Type 0} → FriendService W → SessionManager → ℕ → Exec W (List FriendshipListItem)
list_friends service sessions conn_id = do
  session ← require_session sessions conn_id
  list ← call (service.friend_repository.list_friendships session.user_id)
  check (is_ok list.status) (map_repository_error list.status) (codes "list friends failed")
  pure list.friends
