-- ===== src/Service/Group.antt =====
-- `GroupService` (src/service/group_service.cc). `std::hash<std::string>`, which the standard
-- leaves open, is the parameter `hash`; what `getrandom` gives is an argument.
pub mod Ids
pub mod Members
pub mod Reading
pub mod Adding
pub mod Creating
mod Tests
use linux_server.Base.{
  ℕ, zero, suc, Bool, true, false, not, ◌&&◌, ◌||◌, List, [], ◌∷◌, ◌++◌, Option, none, some, Bytes,
  codes, length, is_empty, ltb, ℤ, pos, le_zero, ◌==◌, int_eq, list_eq, nat_eq, if◌then◌else◌,
}
use linux_server.Model.Status.{
  ErrorCode, invalid_param, user_not_found, internal_error, db_insert_failed, db_query_failed,
  group_not_found, group_member_already_exists, permission_denied, message_too_long,
  idempotency_conflict, RepositoryStatus, status_ok, not_found, query_failed, duplicate,
  insert_failed, connection_unavailable, borrow_timeout, is_ok, is_not_found, is_duplicate,
}
use linux_server.Model.Records.{
  GroupRecord, GroupMemberRecord, MessageRecord, stored, to_protocol_message_status,
}
use linux_server.Session.Manager.{ConnectionSession, SessionManager, get_connection_id}
use linux_server.Validation.Validator
use linux_server.Validation.Validator.{
  nickname, client_message_id, message_content, message_max_bytes,
}
use linux_server.Service.Exec.{Exec, pure, refuse, call, check, ◌>>=◌, ◌>>◌}
use linux_server.Service.Interfaces.{
  FindUserResult, UserRepository, MessageRepository, CreateMessageResult, GroupRepository,
  GroupRepositoryFindResult, GroupRepositoryCreateResult, GroupRepositoryAddMemberResult,
}
use linux_server.Service.Common.{require_session}
use linux_server.Service.Chat.{is_same_idempotent_message}
use linux_server.Service.Ids.{Draw}
use linux_server.Service.Group.Ids.{
  build_group_id, build_group_conversation_id, build_group_message_id,
  build_recipient_client_message_id,
}

pub record GroupService (W : Type 0) : Type 0 where
  pub group_repository : GroupRepository W
  pub message_repository : MessageRepository W
  pub user_repository : UserRepository W

abbrev pub max_initial_group_members : ℕ
max_initial_group_members = 50

-- `MapRepositoryError` of the group service.
unfoldable pub map_group_error : RepositoryStatus → ErrorCode
map_group_error duplicate = group_member_already_exists
map_group_error insert_failed = db_insert_failed
map_group_error query_failed = db_query_failed
map_group_error connection_unavailable = db_query_failed
map_group_error borrow_timeout = db_query_failed
map_group_error not_found = db_query_failed
map_group_error status_ok = internal_error

unfoldable pub role_can_manage_members : Bytes → Bool
role_can_manage_members role = role == codes "owner" || role == codes "admin"

unfoldable pub find_member : ℤ → List GroupMemberRecord → Option GroupMemberRecord
find_member user_id [] = none
find_member user_id (m ∷ ms) =
    let rest = find_member user_id ms in if m.user_id == user_id then some m else rest

abbrev pub has_value : {A : Type 0} → Option A → Bool
has_value none = false
has_value (some a) = true

abbrev pub member_of : ℤ → List ℤ → Bool
member_of x [] = false
member_of x (y ∷ ys) = y == x || member_of x ys

-- The ids in order of first occurrence behind `unique`, or nothing where one is not positive;
-- `seen` of the source has the same elements.
unfoldable pub unique_members : List ℤ → List ℤ → Option (List ℤ)
unique_members unique [] = some unique
unique_members unique (m ∷ ms) =
    let old = unique_members unique ms in
    let new = unique_members (unique ++ m ∷ []) ms in
    if le_zero m then none else if member_of m unique then old else new

abbrev present_or : {W A : Type 0} → ErrorCode → Bytes → Option A → Exec W A
present_or code text none = refuse code text
present_or code text (some a) = pure a

-- `UserExists` and the refusal of the two callers.
unfoldable pub require_user : {W : Type 0} → Bytes → FindUserResult → Exec W (Unit {0})
require_user missing user =
    check (is_ok user.status && has_value user.user)
      (if is_not_found user.status then user_not_found else map_group_error user.status) missing

unfoldable pub require_users : {W : Type 0} → UserRepository W → List ℤ → Exec W (Unit {0})
require_users users [] = pure tt
require_users users (m ∷ ms) = do
  user ← call (users.find_by_id m)
  require_user (codes "group member not found") user
  require_users users ms

pub record CreateGroupRequest : Type 0 where
  pub name : Bytes
  pub member_ids : List ℤ

pub record CreateGroupResult : Type 0 where
  pub group : GroupRecord
  pub member_ids : List ℤ

unfoldable pub group_members : Bytes → ℤ → List ℤ → List GroupMemberRecord
group_members group_id owner [] = []
group_members group_id owner (m ∷ ms) =
    record {
      group_id = group_id;
      user_id = m;
      role = if m == owner then codes "owner" else codes "member";
      joined_at = [];
    }
    ∷ group_members group_id owner ms

abbrev pub new_group : Bytes → Bytes → ℤ → GroupRecord
new_group id name owner = record {
  id = id;
  name = name;
  owner_id = owner;
  conversation_id = build_group_conversation_id id;
  created_at = [];
  updated_at = [];
}

-- A stored record, or the refusal.
abbrev pub stored_or : {W A : Type 0} → RepositoryStatus → Bytes → Option A → Exec W A
stored_or status text value = do
  check (is_ok status && has_value value) (map_group_error status) text
  present_or (map_group_error status) text value

unfoldable pub create_group :
    {W : Type 0}
    → GroupService W
    → SessionManager
    → ℕ
    → CreateGroupRequest
    → Option Bytes
    → Exec W CreateGroupResult
create_group service sessions conn_id req random = do
  session ← require_session sessions conn_id
  let name_validation = nickname req.name
  check name_validation.valid invalid_param name_validation.message
  check (not (ltb max_initial_group_members (length req.member_ids))) invalid_param
      (codes "too many initial group members")
  members ←
      present_or invalid_param (codes "member_id must be greater than 0")
        (unique_members (session.user_id ∷ []) req.member_ids)
  require_users service.user_repository members
  let id = build_group_id random
  check (not (is_empty id)) internal_error (codes "generate group id failed")
  created ← call (
      service.group_repository.create_group (new_group id req.name session.user_id)
        (group_members id session.user_id members))
  group ← stored_or created.status (codes "create group failed") created.group
  pure (record { group = group; member_ids = members })

unfoldable pub find_group_and_members :
    {W : Type 0} → GroupService W → Bytes → Exec W (GroupRecord × List GroupMemberRecord)
find_group_and_members service group_id = do
  found ← call (service.group_repository.find_group group_id)
  check (not (is_not_found found.status)) group_not_found (codes "group not found")
  group ← stored_or found.status (codes "query group failed") found.group
  members ← call (service.group_repository.list_members group_id)
  check (is_ok members.status) (map_group_error members.status) (codes "list group members failed")
  pure (group, members.members)

abbrev pub may_manage : Option GroupMemberRecord → Bool
may_manage none = false
may_manage (some actor) = role_can_manage_members actor.role

unfoldable pub add_group_member :
    {W : Type 0} → GroupService W → SessionManager → ℕ → Bytes → ℤ → Exec W GroupMemberRecord
add_group_member service sessions conn_id group_id user_id = do
  session ← require_session sessions conn_id
  let id_validation = Validator.conversation_id group_id
  check id_validation.valid invalid_param id_validation.message
  check (not (le_zero user_id)) invalid_param (codes "user_id must be greater than 0")
  user ← call (service.user_repository.find_by_id user_id)
  require_user (codes "target user not found") user
  both ← find_group_and_members service group_id
  check (may_manage (find_member session.user_id both.1)) permission_denied
      (codes "permission denied")
  check (not (has_value (find_member user_id both.1))) group_member_already_exists
      (codes "group member already exists")
  added ← call (
      service.group_repository.add_member
        (record { group_id = group_id; user_id = user_id; role = codes "member"; joined_at = [] }))
  check (not (is_duplicate added.status)) group_member_already_exists
      (codes "group member already exists")
  stored_or added.status (codes "add group member failed") added.member
