-- ===== src/Service/GroupMessages.antt =====
-- `sendGroupMessage` of `GroupService` (src/service/group_service.cc). `std::hash<std::string>`,
-- which the standard leaves open, is the parameter `hash`.
pub mod Copies
pub mod Sending
use linux_server.Base.{
  ℕ, zero, suc, Bool, true, false, not, ◌&&◌, ◌||◌, List, [], ◌∷◌, ◌++◌, Option, none, some, Bytes,
  codes, length, is_empty, ltb, ℤ, pos, le_zero, ◌==◌, int_eq, list_eq, nat_eq, if◌then◌else◌,
}
use linux_server.Model.Status.{
  ErrorCode, invalid_param, user_not_found, internal_error, db_insert_failed, db_query_failed,
  group_not_found, group_member_already_exists, permission_denied, message_too_long,
  idempotency_conflict, RepositoryStatus, status_ok, not_found, query_failed, duplicate,
  insert_failed, connection_unavailable, borrow_timeout, is_ok, is_not_found, is_duplicate,
}
use linux_server.Model.Records.{
  GroupRecord, GroupMemberRecord, MessageRecord, stored, to_protocol_message_status,
}
use linux_server.Session.Manager.{ConnectionSession, SessionManager, get_connection_id}
use linux_server.Validation.Validator.{
  nickname, client_message_id, message_content, message_max_bytes,
}
use linux_server.Service.Exec.{Exec, pure, refuse, call, check, ◌>>=◌, ◌>>◌}
use linux_server.Service.Interfaces.{
  FindUserResult, UserRepository, MessageRepository, CreateMessageResult, GroupRepository,
  GroupRepositoryFindResult, GroupRepositoryCreateResult, GroupRepositoryAddMemberResult,
}
use linux_server.Service.Common.{require_session}
use linux_server.Service.Chat.{is_same_idempotent_message}
use linux_server.Service.Ids.{Draw}
use linux_server.Service.Group.Ids.{
  build_group_id, build_group_conversation_id, build_group_message_id,
  build_recipient_client_message_id,
}
use linux_server.Service.Group.{
  GroupService, find_group_and_members, find_member, has_value, stored_or,
}
use linux_server.Validation.Validator

pub record SendGroupMessageRequest : Type 0 where
  pub group_id : Bytes
  pub content : Bytes
  pub client_msg_id : Bytes

pub record GroupMessageDelivery : Type 0 where
  pub message_id : Bytes
  pub group_id : Bytes
  pub conversation_id : Bytes
  pub sequence : ℤ
  pub to_user_id : ℤ
  pub target_conn_id : ℕ
  pub status : ℤ
  pub created_at : ℤ

pub record SendGroupMessageResult : Type 0 where
  pub group_id : Bytes
  pub conversation_id : Bytes
  pub from_user_id : ℤ
  pub from_username : Bytes
  pub content : Bytes
  pub server_time : ℤ
  pub messages : List GroupMessageDelivery

abbrev value_or_zero : Option ℕ → ℕ
value_or_zero none = 0
value_or_zero (some c) = c

module _ (hash : Bytes → ℕ) where
  -- The copy for one member; `d` is what the ids of this round draw.
  unfoldable pub pending_copy :
      SendGroupMessageRequest → ConnectionSession → Bytes → Draw → ℤ → MessageRecord
  pending_copy req session conversation_id d to = record {
    id = build_group_message_id d session.user_id to;
    conversation_id = conversation_id;
    client_msg_id = build_recipient_client_message_id hash req.group_id req.client_msg_id to;
    sequence = pos 0;
    from_user_id = session.user_id;
    to_user_id = to;
    content = req.content;
    status = stored;
    created_at = d.now;
    delivered_at = pos 0;
    read_at = pos 0;
  }

  abbrev pub delivery_of : SessionManager → Bytes → MessageRecord → GroupMessageDelivery
  delivery_of sessions group_id m = record {
    message_id = m.id;
    group_id = group_id;
    conversation_id = m.conversation_id;
    sequence = m.sequence;
    to_user_id = m.to_user_id;
    target_conn_id = value_or_zero (get_connection_id sessions m.to_user_id);
    status = to_protocol_message_status m.status;
    created_at = m.created_at;
  }

  unfoldable pub store_copy :
      {W : Type 0}
      → GroupService W
      → SessionManager
      → SendGroupMessageRequest
      → ConnectionSession
      → Bytes
      → Draw
      → ℤ
      → Exec W GroupMessageDelivery
  store_copy service sessions req session conversation_id d to = do
    let pending = pending_copy req session conversation_id d to
    created ← call (service.message_repository.create_message pending)
    message ← stored_or created.status (codes "store group message failed") created.message
    check (is_same_idempotent_message pending message) idempotency_conflict
        (codes "client_msg_id conflicts with existing group message")
    pure (delivery_of sessions req.group_id message)

  -- The round for another member, and the rounds behind it.
  unfoldable pub copy_then :
      {W : Type 0}
      → GroupService W
      → SessionManager
      → SendGroupMessageRequest
      → ConnectionSession
      → Bytes
      → Draw
      → ℤ
      → Exec W (List GroupMessageDelivery)
      → Exec W (List GroupMessageDelivery)
  copy_then service sessions req session conversation_id d to rest = do
    delivery ← store_copy service sessions req session conversation_id d to
    later ← rest
    pure (delivery ∷ later)

  -- The loop over the members; `draws k` is what round `k` draws, at the time `now` of all rounds.
  unfoldable pub send_to_members :
      {W : Type 0}
      → GroupService W
      → SessionManager
      → SendGroupMessageRequest
      → ConnectionSession
      → Bytes
      → ℤ
      → (ℕ → Draw)
      → ℕ
      → List GroupMemberRecord
      → Exec W (List GroupMessageDelivery)
  send_to_members service sessions req session conversation_id now draws k [] = pure []
  send_to_members service sessions req session conversation_id now draws k (m ∷ ms) =
      let rest =
        send_to_members service sessions req session conversation_id now draws (suc k) ms in
      if m.user_id == session.user_id
      then rest
      else copy_then service sessions req session conversation_id (record (draws k) { now = now })
          m.user_id rest

  unfoldable pub send_group_message :
      {W : Type 0}
      → GroupService W
      → SessionManager
      → ℕ
      → SendGroupMessageRequest
      → ℤ
      → (ℕ → Draw)
      → Exec W SendGroupMessageResult
  send_group_message service sessions conn_id req now draws = do
    session ← require_session sessions conn_id
    let id_validation = Validator.conversation_id req.group_id
    check id_validation.valid invalid_param id_validation.message
    let client_id = client_message_id req.client_msg_id
    check client_id.valid invalid_param client_id.message
    let content = message_content req.content
    check content.valid
        (if ltb message_max_bytes (length req.content) then message_too_long else invalid_param)
        content.message
    both ← find_group_and_members service req.group_id
    check (has_value (find_member session.user_id both.1)) permission_denied
        (codes "permission denied")
    messages ←
        send_to_members service sessions req session both.0.conversation_id now draws 0 both.1
    pure (record {
      group_id = req.group_id;
      conversation_id = both.0.conversation_id;
      from_user_id = session.user_id;
      from_username = session.username;
      content = req.content;
      server_time = now;
      messages = messages;
    })
