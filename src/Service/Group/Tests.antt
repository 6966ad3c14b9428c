-- ===== src/Service/Group/Tests.antt =====
-- The group service (src/service/group_service.cc) in the small world.
use linux_server.Base.{
  ℕ, ◌≡◌, refl, [], ◌∷◌, List, Bytes, none, some, true, false, ◌||◌, codes, pos, ℤ, length,
}
use linux_server.Session.Manager.{get_session, get_connection_id}
use linux_server.Validation.Validator
use linux_server.Validation.Validator.{
  required_identifier, is_valid_identifier, message_content, client_message_id, has_nul,
}
use linux_server.Service.Exec.{answered, ◌>>=◌}
use linux_server.Service.Common.{get_authenticated_session, require_session}
use linux_server.Service.Fixtures.{
  World, nothing, sessions, user_repository, message_repository, group_repository, member,
}
use linux_server.Service.Chat.{is_same_idempotent_message}
use linux_server.Service.Ids.{Draw}
use linux_server.Service.Group
use linux_server.Service.Group.{GroupService, CreateGroupRequest, add_group_member, create_group}
use linux_server.Service.GroupMessages.{
  SendGroupMessageRequest, SendGroupMessageResult, send_group_message, pending_copy, delivery_of,
}
use linux_server.Service.Group.Ids.{build_group_message_id, build_recipient_client_message_id}
use linux_server.Service.Group.Adding.{AddEffect, add_group_member_sound}
use linux_server.Service.Group.Creating.{CreateEffect, create_group_sound}
use linux_server.Service.GroupMessages.Sending.{SendEffect, send_group_message_sound}

abbrev service : GroupService World
service = record {
  group_repository = group_repository;
  message_repository = message_repository;
  user_repository = user_repository;
}

abbrev crew : CreateGroupRequest
crew = record { name = codes "crew"; member_ids = pos 8 ∷ pos 7 ∷ pos 5 ∷ pos 8 ∷ [] }

create_group_sound_example :
    CreateEffect service sessions 1 crew
      (some (codes "0123456789abcdef"))
      nothing
      (create_group service sessions 1 crew (some (codes "0123456789abcdef")) nothing)
create_group_sound_example =
    create_group_sound service sessions 1 crew (some (codes "0123456789abcdef")) nothing

dan_is_added :
    add_group_member service sessions 1 (codes "grp_1") (pos 9) nothing
    ≡ (answered (member (pos 9) (codes "member")), nothing)
unfolding add_group_member ◌>>=◌ require_session get_authenticated_session get_session
    Group.require_user Group.find_group_and_members Group.find_member Group.role_can_manage_members
    Validator.conversation_id required_identifier is_valid_identifier linux_server.Base.lookup
dan_is_added = refl

add_group_member_sound_example :
    AddEffect service sessions 1
      (codes "grp_1")
      (pos 9)
      nothing
      (add_group_member service sessions 1 (codes "grp_1") (pos 9) nothing)
add_group_member_sound_example =
    add_group_member_sound service sessions 1 (codes "grp_1") (pos 9) nothing

abbrev hi : SendGroupMessageRequest
hi = record { group_id = codes "grp_1"; content = codes "hi"; client_msg_id = codes "c1" }

abbrev draws : ℕ → Draw
draws k = record { now = pos 1700000000; pid = 4242; msg_seq = k; random_part = 99 }

abbrev copy : ℕ → ℤ → linux_server.Model.Records.MessageRecord
copy k to =
    pending_copy length hi linux_server.Service.Fixtures.ann (codes "gconv_grp_1") (draws k) to

abbrev answer : SendGroupMessageResult
answer = record {
  group_id = codes "grp_1";
  conversation_id = codes "gconv_grp_1";
  from_user_id = pos 7;
  from_username = codes "ann";
  content = codes "hi";
  server_time = pos 1700000000;
  messages =
      delivery_of length sessions (codes "grp_1") (copy 1 (pos 8))
      ∷ delivery_of length sessions (codes "grp_1") (copy 2 (pos 5))
      ∷ [];
}

abbrev after : World
after = record nothing { messages = copy 2 (pos 5) ∷ copy 1 (pos 8) ∷ [] }

hi_is_sent :
    send_group_message length service sessions 1 hi (pos 1700000000) draws nothing
    ≡ (answered answer, after)
unfolding send_group_message ◌>>=◌ require_session get_authenticated_session get_session
    Group.find_group_and_members Group.find_member
    linux_server.Service.GroupMessages.send_to_members linux_server.Service.GroupMessages.copy_then
    linux_server.Service.GroupMessages.store_copy pending_copy is_same_idempotent_message
    Validator.conversation_id client_message_id message_content has_nul required_identifier
    is_valid_identifier linux_server.Base.lookup build_group_message_id
    build_recipient_client_message_id get_connection_id linux_server.Service.Group.Ids.strip_zeros
    linux_server.Base.hex_fixed linux_server.Base.hex_digit linux_server.Base.to_string
hi_is_sent = refl

send_group_message_sound_example :
    SendEffect length service sessions 1 hi
      (pos 1700000000)
      draws
      nothing
      (send_group_message length service sessions 1 hi (pos 1700000000) draws nothing)
send_group_message_sound_example =
    send_group_message_sound length service sessions 1 hi (pos 1700000000) draws nothing
