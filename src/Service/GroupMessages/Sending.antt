-- ===== src/Service/GroupMessages/Sending.antt =====
-- What `sendGroupMessage` (src/service/group_service.cc) writes, and for whom.
use linux_server.Base.{
  ℕ, true, ◌≡◌, refl, ◌⊎◌, List, Option, none, some, Bytes, arith, ℤ, int_eq, nat_eq, list_eq, inl,
  inr,
}
use linux_server.Model.Records.{GroupRecord, GroupMemberRecord}
use linux_server.Session.Manager.{ConnectionSession, SessionManager}
use linux_server.Service.Exec.{Outcome, Exec, answered, refused, pure, continue, ◌>>=◌}
use linux_server.Service.Exec.Steps.{check_step, session_step}
use linux_server.Service.Common.{get_authenticated_session}
use linux_server.Service.Ids.{Draw}
use linux_server.Service.Group.{GroupService, has_value}
use linux_server.Service.GroupMessages.{
  SendGroupMessageRequest, SendGroupMessageResult, GroupMessageDelivery, send_to_members,
  send_group_message,
}
use linux_server.Service.Group.Reading.{
  IsListed, find_member-IsListed, Listed, OnlyRead, at_once, behind_group, behind_members,
  members_read, find_group_step,
}
use linux_server.Service.GroupMessages.Copies.{Copies, send_to_members-Copies}

member_inv :
    (o : Option GroupMemberRecord) → has_value o ≡ true → (m : GroupMemberRecord) × (o ≡ some m)
member_inv none e = absurd (ground arith)
member_inv (some m) e = (m, refl)

-- The answer to the client, from what the rounds came to.
abbrev pub completed :
    {W : Type 0}
    → SendGroupMessageRequest
    → ConnectionSession
    → Bytes
    → ℤ
    → Outcome (List GroupMessageDelivery) × W
    → Outcome SendGroupMessageResult × W
completed req session conversation now (answered ds, w) = (
  answered (record {
    group_id = req.group_id;
    conversation_id = conversation;
    from_user_id = session.user_id;
    from_username = session.username;
    content = req.content;
    server_time = now;
    messages = ds;
  }),
  w,
)
completed req session conversation now (refused r, w) = (refused r, w)

completed_lem :
    {W : Type 0} (req : SendGroupMessageRequest) (session : ConnectionSession)
    (conversation : Bytes) (now : ℤ) (rounds : Exec W (List GroupMessageDelivery)) (w : W)
    → (rounds >>= λ messages. pure (record {
      group_id = req.group_id;
      conversation_id = conversation;
      from_user_id = session.user_id;
      from_username = session.username;
      content = req.content;
      server_time = now;
      messages = messages;
    }))
        w
      ≡ completed req session conversation now (rounds w)
unfolding ◌>>=◌
completed_lem {W = W} req session conversation now rounds w = go (rounds w)
  where
    go :
        (x : Outcome (List GroupMessageDelivery) × W)
        → continue x.0
            (λ messages. pure (record {
              group_id = req.group_id;
              conversation_id = conversation;
              from_user_id = session.user_id;
              from_username = session.username;
              content = req.content;
              server_time = now;
              messages = messages;
            }))
            x.1
          ≡ completed req session conversation now x
    go (answered ds, v) = refl
    go (refused r, v) = refl

module _ {W : Type 0} (hash : Bytes → ℕ) (service : GroupService W) (sessions : SessionManager)
    (conn_id : ℕ) (req : SendGroupMessageRequest) (now : ℤ) (draws : ℕ → Draw) (w : W) where
  -- A group message that a member sends: the rounds start behind the reads.
  pub record GroupSent (x : Outcome SendGroupMessageResult × W) : Type 0 where
    pub sender : ConnectionSession
    pub logged_in : get_authenticated_session sessions conn_id ≡ some sender
    pub group : GroupRecord
    pub members : List GroupMemberRecord
    pub listed : Listed service req.group_id w group members
    pub as_member : GroupMemberRecord
    pub is_member : IsListed sender.user_id members as_member
    pub rounds : Outcome (List GroupMessageDelivery) × W
    pub copies :
        Copies hash service sessions req sender group.conversation_id now draws 0 members
          (members_read service req.group_id w)
          rounds
    pub result : x ≡ completed req sender group.conversation_id now rounds

  abbrev pub SendEffect : Outcome SendGroupMessageResult × W → Type 0
  SendEffect x = OnlyRead service req.group_id w SendGroupMessageResult x ⊎ GroupSent x

  -- sendGroupMessage writes only for an authenticated caller that is among the members of the
  -- group, listed right before: then, from the state behind the reads on, each member but the
  -- sender gets a copy stored by createMessage, in the order of the list, and an OK answer has one
  -- delivery for each; the first copy that is not stored ends the call with a refusal. Every other
  -- call is refused, and its state is the one behind the reads.
  pub send_group_message_sound :
      SendEffect (send_group_message hash service sessions conn_id req now draws w)
  unfolding send_group_message
  send_group_message_sound =
      session_step SendEffect sessions conn_id _ w (λ r. inl (at_once r))
        (λ sender logged_in.
          check_step SendEffect _ _ _ _ w (λ r. inl (at_once r))
            (λ id_valid.
              check_step SendEffect _ _ _ _ w (λ r. inl (at_once r))
                (λ client_valid.
                  check_step SendEffect _ _ _ _ w (λ r. inl (at_once r))
                    (λ content_valid.
                      find_group_step service req.group_id w SendEffect _
                        (λ r. inl (behind_group r)) (λ r. inl (behind_members r))
                        (λ g ms listed.
                          check_step SendEffect _ _ _ _ _ (λ r. inl (behind_members r))
                            (λ is_member. inr (record {
                              sender = sender;
                              logged_in = logged_in;
                              group = g;
                              members = ms;
                              listed = listed;
                              as_member = (member_inv _ is_member).0;
                              is_member =
                                  find_member-IsListed sender.user_id ms _
                                    (member_inv _ is_member).1;
                              rounds =
                                  send_to_members hash service sessions req sender g.conversation_id
                                    now draws 0 ms (members_read service req.group_id w);
                              copies =
                                  send_to_members-Copies hash service sessions req sender
                                    g.conversation_id now draws 0 ms _;
                              result =
                                  completed_lem req sender g.conversation_id now
                                    (send_to_members hash service sessions req sender
                                      g.conversation_id now draws 0 ms)
                                    (members_read service req.group_id w);
                            })))))))
