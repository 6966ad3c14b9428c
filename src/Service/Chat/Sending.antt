-- ===== src/Service/Chat/Sending.antt =====
-- What `sendMessage` (src/service/chat_service.cc) answers, and what it leaves alone.
use linux_server.Base.{
  ℕ, true, false, not, ◌≡◌, ◌≢◌, refl, sym, ap, ◌∙◌, some, arith, ℤ, ◌==◌, int_eq, int_beq_iff,
  list_eq, list_beq_iff, nat_eq, le_zero, Bool-cases, inl, inr,
}
use linux_server.Model.Records.{MessageRecord}
use linux_server.Session.Manager.{ConnectionSession, SessionManager}
use linux_server.Validation.Validator.{message_content, client_message_id}
use linux_server.Service.Exec.{answered, answered_inv, bind_inv, ◌>>=◌, check_inv}
use linux_server.Service.Interfaces.{CreateMessageResult}
use linux_server.Service.Common.{get_authenticated_session, require_session_inv}
use linux_server.Service.Chat.{
  ChatService, SendMessageRequest, SendMessageResult, validate_send, accept_stored,
  is_same_idempotent_message, deliver, send_result, store_and_deliver, send_message,
  pending_message,
}
use linux_server.Service.Ids.{Draw, build_conversation_id}

-- The request passes the checks that need no state.
pub record IsSendable (req : SendMessageRequest) : Type 0 where
  pub content_valid : (message_content req.content).valid ≡ true
  pub id_valid : (client_message_id req.client_msg_id).valid ≡ true
  pub positive : le_zero req.to_user_id ≡ false

same_message_inv :
    (expected actual : MessageRecord)
    → is_same_idempotent_message expected actual ≡ true
    → (actual.conversation_id ≡ expected.conversation_id)
      × (actual.to_user_id ≡ expected.to_user_id)
      × (actual.content ≡ expected.content)
unfolding is_same_idempotent_message
same_message_inv expected actual e = (
  ground (arith, list_beq_iff expected.conversation_id actual.conversation_id),
  ground (arith, int_beq_iff expected.to_user_id actual.to_user_id),
  ground (arith, list_beq_iff expected.content actual.content),
)

module _ {W : Type 0} where
  validate_send_inv :
      (req : SendMessageRequest) (w : W) (u : Unit {0})
      → (validate_send req w).0 ≡ answered u
      → IsSendable req × ((validate_send req w).1 ≡ w)
  unfolding validate_send ◌>>=◌
  validate_send_inv req w u e = elim (Bool-cases (message_content req.content).valid) [
    | inl p ↦ elim (Bool-cases (client_message_id req.client_msg_id).valid) [
      | inl q ↦ elim (Bool-cases (le_zero req.to_user_id)) [
        | inl r ↦ absurd (ground arith)
        | inr r ↦ (record { content_valid = p; id_valid = q; positive = r }, rw (p, q, r) refl)
      ]
      | inr q ↦ absurd (ground arith)
    ]
    | inr p ↦ absurd (ground arith)
  ]

  accept_stored_inv :
      (pending : MessageRecord) (result : CreateMessageResult) (w : W) (m : MessageRecord)
      → (accept_stored pending result w).0 ≡ answered m
      → is_same_idempotent_message pending m ≡ true
  unfolding accept_stored
  accept_stored_inv pending result w m e = ground arith

-- What a successful answer says, and of whom.
pub record Sent (sessions : SessionManager) (from_conn_id : ℕ) (req : SendMessageRequest)
    (r : SendMessageResult) : Type 0 where
  pub sender : ConnectionSession
  pub logged_in : get_authenticated_session sessions from_conn_id ≡ some sender
  pub sendable : IsSendable req
  pub not_self : req.to_user_id ≢ sender.user_id
  pub from_sender : r.from_user_id ≡ sender.user_id
  pub from_name : r.from_username ≡ sender.username
  pub to_target : r.to_user_id ≡ req.to_user_id
  pub same_content : r.content ≡ req.content
  pub same_conversation : r.conversation_id ≡ build_conversation_id sender.user_id req.to_user_id

module _ {W : Type 0} (service : ChatService W) (sessions : SessionManager) (from_conn_id : ℕ)
    (req : SendMessageRequest) (d : Draw) where
  store_and_deliver_inv :
      (sender : ConnectionSession) (w w' : W) (r : SendMessageResult)
      → store_and_deliver service sessions from_conn_id req d sender w ≡ (answered r, w')
      → (r.from_user_id ≡ sender.user_id)
        × (r.from_username ≡ sender.username)
        × (r.to_user_id ≡ req.to_user_id)
        × (r.content ≡ req.content)
        × (r.conversation_id ≡ build_conversation_id sender.user_id req.to_user_id)
  unfolding store_and_deliver deliver send_result pending_message
  store_and_deliver_inv sender w w' r e =
      let (duplicate, e1, k1) = bind_inv _ _ w w' r e in
      let (result, e2, k2) = bind_inv _ _ _ w' r k1 in
      let (message, e3, k3) = bind_inv _ _ _ w' r k2 in
      let given = answered_inv _ _ (ap (λ p. p.0) k3) in
      let (conversation, to, content) =
        same_message_inv _ message (accept_stored_inv _ result _ message e3) in
      (
        sym (ap (λ x. x.from_user_id) given),
        sym (ap (λ x. x.from_username) given),
        sym (ap (λ x. x.to_user_id) given) ∙ to,
        sym (ap (λ x. x.content) given) ∙ content,
        sym (ap (λ x. x.conversation_id) given) ∙ conversation,
      )

  -- An answer of sendMessage with code OK comes only from a connection with an authenticated
  -- session, for a valid request to another user, and names that session's user as the sender,
  -- with the receiver, the text and the conversation of the request, even where an earlier message
  -- is reused.
  pub send_message_sound :
      (w w' : W) (r : SendMessageResult)
      → send_message service sessions from_conn_id req d w ≡ (answered r, w')
      → Sent sessions from_conn_id req r
  unfolding send_message
  send_message_sound w w' r e =
      let (u1, e1, k1) = bind_inv _ _ _ w' r e in
      let (sender, e2, k2) = bind_inv _ _ _ w' r k1 in
      let (u3, e3, k3) = bind_inv _ _ _ w' r k2 in
      let (u4, e4, k4) = bind_inv _ _ _ w' r k3 in
      let (u5, e5, k5) = bind_inv _ _ _ w' r k4 in
      let (u6, e6, k6) = bind_inv _ _ _ w' r k5 in
      let facts = store_and_deliver_inv sender _ w' r k6 in
      record {
        sender = sender;
        logged_in = (require_session_inv sessions from_conn_id _ sender e2).0;
        sendable = (validate_send_inv req w u1 e1).0;
        not_self = not_test (check_inv _ _ _ _ u3 e3).0;
        from_sender = facts.0;
        from_name = facts.1;
        to_target = facts.2;
        same_content = facts.3;
        same_conversation = facts.4;
      }
    where
      not_test : {a b : ℤ} → not (a == b) ≡ true → a ≢ b
      not_test {a} {b} h = ground (arith, int_beq_iff a b)
