-- ===== src/Service/GroupMessages/Copies.antt =====
-- The copies of a group message (src/service/group_service.cc, the loop of `sendGroupMessage`).
use linux_server.Base.{
  ℕ, suc, true, false, ◌≡◌, ◌≢◌, refl, sym, subst, ◌∙◌, ◌⊎◌, List, [], ◌∷◌, Option, none, some,
  Bytes, codes, arith, ℤ, ◌==◌, int_eq, int_beq_iff, list_beq_iff, nat_eq, list_eq, inl, inr,
  Bool-cases, Option-cases,
}
use linux_server.Model.Status.{RepositoryStatus, is_ok, idempotency_conflict}
use linux_server.Model.Records.{GroupMemberRecord, MessageRecord}
use linux_server.Session.Manager.{ConnectionSession, SessionManager}
use linux_server.Service.Exec.{Outcome, Refusal, Exec, answered, refused, pure, continue, ◌>>=◌}
use linux_server.Service.Interfaces.{CreateMessageResult}
use linux_server.Service.Chat.{is_same_idempotent_message}
use linux_server.Service.Ids.{Draw}
use linux_server.Service.Group.{GroupService, map_group_error}
use linux_server.Service.GroupMessages.{
  SendGroupMessageRequest, GroupMessageDelivery, pending_copy, delivery_of, store_copy, copy_then,
  send_to_members,
}

-- What the repository made of a copy that it was given: it stored one, with status ok, that says the
-- same.
pub record Stored (pending : MessageRecord) (result : CreateMessageResult) (message : MessageRecord)
    : Type 0 where
  pub status_ok : is_ok result.status ≡ true
  pub given : result.message ≡ some message
  pub same : is_same_idempotent_message pending message ≡ true

-- It failed, or what it has under the client's id says something else.
abbrev pub NotStored : MessageRecord → CreateMessageResult → Type 0
NotStored pending result =
    (message : MessageRecord)
    → is_ok result.status ≡ true
    → result.message ≡ some message
    → is_same_idempotent_message pending message ≡ false

abbrev pub prepend :
    {W : Type 0}
    → GroupMessageDelivery
    → Outcome (List GroupMessageDelivery) × W
    → Outcome (List GroupMessageDelivery) × W
prepend d (answered ds, w) = (answered (d ∷ ds), w)
prepend d (refused r, w) = (refused r, w)

abbrev failure : RepositoryStatus → Refusal
failure status = record {
  code = map_group_error status;
  message = codes "store group message failed";
  retry_after_seconds = 0;
}

abbrev conflict : Refusal
conflict = record {
  code = idempotency_conflict;
  message = codes "client_msg_id conflicts with existing group message";
  retry_after_seconds = 0;
}

some_inv : {A : Type 0} (a b : A) → some a ≡ some b → a ≡ b
some_inv a b e = cc e

none-ne-some : {A : Type 0} (a : A) → ◌≢◌ {A = Option A} none (some a)
none-ne-some a e = cc e

module _ {W : Type 0} (hash : Bytes → ℕ) (service : GroupService W) (sessions : SessionManager)
    (req : SendGroupMessageRequest) (session : ConnectionSession) (conversation : Bytes) where
  abbrev copy_of : Draw → ℤ → MessageRecord
  copy_of = pending_copy hash req session conversation

  abbrev created : Draw → ℤ → W → CreateMessageResult × W
  created d to = service.message_repository.create_message (copy_of d to)

  -- What one round comes to, in the state that createMessage leaves.
  store_copy_cases :
      (d : Draw) (to : ℤ) (w : W)
      → ((message : MessageRecord) × Stored (copy_of d to) (created d to w).0 message
          × (store_copy hash service sessions req session conversation d to w
              ≡ (answered (delivery_of hash sessions req.group_id message), (created d to w).1)))
        ⊎ ((r : Refusal) × NotStored (copy_of d to) (created d to w).0
            × (store_copy hash service sessions req session conversation d to w
                ≡ (refused r, (created d to w).1)))
  unfolding store_copy ◌>>=◌
  store_copy_cases d to w = elim (Option-cases (created d to w).0.message) [
    | inl e ↦ elim (Bool-cases (is_ok (created d to w).0.status)) [
      | inl f ↦ inr (
        failure (created d to w).0.status,
        (λ m ok given. absurd (none-ne-some m (sym e ∙ given))),
        rw (e, f) refl,
      )
      | inr f ↦ inr (
        failure (created d to w).0.status,
        (λ m ok given. absurd (none-ne-some m (sym e ∙ given))),
        rw (e, f) refl,
      )
    ]
    | inr (m, e) ↦ elim (Bool-cases (is_ok (created d to w).0.status)) [
      | inr f ↦
          inr (
            failure (created d to w).0.status,
            (λ n ok given. absurd (ground arith)),
            rw (e, f) refl,
          )
      | inl f ↦ elim (Bool-cases (is_same_idempotent_message (copy_of d to) m)) [
        | inl g ↦ inl (m, record { status_ok = f; given = e; same = g }, rw (e, f, g) refl)
        | inr g ↦ inr (
          conflict,
          (λ n ok given.
              subst (λ x. is_same_idempotent_message (copy_of d to) x ≡ false)
                (some_inv m n (sym e ∙ given)) g),
          rw (e, f, g) refl,
        )
      ]
    ]
  ]

  -- What the copy for a user says.
  pub record Says (to : ℤ) (message : MessageRecord) : Type 0 where
    pub to_member : message.to_user_id ≡ to
    pub from_sender : message.from_user_id ≡ session.user_id
    pub in_conversation : message.conversation_id ≡ conversation
    pub content : message.content ≡ req.content

  same-Says :
      (d : Draw) (to : ℤ) (message : MessageRecord)
      → is_same_idempotent_message (copy_of d to) message ≡ true
      → Says to message
  unfolding is_same_idempotent_message pending_copy
  same-Says d to message e = record {
    to_member = ground (arith, int_beq_iff to message.to_user_id);
    from_sender = ground (arith, int_beq_iff session.user_id message.from_user_id);
    in_conversation = ground (arith, list_beq_iff conversation message.conversation_id);
    content = ground (arith, list_beq_iff req.content message.content);
  }

  -- The rounds over the members from a state on: the sender is passed over; each other member gets
  -- a copy of its own stored and delivered, and the first that is not stored ends the rounds.
  pub data Copies (now : ℤ) (draws : ℕ → Draw)
      : ℕ → List GroupMemberRecord → W → Outcome (List GroupMessageDelivery) × W → Type 0 where
    all_sent : (k : ℕ) (w : W) → Copies now draws k [] w (answered [], w)
    passed_over :
        (k : ℕ) (m : GroupMemberRecord) (ms : List GroupMemberRecord) (w : W)
        (x : Outcome (List GroupMessageDelivery) × W)
        → m.user_id ≡ session.user_id
        → Copies now draws (suc k) ms w x
        → Copies now draws k (m ∷ ms) w x
    copied :
        (k : ℕ) (m : GroupMemberRecord) (ms : List GroupMemberRecord) (w : W)
        (message : MessageRecord) (x : Outcome (List GroupMessageDelivery) × W)
        → m.user_id ≢ session.user_id
        → Stored
            (copy_of (record (draws k) { now = now }) m.user_id)
            (created (record (draws k) { now = now }) m.user_id w).0
            message
        → Says m.user_id message
        → Copies now draws (suc k) ms (created (record (draws k) { now = now }) m.user_id w).1 x
        → Copies now draws k (m ∷ ms) w (prepend (delivery_of hash sessions req.group_id message) x)
    not_copied :
        (k : ℕ) (m : GroupMemberRecord) (ms : List GroupMemberRecord) (w : W) (r : Refusal)
        → m.user_id ≢ session.user_id
        → NotStored
            (copy_of (record (draws k) { now = now }) m.user_id)
            (created (record (draws k) { now = now }) m.user_id w).0
        → Copies now draws k
            (m ∷ ms)
            w
            (refused r, (created (record (draws k) { now = now }) m.user_id w).1)

  prepend_lem :
      (d : GroupMessageDelivery) (x : Outcome (List GroupMessageDelivery) × W)
      → continue x.0 (λ later. pure (d ∷ later)) x.1 ≡ prepend d x
  prepend_lem d (answered ds, w) = refl
  prepend_lem d (refused r, w) = refl

  copy_then_stored :
      (d : Draw) (to : ℤ) (rest : Exec W (List GroupMessageDelivery)) (w v : W)
      (delivery : GroupMessageDelivery)
      → store_copy hash service sessions req session conversation d to w ≡ (answered delivery, v)
      → copy_then hash service sessions req session conversation d to rest w
        ≡ prepend delivery (rest v)
  unfolding copy_then ◌>>=◌
  copy_then_stored d to rest w v delivery e = rw e (prepend_lem delivery (rest v))

  copy_then_refused :
      (d : Draw) (to : ℤ) (rest : Exec W (List GroupMessageDelivery)) (w v : W) (r : Refusal)
      → store_copy hash service sessions req session conversation d to w ≡ (refused r, v)
      → copy_then hash service sessions req session conversation d to rest w ≡ (refused r, v)
  unfolding copy_then ◌>>=◌
  copy_then_refused d to rest w v r e = rw e refl

  pub send_to_members-Copies :
      (now : ℤ) (draws : ℕ → Draw) (k : ℕ) (ms : List GroupMemberRecord) (w : W)
      → Copies now draws k ms w
          (send_to_members hash service sessions req session conversation now draws k ms w)
  unfolding send_to_members
  send_to_members-Copies now draws k [] w = all_sent k w
  send_to_members-Copies now draws k (m ∷ ms) w =
      let d = record (draws k) { now = now } in
      let rest =
        send_to_members hash service sessions req session conversation now draws (suc k) ms in
      elim (Bool-cases (m.user_id == session.user_id)) [
        | inl e ↦ rw e (
            passed_over k m ms w _ ((int_beq_iff m.user_id session.user_id).0 e)
              (send_to_members-Copies now draws (suc k) ms w))
        | inr e ↦
            let other = λ (same : m.user_id ≡ session.user_id).
              absurd (ground (arith, int_beq_iff m.user_id session.user_id)) in
            elim (store_copy_cases d m.user_id w) [
              | inl (message, stored, f) ↦
                  rw (e, copy_then_stored d m.user_id rest w _ _ f)
                    (copied k m ms w message _ other stored
                      (same-Says d m.user_id message stored.same)
                      (send_to_members-Copies now draws (suc k) ms _))
              | inr (r, failed, f) ↦
                  rw (e, copy_then_refused d m.user_id rest w _ r f)
                    (not_copied k m ms w r other failed)
            ]
      ]
