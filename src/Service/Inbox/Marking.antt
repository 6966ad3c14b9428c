-- ===== src/Service/Inbox/Marking.antt =====
-- What the three calls that mark messages (src/service/chat_service.cc) do to the store.
use linux_server.Base.{
  ℕ, ◌≤◌, true, ◌≡◌, refl, ◌⊎◌, inl, inr, List, [], ◌∷◌, none, some, Bytes, arith, length, All,
  Option-cases,
}
use linux_server.Session.Manager.{ConnectionSession, SessionManager}
use linux_server.Validation.Validator
use linux_server.Service.Exec.{◌>>=◌, check-pure}
use linux_server.Service.Common.{get_authenticated_session, require_session}
use linux_server.Service.Chat.{ChatService}
use linux_server.Service.Inbox.{
  first_invalid_id, validate_message_ids, acknowledge_messages, mark_messages_read,
}

abbrev pub ValidId : Bytes → Type 0
ValidId id = (Validator.message_id id).valid ≡ true

-- One batch of ids.
pub record IsBatch (ids : List Bytes) : Type 0 where
  pub some_id : 1 ≤ length ids
  pub bounded : length ids ≤ 100
  pub valid_ids : All ValidId ids

first_invalid_id-All : (ids : List Bytes) → first_invalid_id ids ≡ none → All ValidId ids
unfolding first_invalid_id
first_invalid_id-All [] e = tt
first_invalid_id-All (id ∷ ids) e = (ground arith, first_invalid_id-All ids (ground arith))

validate_message_ids_all : (ids : List Bytes) → validate_message_ids ids ≡ none → IsBatch ids
unfolding validate_message_ids
validate_message_ids_all [] e = absurd (ground arith)
validate_message_ids_all (id ∷ ids) e = record {
  some_id = omega arith;
  bounded = ground arith;
  valid_ids = first_invalid_id-All (id ∷ ids) (ground arith);
}

module _ {W : Type 0} (service : ChatService W) (sessions : SessionManager) (conn_id : ℕ) where
  -- An acknowledgement changes the store only by `markDelivered` for the caller's own user, and
  -- only with an authenticated session and 1 to 100 valid ids; every other call leaves it alone.
  pub acknowledge_messages_store :
      (ids : List Bytes) (w : W)
      → ((acknowledge_messages service sessions conn_id ids w).1 ≡ w)
        ⊎ ((session : ConnectionSession) × (get_authenticated_session sessions conn_id
              ≡ some session)
            × IsBatch ids
            × ((acknowledge_messages service sessions conn_id ids w).1
                ≡ (service.message_repository.mark_delivered session.user_id ids w).1))
  unfolding acknowledge_messages require_session ◌>>=◌
  acknowledge_messages_store ids w =
      elim (Option-cases (get_authenticated_session sessions conn_id)) [
        | inl e ↦ inl (rw e refl)
        | inr (session, e) ↦ elim (Option-cases (validate_message_ids ids)) [
          | inr (complaint, f) ↦ inl (rw (e, f) refl)
          | inl f ↦
              inr (session, e, validate_message_ids_all ids f, rw (e, f) (check-pure _ _ _ _ _))
        ]
      ]

  -- A read receipt changes the store only by `markRead` for the caller's own user, and only with an
  -- authenticated session and 1 to 100 valid ids; every other call leaves it alone.
  pub mark_messages_read_store :
      (ids : List Bytes) (w : W)
      → ((mark_messages_read service sessions conn_id ids w).1 ≡ w)
        ⊎ ((session : ConnectionSession) × (get_authenticated_session sessions conn_id
              ≡ some session)
            × IsBatch ids
            × ((mark_messages_read service sessions conn_id ids w).1
                ≡ (service.message_repository.mark_read session.user_id ids w).1))
  unfolding mark_messages_read require_session ◌>>=◌
  mark_messages_read_store ids w =
      elim (Option-cases (get_authenticated_session sessions conn_id)) [
        | inl e ↦ inl (rw e refl)
        | inr (session, e) ↦ elim (Option-cases (validate_message_ids ids)) [
          | inr (complaint, f) ↦ inl (rw (e, f) refl)
          | inl f ↦
              inr (session, e, validate_message_ids_all ids f, rw (e, f) (check-pure _ _ _ _ _))
        ]
      ]
