-- ===== src/Service/Friend/Laws.antt =====
-- What the calls of `FriendService` (src/service/friend_service.cc) write, and for whom.
use linux_server.Base.{
  ℕ, false, ◌≡◌, ◌≢◌, refl, ap, sym, ◌∙◌, Option, some, ℤ, int_eq, ◌⊎◌, inl, inr,
}
use linux_server.Model.Status.{RepositoryStatus, status_ok, not_found}
use linux_server.Model.Records.{FriendshipRecord, FriendshipStatus}
use linux_server.Session.Manager.{ConnectionSession, SessionManager}
use linux_server.Service.Exec.{Outcome, Refusal, Exec, answered, refused, pure, ◌>>=◌, answered_inv}
use linux_server.Service.Exec.Steps.{check_step, test_step, call_step, session_step}
use linux_server.Service.Common.{get_authenticated_session}
use linux_server.Service.Friend.{FriendService, FriendshipActionResult, add_friend, accept_friend}
use linux_server.Service.Friend.Checks.{
  not_equal, require_request_inv, accept_updated_inv, require_no_friendship_inv, accept_created_inv,
  accept_created-store, validate_user_exists-store, require_no_friendship-store,
  require_request-store, accept_updated-store,
}

-- The state behind the search for a user and then for a friendship.
abbrev pub after_search : {W : Type 0} → FriendService W → ℤ → ℤ → ℤ → W → W
after_search service requester addressee other w =
    (service.friend_repository.find_friendship requester addressee
      (service.user_repository.find_by_id other w).1).1

refused_answer :
    (r : Refusal) (a : FriendshipActionResult)
    → ◌≢◌ {A = Outcome FriendshipActionResult} (refused r) (answered a)
refused_answer r a e = cc e

-- A call that was refused with nothing written: at once, behind the search for the other user, or
-- behind the search for a friendship of the two (`search`, with the caller's id).
pub data Stopped {W : Type 0} (service : FriendService W) (sessions : SessionManager) (conn_id : ℕ)
    (other : ℤ) (search : ℤ → W → W) (w : W) : Outcome FriendshipActionResult × W → Type 0 where
  at_once : (r : Refusal) → Stopped service sessions conn_id other search w (refused r, w)
  behind_user :
      (r : Refusal)
      → Stopped service sessions conn_id other search w
          (refused r, (service.user_repository.find_by_id other w).1)
  behind_search :
      (r : Refusal) (session : ConnectionSession)
      → get_authenticated_session sessions conn_id ≡ some session
      → Stopped service sessions conn_id other search w
          (refused r, search session.user_id (service.user_repository.find_by_id other w).1)

-- What comes out of a call that writes: the state is the one that the write leaves, and an OK
-- answer has the friendship that the write gave, with status ok, and names the other user.
pub record Wrote {W : Type 0} (other : ℤ) (status : RepositoryStatus)
    (friendship : Option FriendshipRecord) (written : W) (x : Outcome FriendshipActionResult × W)
    : Type 0 where
  pub state : x.1 ≡ written
  pub answer :
      (r : FriendshipActionResult)
      → x.0 ≡ answered r
      → (status ≡ status_ok) × (friendship ≡ r.friendship) × (r.friend_user_id ≡ other)

-- A request that is stored: by whom, and what the repository knew right before.
pub record Requested {W : Type 0} (service : FriendService W) (sessions : SessionManager)
    (conn_id : ℕ) (target : ℤ) (w : W) (x : Outcome FriendshipActionResult × W) : Type 0 where
  pub session : ConnectionSession
  pub logged_in : get_authenticated_session sessions conn_id ≡ some session
  pub not_self : target ≢ session.user_id
  pub none_before :
      (service.friend_repository.find_friendship session.user_id target
        (service.user_repository.find_by_id target w).1).0.status
      ≡ not_found
  pub wrote :
      Wrote target
        (service.friend_repository.create_friend_request session.user_id target
          (after_search service session.user_id target target w)).0.status
        (service.friend_repository.create_friend_request session.user_id target
          (after_search service session.user_id target target w)).0.friendship
        (service.friend_repository.create_friend_request session.user_id target
          (after_search service session.user_id target target w)).1
        x

-- A request that is accepted: it was sent to the caller by the user that the call names, and was
-- pending right before.
pub record Accepted {W : Type 0} (service : FriendService W) (sessions : SessionManager)
    (conn_id : ℕ) (requester : ℤ) (w : W) (x : Outcome FriendshipActionResult × W) : Type 0 where
  pub session : ConnectionSession
  pub logged_in : get_authenticated_session sessions conn_id ≡ some session
  pub not_self : requester ≢ session.user_id
  pub request : FriendshipRecord
  pub found :
      (service.friend_repository.find_friendship requester session.user_id
        (service.user_repository.find_by_id requester w).1).0.friendship
      ≡ some request
  pub was_pending : request.status ≡ FriendshipStatus.pending
  pub by_requester : request.requester_id ≡ requester
  pub to_caller : request.addressee_id ≡ session.user_id
  pub wrote :
      Wrote requester
        (service.friend_repository.accept_friend_request requester session.user_id
          (after_search service requester session.user_id requester w)).0.status
        (service.friend_repository.accept_friend_request requester session.user_id
          (after_search service requester session.user_id requester w)).0.friendship
        (service.friend_repository.accept_friend_request requester session.user_id
          (after_search service requester session.user_id requester w)).1
        x

module _ {W : Type 0} where
  -- A write whose answer is checked last.
  checked_write :
      (m : Exec W FriendshipRecord) (w : W) (id : ℤ) (status : RepositoryStatus)
      (friendship : Option FriendshipRecord)
      → (m w).1 ≡ w
      → ((f : FriendshipRecord)
          → (m w).0 ≡ answered f
          → (status ≡ status_ok) × (friendship ≡ some f))
      → Wrote id status friendship w (
          (m >>= λ f. pure (record { friendship = some f; friend_user_id = id; deleted = false }))
            w)
  checked_write m w id status friendship still inverted =
      test_step (Wrote id status friendship w) m _ w still
        (λ r. record { state = refl; answer = λ a e. absurd (refused_answer r a e) })
        (λ f e. record {
          state = refl;
          answer = λ a h.
              let same = answered_inv _ a h in
              (
                (inverted f e).0,
                (inverted f e).1 ∙ ap (λ x. x.friendship) same,
                sym (ap (λ x. x.friend_user_id) same),
              );
        })

-- Either nothing is written, or what may be.
abbrev pub AddEffect :
    {W : Type 0}
    → FriendService W
    → SessionManager
    → ℕ
    → ℤ
    → W
    → Outcome FriendshipActionResult × W
    → Type 0
AddEffect service sessions conn_id target w x =
    Stopped service sessions conn_id target
      (λ caller v. (service.friend_repository.find_friendship caller target v).1) w x
    ⊎ Requested service sessions conn_id target w x

abbrev pub AcceptEffect :
    {W : Type 0}
    → FriendService W
    → SessionManager
    → ℕ
    → ℤ
    → W
    → Outcome FriendshipActionResult × W
    → Type 0
AcceptEffect service sessions conn_id requester w x =
    Stopped service sessions conn_id requester
      (λ caller v. (service.friend_repository.find_friendship requester caller v).1) w x
    ⊎ Accepted service sessions conn_id requester w x

module _ {W : Type 0} (service : FriendService W) (sessions : SessionManager) (conn_id : ℕ) where
  -- addFriend writes only for an authenticated caller that names another user, and only where the
  -- repository, asked right before, knew of no friendship of the two: then the state is the one that
  -- createFriendRequest leaves, and an OK answer has the request that it stored. Every other call is
  -- refused, and its state is the one behind the reads.
  pub add_friend_sound :
      (target : ℤ) (w : W)
      → AddEffect service sessions conn_id target w (add_friend service sessions conn_id target w)
  unfolding add_friend
  add_friend_sound target w =
      let P = AddEffect service sessions conn_id target w in
      check_step P _ _ _ _ w (λ r. inl (at_once r))
        (λ positive.
          session_step P sessions conn_id _ w (λ r. inl (at_once r))
            (λ session logged_in.
              check_step P _ _ _ _ w (λ r. inl (at_once r))
                (λ other. call_step P _ _ w (
                  test_step P _ _ _ (validate_user_exists-store _ _ _ _) (λ r. inl (behind_user r))
                    (λ _ exists. call_step P _ _ _ (
                      test_step P _ _ _ (require_no_friendship-store _ _)
                        (λ r. inl (behind_search r session logged_in))
                        (λ u none_found. inr (record {
                          session = session;
                          logged_in = logged_in;
                          not_self = not_equal target session.user_id other;
                          none_before = require_no_friendship_inv _ _ u none_found;
                          wrote = call_step (Wrote _ _ _ _) _ _ _ (
                              checked_write _ _ target _ _ (accept_created-store _ _)
                                (λ f stored. accept_created_inv _ _ f stored));
                        }))))))))

  -- acceptFriend writes only for an authenticated caller to whom the named user, who is another,
  -- has sent a request that was pending right before: then the state is the one that
  -- acceptFriendRequest leaves, and an OK answer has the friendship that it gave. Every other call
  -- is refused, and its state is the one behind the reads, so nobody can accept a request of their
  -- own or one that was sent to somebody else.
  pub accept_friend_sound :
      (requester : ℤ) (w : W)
      → AcceptEffect service sessions conn_id requester w
          (accept_friend service sessions conn_id requester w)
  unfolding accept_friend
  accept_friend_sound requester w =
      let P = AcceptEffect service sessions conn_id requester w in
      check_step P _ _ _ _ w (λ r. inl (at_once r))
        (λ positive.
          session_step P sessions conn_id _ w (λ r. inl (at_once r))
            (λ session logged_in.
              check_step P _ _ _ _ w (λ r. inl (at_once r))
                (λ other. call_step P _ _ w (
                  test_step P _ _ _ (validate_user_exists-store _ _ _ _) (λ r. inl (behind_user r))
                    (λ _ exists. call_step P _ _ _ (
                      check_step P _ _ _ _ _ (λ r. inl (behind_search r session logged_in))
                        (λ there.
                          check_step P _ _ _ _ _ (λ r. inl (behind_search r session logged_in))
                            (λ readable.
                              test_step P _ _ _ (require_request-store _ _ _ _)
                                (λ r. inl (behind_search r session logged_in))
                                (λ u pending.
                                  let (request, found, was_pending, by_requester, to_caller) =
                                    require_request_inv requester session.user_id _ _ u pending in
                                  inr (record {
                                    session = session;
                                    logged_in = logged_in;
                                    not_self = not_equal requester session.user_id other;
                                    request = request;
                                    found = found;
                                    was_pending = was_pending;
                                    by_requester = by_requester;
                                    to_caller = to_caller;
                                    wrote = call_step (Wrote _ _ _ _) _ _ _ (
                                        checked_write _ _ requester _ _ (accept_updated-store _ _)
                                          (λ f stored. accept_updated_inv _ _ f stored));
                                  }))))))))))
