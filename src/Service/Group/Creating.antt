-- ===== src/Service/Group/Creating.antt =====
-- What a new group is stored with (src/service/group_service.cc, `createGroup`).
use linux_server.Base.{
  subst, ap, refl, map, All, ◌==◌, int_eq, if◌then◌else◌, ℕ, Bool, true, false, not, ◌||◌, ◌≡◌, ◌∙◌,
  sym, List, [], ◌∷◌, Option, none, some, Bytes, codes, arith, ℤ, is_empty,
}
use linux_server.Model.Status.{ErrorCode, is_ok}
use linux_server.Model.Records.{UserRecord}
use linux_server.Session.Manager.{ConnectionSession, SessionManager}
use linux_server.Service.Exec.{
  check_then, call_then, answer_pair, Outcome, Refusal, answered, refused, pure, ◌>>=◌,
  answered_inv,
}
use linux_server.Service.Exec.Steps.{check_step, test_step, bind_step, call_step, session_step}
use linux_server.Service.Common.{get_authenticated_session}
use linux_server.Service.Interfaces.{GroupRepositoryCreateResult, UserRepository}
use linux_server.Service.Group.{
  unique_members, require_user, has_value, GroupService, CreateGroupRequest, CreateGroupResult,
  create_group, require_users, group_members, member_of, present_or, stored_or,
}
use linux_server.Service.Group.Ids.{build_group_id, build_group_conversation_id}
use linux_server.Service.Group.Members.{
  distinct, all_positive, unique_members_sound, group_members-roles,
}
use linux_server.Service.Group.Reading.{stored_or-store, stored_or_inv}

-- What comes out of a call of createGroup of the repository: the state is the one that it leaves,
-- and an OK answer has the group that it stored, with status ok, and the ids of the members.
pub record Written {W : Type 0} (members : List ℤ) (result : GroupRepositoryCreateResult) (w : W)
    (x : Outcome CreateGroupResult × W) : Type 0 where
  pub state : x.1 ≡ w
  pub answer :
      (r : CreateGroupResult)
      → x.0 ≡ answered r
      → (is_ok result.status ≡ true) × (result.group ≡ some r.group) × (r.member_ids ≡ members)

-- Who is in the group: the caller and the users that the request names, each once.
pub record Members (req : CreateGroupRequest) (creator : ℤ) (ms : List ℤ) : Type 0 where
  pub once : distinct ms ≡ true
  pub named_positive : all_positive req.member_ids ≡ true
  pub same : (x : ℤ) → member_of x ms ≡ (member_of x (creator ∷ []) || member_of x req.member_ids)

unique_members-Members :
    (req : CreateGroupRequest) (creator : ℤ) (ms : List ℤ)
    → unique_members (creator ∷ []) req.member_ids ≡ some ms
    → Members req creator ms
unique_members-Members req creator ms e =
    let facts = unique_members_sound creator req.member_ids ms e in
    record { once = facts.0; named_positive = facts.1; same = facts.2 }

-- From the one state to the other, each user is searched for and found, with status ok.
pub data Found {W : Type 0} (users : UserRepository W) : List ℤ → W → W → Type 0 where
  no_more : (w : W) → Found users [] w w
  one_more :
      (m : ℤ) (ms : List ℤ) (w v : W) (user : UserRecord)
      → is_ok (users.find_by_id m w).0.status ≡ true
      → (users.find_by_id m w).0.user ≡ some user
      → Found users ms (users.find_by_id m w).1 v
      → Found users (m ∷ ms) w v

has_value_inv : {A : Type 0} (o : Option A) → has_value o ≡ true → (a : A) × (o ≡ some a)
has_value_inv none e = absurd (ground arith)
has_value_inv (some a) e = (a, refl)

state_inv :
    {W : Type 0} (w v : W) (u : Unit {0})
    → ◌≡◌ {A = Outcome (Unit {0}) × W} (answered tt, w) (answered u, v)
    → w ≡ v
state_inv w v u e = ap (λ p. p.1) e

require_users-Found :
    {W : Type 0} (users : UserRepository W) (ms : List ℤ) (w v : W) (u : Unit {0})
    → require_users users ms w ≡ (answered u, v)
    → Found users ms w v
unfolding require_users require_user
require_users-Found users [] w v u e =
    subst (λ x. Found users [] w x) (state_inv w v u e) (no_more w)
require_users-Found users (m ∷ ms) w v u e =
    let (there, rest) = check_then _ _ _ _ _ v u (call_then _ _ w v u e) in
    let (user, given) = has_value_inv (users.find_by_id m w).0.user (ground arith) in
    one_more m ms w v user (ground arith) given (require_users-Found users ms _ v u rest)

module _ {W : Type 0} (service : GroupService W) (sessions : SessionManager) (conn_id : ℕ)
    (req : CreateGroupRequest) (random : Option Bytes) (w : W) where
  -- The state behind the search for the members.
  abbrev pub members_checked : List ℤ → W
  members_checked ms = (require_users service.user_repository ms w).1

  -- A group that is stored, with its caller as the owner.
  pub record Created (x : Outcome CreateGroupResult × W) : Type 0 where
    pub session : ConnectionSession
    pub logged_in : get_authenticated_session sessions conn_id ≡ some session
    pub members : List ℤ
    pub in_group : Members req session.user_id members
    pub users_found : Found service.user_repository members w (members_checked members)
    pub some_id : is_empty (build_group_id random) ≡ false
    pub stored_users :
        map (λ m. m.user_id) (group_members (build_group_id random) session.user_id members)
        ≡ members
    pub stored_roles :
        All
          (λ m.
            (m.group_id ≡ build_group_id random)
            × (m.role ≡ (if m.user_id == session.user_id then codes "owner" else codes "member")))
          (group_members (build_group_id random) session.user_id members)
    pub wrote :
        Written members
          (service.group_repository.create_group
            (record {
              id = build_group_id random;
              name = req.name;
              owner_id = session.user_id;
              conversation_id = build_group_conversation_id (build_group_id random);
              created_at = [];
              updated_at = [];
            })
            (group_members (build_group_id random) session.user_id members)
            (members_checked members)).0
          (service.group_repository.create_group
            (record {
              id = build_group_id random;
              name = req.name;
              owner_id = session.user_id;
              conversation_id = build_group_conversation_id (build_group_id random);
              created_at = [];
              updated_at = [];
            })
            (group_members (build_group_id random) session.user_id members)
            (members_checked members)).1
          x

  -- Nothing is written, or a group is.
  pub data CreateEffect : Outcome CreateGroupResult × W → Type 0 where
    at_once : (r : Refusal) → CreateEffect (refused r, w)
    behind_users :
        (r : Refusal) (session : ConnectionSession) (ms : List ℤ)
        → get_authenticated_session sessions conn_id ≡ some session
        → Members req session.user_id ms
        → CreateEffect (refused r, members_checked ms)
    created : (x : Outcome CreateGroupResult × W) → Created x → CreateEffect x

refused_answer :
    (r : Refusal) (a : CreateGroupResult)
    → ◌≡◌ {A = Outcome CreateGroupResult} (refused r) (answered a)
    → ⊥
refused_answer r a e = cc e

module _ {W : Type 0} where
  present_or-store :
      {A : Type 0} (code : ErrorCode) (text : Bytes) (o : Option A) (w : W)
      → (present_or code text o w).1 ≡ w
  present_or-store code text none w = refl
  present_or-store code text (some a) w = refl

  present_or_inv :
      {A : Type 0} (code : ErrorCode) (text : Bytes) (o : Option A) (w : W) (a : A)
      → (present_or code text o w).0 ≡ answered a
      → o ≡ some a
  present_or_inv code text none w a e = absurd (ground arith)
  present_or_inv code text (some b) w a e = ap some (answered_inv b a e)

  finish-Written :
      (members : List ℤ) (result : GroupRepositoryCreateResult) (w : W)
      → Written members result w (
          (stored_or result.status (codes "create group failed") result.group >>= λ group.
          pure (record { group = group; member_ids = members }))
            w)
  finish-Written members result w =
      test_step (Written members result w) _ _ w (stored_or-store _ _ _ w)
        (λ r. record { state = refl; answer = λ a e. absurd (refused_answer r a e) })
        (λ g stored. record {
          state = refl;
          answer = λ a e.
              let (ok, found) = stored_or_inv _ _ _ w g stored in
              let same = answered_inv _ a e in
              (ok, found ∙ ap (λ x. some x.group) same, ap (λ x. x.member_ids) (sym same));
        })

false_of_not : (b : Bool) → not b ≡ true → b ≡ false
false_of_not b e = ground arith

module _ {W : Type 0} (service : GroupService W) (sessions : SessionManager) (conn_id : ℕ) where
  -- createGroup writes only for an authenticated caller and once every member was found: then the
  -- state is the one that the repository's createGroup leaves for a group of the caller, who is in
  -- it as owner, and of the users that the request names, who are plain members, each once, and an
  -- OK answer has that group and those members. Every other call is refused, with the state as it
  -- was or behind the search for the members.
  pub create_group_sound :
      (req : CreateGroupRequest) (random : Option Bytes) (w : W)
      → CreateEffect service sessions conn_id req random w
          (create_group service sessions conn_id req random w)
  unfolding create_group
  create_group_sound req random w =
      let P = CreateEffect service sessions conn_id req random w in
      session_step P sessions conn_id _ w at_once (λ session logged_in.
        check_step P _ _ _ _ w at_once (λ name_valid. check_step P _ _ _ _ w at_once (λ few.
          test_step P _ _ w (present_or-store _ _ _ w) at_once (λ ms unique.
            let who =
              unique_members-Members req session.user_id ms (present_or_inv _ _ _ w ms unique) in
            bind_step P _ _ w (λ r. behind_users r session ms logged_in who)
              (λ u exist.
                check_step P _ _ _ _ _ (λ r. behind_users r session ms logged_in who)
                  (λ some_id. created _ (record {
                    session = session;
                    logged_in = logged_in;
                    members = ms;
                    in_group = who;
                    users_found =
                        require_users-Found service.user_repository ms w _ u
                          (answer_pair (require_users service.user_repository ms) w u exist);
                    some_id = false_of_not _ some_id;
                    stored_users =
                        (group_members-roles (build_group_id random) session.user_id ms).0;
                    stored_roles =
                        (group_members-roles (build_group_id random) session.user_id ms).1;
                    wrote = call_step (Written ms _ _) _ _ _ (finish-Written ms _ _);
                  })))))))
