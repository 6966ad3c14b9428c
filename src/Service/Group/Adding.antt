-- ===== src/Service/Group/Adding.antt =====
-- Who may add to a group (src/service/group_service.cc, `addGroupMember`).
use linux_server.Base.{
  All, ◌≢◌, ℕ, true, not, ◌&&◌, ◌≡◌, refl, ap, ◌⊎◌, List, [], Option, none, some, Bytes, codes,
  arith, ℤ, ◌==◌, list_eq, nat_eq, list_beq_iff, Bool-cases, inl, inr,
}
use linux_server.Model.Status.{is_ok, is_duplicate, group_member_already_exists}
use linux_server.Model.Records.{GroupRecord, GroupMemberRecord}
use linux_server.Session.Manager.{ConnectionSession, SessionManager}
use linux_server.Service.Exec.{
  Outcome, Refusal, Exec, answered, refused, check, ◌>>=◌, ◌>>◌, check_then, answer_pair,
}
use linux_server.Service.Exec.Steps.{check_step, test_step, call_step, session_step}
use linux_server.Service.Common.{get_authenticated_session}
use linux_server.Service.Interfaces.{FindUserResult, GroupRepositoryAddMemberResult}
use linux_server.Service.Group.{
  GroupService, add_group_member, may_manage, role_can_manage_members, has_value, require_user,
  stored_or,
}
use linux_server.Service.Group.Reading.{
  IsListed, find_member-IsListed, find_member-absent, Listed, OnlyRead, at_once, behind_group,
  behind_members, members_read, find_group_step, stored_or-store, stored_or_inv,
}

can_manage_inv :
    (role : Bytes)
    → role_can_manage_members role ≡ true
    → (role ≡ codes "owner") ⊎ (role ≡ codes "admin")
unfolding role_can_manage_members
can_manage_inv role e = elim (Bool-cases (role == codes "owner")) [
  | inl f ↦ inl ((list_beq_iff role (codes "owner")).0 f)
  | inr f ↦ inr ((list_beq_iff role (codes "admin")).0 (ground arith))
]

may_manage_inv :
    (o : Option GroupMemberRecord)
    → may_manage o ≡ true
    → (a : GroupMemberRecord) × (o ≡ some a) × ((a.role ≡ codes "owner") ⊎ (a.role ≡ codes "admin"))
may_manage_inv none e = absurd (ground arith)
may_manage_inv (some a) e = (a, refl, can_manage_inv a.role e)

absent_inv : (o : Option GroupMemberRecord) → not (has_value o) ≡ true → o ≡ none
absent_inv none h = refl
absent_inv (some a) h = absurd (ground arith)

abbrev pub new_member : Bytes → ℤ → GroupMemberRecord
new_member group_id user_id = record {
  group_id = group_id;
  user_id = user_id;
  role = codes "member";
  joined_at = [];
}

-- What comes out of a call of addMember: the state is the one that it leaves, and an OK answer has
-- the member that it stored, with status ok.
pub record Written {W : Type 0} (result : GroupRepositoryAddMemberResult) (w : W)
    (x : Outcome GroupMemberRecord × W) : Type 0 where
  pub state : x.1 ≡ w
  pub answer :
      (r : GroupMemberRecord)
      → x.0 ≡ answered r
      → (is_ok result.status ≡ true) × (result.member ≡ some r)

module _ {W : Type 0} (service : GroupService W) (sessions : SessionManager) (conn_id : ℕ)
    (group_id : Bytes) (user_id : ℤ) (w : W) where
  -- The state behind the search for the new user.
  abbrev pub user_read : W
  user_read = (service.user_repository.find_by_id user_id w).1

  abbrev pub listed_state : W
  listed_state = members_read service group_id user_read

  -- A member that is added: by whom, and what the repository had listed right before.
  pub record Added (x : Outcome GroupMemberRecord × W) : Type 0 where
    pub session : ConnectionSession
    pub logged_in : get_authenticated_session sessions conn_id ≡ some session
    pub group : GroupRecord
    pub members : List GroupMemberRecord
    pub listed : Listed service group_id user_read group members
    pub actor : GroupMemberRecord
    pub actor_listed : IsListed session.user_id members actor
    pub allowed : (actor.role ≡ codes "owner") ⊎ (actor.role ≡ codes "admin")
    pub was_absent : All (λ m. m.user_id ≢ user_id) members
    pub wrote :
        Written
          (service.group_repository.add_member (new_member group_id user_id) listed_state).0
          (service.group_repository.add_member (new_member group_id user_id) listed_state).1
          x

  -- Nothing is written, or a member is added as may be.
  pub data AddEffect : Outcome GroupMemberRecord × W → Type 0 where
    no_user : (r : Refusal) → AddEffect (refused r, w)
    unwritten :
        (x : Outcome GroupMemberRecord × W)
        → OnlyRead service group_id user_read GroupMemberRecord x
        → AddEffect x
    member_added : (x : Outcome GroupMemberRecord × W) → Added x → AddEffect x

require_user-store :
    {W : Type 0} (missing : Bytes) (user : FindUserResult) (w : W)
    → (require_user missing user w).1 ≡ w
unfolding require_user
require_user-store missing user w = elim (Bool-cases (is_ok user.status && has_value user.user)) [
  | inl e ↦ rw e refl
  | inr e ↦ rw e refl
]

module _ {W : Type 0} where
  -- The end of addGroupMember, on what addMember answered.
  abbrev finish : GroupRepositoryAddMemberResult → Exec W GroupMemberRecord
  finish added = do
    check (not (is_duplicate added.status)) group_member_already_exists
        (codes "group member already exists")
    stored_or added.status (codes "add group member failed") added.member

  finish-store : (added : GroupRepositoryAddMemberResult) (w : W) → (finish added w).1 ≡ w
  unfolding ◌>>=◌
  finish-store added w = elim (Bool-cases (is_duplicate added.status)) [
    | inl e ↦ rw e refl
    | inr e ↦ rw e (stored_or-store _ _ added.member w)
  ]

  finish_inv :
      (added : GroupRepositoryAddMemberResult) (w : W) (r : GroupMemberRecord)
      → (finish added w).0 ≡ answered r
      → (is_ok added.status ≡ true) × (added.member ≡ some r)
  finish_inv added w r e =
      let (new, k) = check_then _ _ _ _ w _ r (answer_pair (finish added) w r e) in
      stored_or_inv _ _ _ w r (ap (λ p. p.0) k)

  finish-Written : (new : GroupRepositoryAddMemberResult) (w : W) → Written new w (finish new w)
  finish-Written new w = record { state = finish-store new w; answer = finish_inv new w }

module _ {W : Type 0} (service : GroupService W) (sessions : SessionManager) (conn_id : ℕ) where
  -- addGroupMember writes only for an authenticated caller that the group's members, listed right
  -- before, have as owner or as admin, and only for a user that they do not have: then the state is
  -- the one that addMember leaves for a plain member of that group, and an OK answer has the member
  -- that it stored, with status ok. Every other call is refused, and its state is the one behind
  -- the reads.
  pub add_group_member_sound :
      (group_id : Bytes) (user_id : ℤ) (w : W)
      → AddEffect service sessions conn_id group_id user_id w
          (add_group_member service sessions conn_id group_id user_id w)
  unfolding add_group_member
  add_group_member_sound group_id user_id w =
      let P = AddEffect service sessions conn_id group_id user_id w in
      session_step P sessions conn_id _ w no_user (λ session logged_in.
        check_step P _ _ _ _ w no_user (λ valid. check_step P _ _ _ _ w no_user (λ positive.
          call_step P _ _ w (
            test_step P _ _ _ (require_user-store _ _ _) (λ r. unwritten _ (at_once r))
              (λ u exists.
                find_group_step service group_id _ P _ (λ r. unwritten _ (behind_group r))
                  (λ r. unwritten _ (behind_members r))
                  (λ g ms listed.
                    check_step P _ _ _ _ _ (λ r. unwritten _ (behind_members r))
                      (λ may.
                        check_step P _ _ _ _ _ (λ r. unwritten _ (behind_members r))
                          (λ absent.
                            let (actor, actor_listed, can_manage) = may_manage_inv _ may in
                            member_added _ (record {
                              session = session;
                              logged_in = logged_in;
                              group = g;
                              members = ms;
                              listed = listed;
                              actor = actor;
                              actor_listed =
                                  find_member-IsListed session.user_id ms actor actor_listed;
                              allowed = can_manage;
                              was_absent = find_member-absent user_id ms (absent_inv _ absent);
                              wrote = call_step (Written _ _) _ _ _ (finish-Written _ _);
                            })))))))))
