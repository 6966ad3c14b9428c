-- ===== src/Service/Group/Reading.antt =====
-- How the group service (src/service/group_service.cc) reads a group with its members, and what it
-- makes of a stored record.
use linux_server.Base.{
  ℤ, All, ◌++◌, ◌==◌, ◌≢◌, int_eq, int_beq_iff, sym, ap, ◌∙◌, [], ◌∷◌, ◌≡◌, refl, true, List,
  Option, none, some, Bytes, arith, Bool-cases, Option-cases, inl, inr,
}
use linux_server.Model.Status.{RepositoryStatus, is_ok}
use linux_server.Model.Records.{GroupRecord, GroupMemberRecord}
use linux_server.Service.Exec.{Outcome, Refusal, Exec, answered, refused, continue, ◌>>=◌}
use linux_server.Service.Exec.Steps.{check_step, test_step, call_step}
use linux_server.Service.Group.{GroupService, find_group_and_members, find_member, stored_or}

some_inv : {A : Type 0} (a b : A) → some a ≡ some b → a ≡ b
some_inv a b e = cc e

module _ {W A : Type 0} (code : RepositoryStatus) (text : Bytes) where
  pub stored_or_inv :
      (o : Option A) (w : W) (a : A)
      → (stored_or code text o w).0 ≡ answered a
      → (is_ok code ≡ true) × (o ≡ some a)
  unfolding ◌>>=◌
  stored_or_inv none w a e = absurd (ground arith)
  stored_or_inv (some b) w a e = elim (Bool-cases (is_ok code)) [
    | inl h ↦ (h, ground arith)
    | inr h ↦ absurd (ground arith)
  ]

  pub stored_or-store : (o : Option A) (w : W) → (stored_or code text o w).1 ≡ w
  unfolding ◌>>=◌
  stored_or-store o w = elim (Bool-cases (is_ok code)) [
    | inl e ↦ elim (Option-cases o) [ inl f ↦ rw (e, f) refl | inr (a, f) ↦ rw (e, f) refl ]
    | inr e ↦ rw e refl
  ]

-- A user that the list of members has, and as whom.
pub record IsListed (user_id : ℤ) (members : List GroupMemberRecord) (m : GroupMemberRecord)
    : Type 0 where
  pub same_user : m.user_id ≡ user_id
  pub before : List GroupMemberRecord
  pub after : List GroupMemberRecord
  pub in_list : members ≡ before ++ m ∷ after

pub find_member-IsListed :
    (user_id : ℤ) (members : List GroupMemberRecord) (m : GroupMemberRecord)
    → find_member user_id members ≡ some m
    → IsListed user_id members m
unfolding find_member
find_member-IsListed user_id [] m e = absurd (ground arith)
find_member-IsListed user_id (x ∷ xs) m e = elim (Bool-cases (x.user_id == user_id)) [
  | inl f ↦
      let same = some_inv x m (ground arith) in
      record {
        same_user = ap (λ y. y.user_id) (sym same) ∙ (int_beq_iff x.user_id user_id).0 f;
        before = [];
        after = xs;
        in_list = ap (λ y. y ∷ xs) same;
      }
  | inr f ↦
      let rest = find_member-IsListed user_id xs m (ground arith) in
      record {
        same_user = rest.same_user;
        before = x ∷ rest.before;
        after = rest.after;
        in_list = ap (λ ys. x ∷ ys) rest.in_list;
      }
]

pub find_member-absent :
    (user_id : ℤ) (members : List GroupMemberRecord)
    → find_member user_id members ≡ none
    → All (λ m. m.user_id ≢ user_id) members
unfolding find_member
find_member-absent user_id [] e = tt
find_member-absent user_id (x ∷ xs) e = elim (Bool-cases (x.user_id == user_id)) [
  | inl f ↦ absurd (ground arith)
  | inr f ↦ (
    λ same. absurd (ground (arith, int_beq_iff x.user_id user_id)),
    find_member-absent user_id xs (ground arith),
  )
]

module _ {W : Type 0} (service : GroupService W) (group_id : Bytes) (w : W) where
  -- The states behind the search for the group and behind the list of its members.
  abbrev pub group_read : W
  group_read = (service.group_repository.find_group group_id w).1

  abbrev pub members_read : W
  members_read = (service.group_repository.list_members group_id group_read).1

  -- What the repository said of a group and its members.
  pub record Listed (g : GroupRecord) (ms : List GroupMemberRecord) : Type 0 where
    pub group_ok : is_ok (service.group_repository.find_group group_id w).0.status ≡ true
    pub group_found : (service.group_repository.find_group group_id w).0.group ≡ some g
    pub members_ok :
        is_ok (service.group_repository.list_members group_id group_read).0.status ≡ true
    pub members_listed : (service.group_repository.list_members group_id group_read).0.members ≡ ms

  -- A refusal behind nothing but reads.
  pub data OnlyRead (A : Type 0) : Outcome A × W → Type 0 where
    at_once : (r : Refusal) → OnlyRead A (refused r, w)
    behind_group : (r : Refusal) → OnlyRead A (refused r, group_read)
    behind_members : (r : Refusal) → OnlyRead A (refused r, members_read)

  module _ {B : Type 0} (P : Outcome B × W → Type 0)
      (f : GroupRecord × List GroupMemberRecord → Exec W B) where
    abbrev Continues : Outcome (GroupRecord × List GroupMemberRecord) × W → Type 0
    Continues y = P (continue y.0 f y.1)

    continues :
        Continues (find_group_and_members service group_id w)
        → P ((find_group_and_members service group_id >>= f) w)
    unfolding ◌>>=◌
    continues h = h

    -- The two reads refuse behind one of them, or the block goes on with what they found.
    pub find_group_step :
        ((r : Refusal) → P (refused r, group_read))
        → ((r : Refusal) → P (refused r, members_read))
        → ((g : GroupRecord) (ms : List GroupMemberRecord)
            → Listed g ms
            → P (f (g, ms) members_read))
        → P ((find_group_and_members service group_id >>= f) w)
    unfolding find_group_and_members
    find_group_step no_group no_members go = continues (
        call_step Continues _ _ _ (
          check_step Continues _ _ _ _ _ no_group (λ there.
            test_step Continues _ _ _ (stored_or-store _ _ _ _) no_group (λ g stored.
              call_step Continues _ _ _ (
                check_step Continues _ _ _ _ _ no_members (λ listed.
                  let (group_ok, found) = stored_or_inv _ _ _ _ g stored in
                  go g _ (record {
                    group_ok = group_ok;
                    group_found = found;
                    members_ok = listed;
                    members_listed = refl;
                  })))))))
