-- ===== src/Service/Friend/Checks.antt =====
-- What the checks of `FriendService` (src/service/friend_service.cc) let through, and that they leave
-- the stores alone.
use linux_server.Base.{
  Bool, true, false, not, ◌&&◌, ◌||◌, ◌≡◌, ◌≢◌, refl, Option, none, some, arith, ℤ, ◌==◌, int_eq,
  int_beq_iff, Bool-cases, Option-cases, ◌⊎◌, inl, inr, Bytes,
}
use linux_server.Model.Status.{
  ErrorCode, RepositoryStatus, status_ok, not_found, is_ok, is_not_found, is_duplicate,
}
use linux_server.Model.Records.{FriendshipRecord, FriendshipStatus}
use linux_server.Service.Exec.{answered, check, ◌>>=◌}
use linux_server.Service.Interfaces.{
  FindUserResult, FindFriendshipResult, CreateFriendshipResult, UpdateFriendshipResult,
}
use linux_server.Service.Friend.{
  require_request, require_no_friendship, accept_created, accept_updated, existing_friendship_error,
  validate_user_exists, has_value,
}

pub not_equal : (a b : ℤ) → not (a == b) ≡ true → a ≢ b
not_equal a b h = ground (arith, int_beq_iff a b)

is_ok_inv : (s : RepositoryStatus) → is_ok s ≡ true → s ≡ status_ok
is_ok_inv s h = ground arith

is_not_found_inv : (s : RepositoryStatus) → is_not_found s ≡ true → s ≡ not_found
is_not_found_inv s h = ground arith

module _ {W : Type 0} where
  pub require_request_inv :
      (requester addressee : ℤ) (o : Option FriendshipRecord) (w : W) (u : Unit {0})
      → (require_request requester addressee o w).0 ≡ answered u
      → (f : FriendshipRecord) × (o ≡ some f)
        × (f.status ≡ FriendshipStatus.pending)
        × (f.requester_id ≡ requester)
        × (f.addressee_id ≡ addressee)
  unfolding require_request
  require_request_inv requester addressee none w u e = absurd (ground arith)
  require_request_inv requester addressee (some f) w u e = (
    f,
    refl,
    ground arith,
    ground (arith, int_beq_iff f.requester_id requester),
    ground (arith, int_beq_iff f.addressee_id addressee),
  )

  pub accept_updated_inv :
      (result : UpdateFriendshipResult) (w : W) (f : FriendshipRecord)
      → (accept_updated result w).0 ≡ answered f
      → (result.status ≡ status_ok) × (result.friendship ≡ some f)
  unfolding accept_updated ◌>>=◌
  accept_updated_inv result w f e = (ground (arith, is_ok_inv result.status), ground arith)

  pub require_no_friendship_inv :
      (result : FindFriendshipResult) (w : W) (u : Unit {0})
      → (require_no_friendship result w).0 ≡ answered u
      → result.status ≡ not_found
  unfolding require_no_friendship existing_friendship_error
  require_no_friendship_inv result w u e = ground (arith, is_not_found_inv result.status)

  pub accept_created_inv :
      (result : CreateFriendshipResult) (w : W) (f : FriendshipRecord)
      → (accept_created result w).0 ≡ answered f
      → (result.status ≡ status_ok) × (result.friendship ≡ some f)
  unfolding accept_created ◌>>=◌
  accept_created_inv result w f e = (ground (arith, is_ok_inv result.status), ground arith)

module _ {W : Type 0} where
  pub accept_created-store :
      (result : CreateFriendshipResult) (w : W) → (accept_created result w).1 ≡ w
  unfolding accept_created ◌>>=◌
  accept_created-store result w = elim (Bool-cases (not (is_duplicate result.status))) [
    | inr e ↦ rw e refl
    | inl e ↦ elim (Option-cases result.friendship) [
      | inl f ↦ rw (e, f) refl
      | inr (x, f) ↦ elim (Bool-cases (is_ok result.status)) [
        | inl g ↦ rw (e, f, g) refl
        | inr g ↦ rw (e, f, g) refl
      ]
    ]
  ]

status_cases :
    (s : FriendshipStatus)
    → (s ≡ FriendshipStatus.pending)
      ⊎ ((s ≡ FriendshipStatus.accepted) ⊎ (s ≡ FriendshipStatus.blocked))
status_cases FriendshipStatus.pending = inl refl
status_cases FriendshipStatus.accepted = inr (inl refl)
status_cases FriendshipStatus.blocked = inr (inr refl)

module _ {W : Type 0} where
  pub validate_user_exists-store :
      (missing failed : Bytes) (user : FindUserResult) (w : W)
      → (validate_user_exists missing failed user w).1 ≡ w
  unfolding validate_user_exists ◌>>=◌
  validate_user_exists-store missing failed user w =
      elim (Bool-cases
        (not (is_not_found user.status || (is_ok user.status && not (has_value user.user))))) [
          | inr e ↦ rw e refl
          | inl e ↦ elim (Bool-cases (is_ok user.status)) [
            | inl f ↦ rw (e, f) refl
            | inr f ↦ rw (e, f) refl
          ]
        ]

  existing_friendship_error-store :
      (status : FriendshipStatus) (w : W)
      → (existing_friendship_error {A = Unit {0}} status w).1 ≡ w
  unfolding existing_friendship_error
  existing_friendship_error-store FriendshipStatus.accepted w = refl
  existing_friendship_error-store FriendshipStatus.blocked w = refl
  existing_friendship_error-store FriendshipStatus.pending w = refl

  check-store : (b : Bool) (code : ErrorCode) (text : Bytes) (w : W) → (check b code text w).1 ≡ w
  check-store true code text w = refl
  check-store false code text w = refl

  pub require_no_friendship-store :
      (existing : FindFriendshipResult) (w : W) → (require_no_friendship existing w).1 ≡ w
  unfolding require_no_friendship
  require_no_friendship-store existing w = elim (Option-cases existing.friendship) [
    | inl e ↦ rw e (check-store _ _ _ w)
    | inr (f, e) ↦ elim (Bool-cases (is_ok existing.status)) [
      | inl g ↦ rw (e, g) (existing_friendship_error-store f.status w)
      | inr g ↦ rw (e, g) (check-store _ _ _ w)
    ]
  ]

  pub require_request-store :
      (requester addressee : ℤ) (o : Option FriendshipRecord) (w : W)
      → (require_request requester addressee o w).1 ≡ w
  unfolding require_request
  require_request-store requester addressee none w = refl
  require_request-store requester addressee (some f) w = elim (status_cases f.status) [
    | inl e ↦ rw e (check-store _ _ _ w)
    | inr (inl e) ↦ rw e refl
    | inr (inr e) ↦ rw e refl
  ]

  pub accept_updated-store :
      (result : UpdateFriendshipResult) (w : W) → (accept_updated result w).1 ≡ w
  unfolding accept_updated ◌>>=◌
  accept_updated-store result w = elim (Bool-cases (not (is_not_found result.status))) [
    | inr e ↦ rw e refl
    | inl e ↦ elim (Bool-cases (is_ok result.status)) [
      | inr f ↦ rw (e, f) refl
      | inl f ↦ elim (Option-cases result.friendship) [
        | inl g ↦ rw (e, f, g) refl
        | inr (x, g) ↦ rw (e, f, g) refl
      ]
    ]
  ]
