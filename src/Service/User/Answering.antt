-- ===== src/Service/User/Answering.antt =====
-- When `login` (src/service/user_service.cc) answers OK, and what it says of wrong credentials.
use linux_server.Base.{
  Bool, true, false, ◌≡◌, refl, ◌∙◌, ◌⊎◌, inl, inr, Option, some, Bytes, codes, arith,
}
use linux_server.Model.Status.{
  RepositoryStatus, ErrorCode, is_ok, is_not_found, invalid_credentials,
}
use linux_server.Model.Records.{UserRecord}
use linux_server.Service.Exec.{Exec, Outcome, answered, refuse, ◌>>=◌, ◌>>◌, bind_answered, check}
use linux_server.Service.Interfaces.{FindUserResult}
use linux_server.Service.User.{
  UserService, LoginRequest, LoginResult, login, validate_login_request, limit_identity,
  require_user_record, is_query_error,
}

-- A login that gets to the look at the credentials.
pub record Admitted {W : Type 0} (service : UserService W) (req : LoginRequest) (identity : Bytes)
    (w : W) : Type 0 where
  pub valid : validate_login_request req w ≡ (answered tt, w)
  pub limited : W
  pub within_limit :
      limit_identity service.rate_limiter
        (codes "login")
        (codes "login rate limit exceeded")
        identity
        service.redis_config.login_rate_limit
        service.redis_config.login_rate_window_seconds
        w
      ≡ (answered tt, limited)

-- What the repository says of the name.
abbrev pub found_by : {W : Type 0} → UserService W → LoginRequest → W → FindUserResult × W
found_by service req w = service.user_repository.find_by_username req.username w

-- The credentials are wrong: nobody has the name, or the password does not fit.
abbrev pub WrongCredentials : {W : Type 0} → UserService W → LoginRequest → W → Type 0
WrongCredentials service req w =
    (is_not_found (found_by service req w).0.status ≡ true)
    ⊎ ((user : UserRecord) × (is_ok (found_by service req w).0.status ≡ true)
        × ((found_by service req w).0.user ≡ some user)
        × (service.password_hasher.verify req.password user.password_hash ≡ false))

abbrev pub wrong : {W : Type 0} → W → Outcome LoginResult × W
wrong = refuse invalid_credentials (codes "invalid username or password")

missing_quiet : (s : RepositoryStatus) → is_not_found s ≡ true → is_query_error s ≡ false
missing_quiet s h = ground arith

ok_quiet :
    (s : RepositoryStatus) → is_ok s ≡ true → (is_query_error s ≡ false) × (is_not_found s ≡ false)
ok_quiet s h = (ground arith, ground arith)

module _ {W : Type 0} where
  unknown_refused :
      {B : Type 0} (found : FindUserResult) (f : UserRecord → Exec W B) (w : W)
      → is_not_found found.status ≡ true
      → (require_user_record found >>= f) w
        ≡ refuse invalid_credentials (codes "invalid username or password") w
  unfolding require_user_record ◌>>=◌
  unknown_refused found f w h = rw (missing_quiet found.status h, h) refl

  known_passes :
      (found : FindUserResult) (user : UserRecord) (w : W)
      → is_ok found.status ≡ true
      → found.user ≡ some user
      → require_user_record found w ≡ (answered user, w)
  unfolding require_user_record ◌>>=◌
  known_passes found user w ok there =
      let (quiet, present) = ok_quiet found.status ok in rw (quiet, present, ok, there) refl

  unverified_refused :
      {B : Type 0} (b : Bool) (code : ErrorCode) (text : Bytes) (n : Exec W B) (w : W)
      → b ≡ false
      → (check b code text >> n) w ≡ refuse code text w
  unfolding ◌>>=◌
  unverified_refused b code text n w e = rw e refl

  verified_passes :
      (b : Bool) (code : ErrorCode) (text : Bytes) (w : W)
      → b ≡ true
      → check b code text w ≡ (answered tt, w)
  verified_passes b code text w e = rw e refl

module _ {W : Type 0} (service : UserService W) (req : LoginRequest) (identity : Bytes)
    (random : Option Bytes) (w : W) (h : Admitted service req identity w) where
  -- Wrong credentials get one and the same refusal, whether nobody has the name or the password
  -- does not fit, so the answer does not tell which names are taken.
  pub login_refuses :
      WrongCredentials service req h.limited
      → login service req identity random w ≡ wrong (found_by service req h.limited).1
  unfolding login
  login_refuses (inl unknown) =
      let found = found_by service req h.limited in
      bind_answered _ _ w w tt h.valid
      ∙ bind_answered _ _ w h.limited tt h.within_limit
      ∙ bind_answered _ _ h.limited found.1 found.0 refl
      ∙ unknown_refused found.0 _ found.1 unknown
  login_refuses (inr (user, ok, there, unverified)) =
      let found = found_by service req h.limited in
      bind_answered _ _ w w tt h.valid
      ∙ bind_answered _ _ w h.limited tt h.within_limit
      ∙ bind_answered _ _ h.limited found.1 found.0 refl
      ∙ bind_answered _ _ found.1 found.1 user (known_passes found.0 user found.1 ok there)
      ∙ unverified_refused _ _ _ _ found.1 unverified
