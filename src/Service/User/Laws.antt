-- ===== src/Service/User/Laws.antt =====
-- What an answer of `login` and of `registerUser` (src/service/user_service.cc) stands for.
use linux_server.Base.{
  ℕ, Bool, true, false, not, ◌&&◌, ◌≡◌, ◌≢◌, refl, ap, sym, ◌∙◌, [], ◌∷◌, Option, none, some, Bytes,
  codes, arith, All, ℤ, length, hex_bytes, length-hex_bytes, hex_bytes-All, is_lower_hex,
  Bool-cases, inl, inr, ◌*◌,
}
use linux_server.Model.Status.{is_ok}
use linux_server.Model.Records.{UserRecord}
use linux_server.Validation.Validator
use linux_server.Validation.Validator.{all_xdigits}
use linux_server.Service.Exec.{answered, ◌>>=◌, bind_inv, check_then, call_then, answered_inv}
use linux_server.Service.Interfaces.{FindUserResult}
use linux_server.Service.User.{
  UserService, LoginRequest, LoginResult, login, require_user_record, generate_token,
}

-- A login: the user that the repository found under the name, whose hash the password fits.
pub record LoggedIn {W : Type 0} (service : UserService W) (req : LoginRequest)
    (random : Option Bytes) (r : LoginResult) : Type 0 where
  pub at : W
  pub user : UserRecord
  pub found_ok : is_ok (service.user_repository.find_by_username req.username at).0.status ≡ true
  pub found : (service.user_repository.find_by_username req.username at).0.user ≡ some user
  pub verified : service.password_hasher.verify req.password user.password_hash ≡ true
  pub fresh_token : r.token ≡ generate_token random
  pub some_token : r.token ≢ []
  pub session : r.session ≡ record {
    authenticated = true;
    user_id = user.id;
    username = user.username;
    token = r.token;
  }

require_user_record_inv :
    {W : Type 0} (result : FindUserResult) (w : W) (user : UserRecord)
    → (require_user_record result w).0 ≡ answered user
    → (is_ok result.status ≡ true) × (result.user ≡ some user)
unfolding require_user_record ◌>>=◌
require_user_record_inv result w user e = (ground arith, ground arith)

not_empty_inv : (s : Bytes) → not (linux_server.Base.is_empty s) ≡ true → s ≢ []
not_empty_inv [] h = absurd (ground arith)
not_empty_inv (c ∷ cs) h = λ e. cc e

module _ {W : Type 0} (service : UserService W) where
  -- login answers OK only with a session of the user that the repository has under the name, only
  -- where the stored hash verifies the password, and with the token that was just generated.
  pub login_sound :
      (req : LoginRequest) (identity : Bytes) (random : Option Bytes) (w w' : W) (r : LoginResult)
      → login service req identity random w ≡ (answered r, w')
      → LoggedIn service req random r
  unfolding login
  login_sound req identity random w w' r e =
      let (u1, valid, k1) = bind_inv _ _ _ w' r e in
      let (u2, free, k2) = bind_inv _ _ _ w' r k1 in
      let (user, known, k3) = bind_inv _ _ _ w' r (call_then _ _ _ w' r k2) in
      let (verified, k4) = check_then _ _ _ _ _ w' r k3 in
      let (u5, upgraded, k5) = bind_inv _ _ _ w' r k4 in
      let (some_token, k6) = check_then _ _ _ _ _ w' r k5 in
      let answer = answered_inv _ r (ap (λ p. p.0) k6) in
      let facts = require_user_record_inv _ _ user known in
      let same_token = sym (ap (λ x. x.token) answer) in
      record {
        at = _;
        user = user;
        found_ok = facts.0;
        found = facts.1;
        verified = verified;
        fresh_token = same_token;
        some_token = λ q. not_empty_inv (generate_token random) some_token (sym same_token ∙ q);
        session =
            sym (ap (λ x. x.session) answer)
            ∙ ap
                (λ t. record {
                  authenticated = true;
                  user_id = user.id;
                  username = user.username;
                  token = t;
                })
                (sym same_token);
      }

all_xdigits_hex : (s : Bytes) → All (λ c. is_lower_hex c ≡ true) s → all_xdigits s ≡ true
unfolding all_xdigits
all_xdigits_hex [] h = refl
all_xdigits_hex (c ∷ cs) h = ground (arith, all_xdigits_hex cs h.1)

-- A token that is generated from 32 random bytes passes the check that a resumed session makes.
pub token-generate_token :
    (bytes : Bytes)
    → length bytes ≡ 32
    → (Validator.token (generate_token (some bytes))).valid ≡ true
unfolding generate_token Validator.token
token-generate_token bytes h =
    ground (arith, length-hex_bytes bytes, all_xdigits_hex (hex_bytes bytes) (hex_bytes-All bytes))
