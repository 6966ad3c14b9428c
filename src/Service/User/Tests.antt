-- ===== src/Service/User/Tests.antt =====
-- The user service (src/service/user_service.cc) in the small world.
use linux_server.Base.{
  inr, ℕ, ℤ, ◌≡◌, ◌≢◌, refl, [], ◌∷◌, List, Bytes, none, some, true, false, codes, pos, hex_bytes,
  hex_fixed,
}
use linux_server.Session.Manager
use linux_server.Session.Manager.{ConnectionSession, SessionManager}
use linux_server.Session.Manager.Refinement.{run, binds, spec_run, run-Refines}
use linux_server.Validation.Validator
use linux_server.Validation.Validator.{login_password, has_nul, is_valid_identifier}
use linux_server.Service.Exec.{Outcome, answered, ◌>>=◌}
use linux_server.Service.Fixtures.{
  user_named, World, nothing, ann, bob, config, user_repository, password_hasher,
}
use linux_server.Service.User
use linux_server.Service.User.{UserService, LoginRequest, LoginResult, login, generate_token}
use linux_server.Service.UserSessions.{
  whoami, bind_session, logout_session, is_connection_bound_to_user,
}
use linux_server.Service.User.Answering.{Admitted, found_by, wrong, login_refuses}
use linux_server.Service.User.Laws.{LoggedIn, login_sound}
use linux_server.Service.UserSessions.Laws.{whoami-bind_session, whoami-logout_session, nobody}

abbrev service : UserService World
service = record {
  user_repository = user_repository;
  global_session_store = none;
  rate_limiter = none;
  redis_config = config;
  password_hasher = password_hasher;
}

abbrev request : LoginRequest
request = record { username = codes "ann"; password = codes "secret" }

abbrev random : Bytes
random = codes "0123456789abcdef0123456789abcdef"

abbrev answer : LoginResult
answer = record {
  user_id = pos 7;
  nickname = codes "ann";
  token = generate_token (some random);
  session = record {
    authenticated = true;
    user_id = pos 7;
    username = codes "ann";
    token = generate_token (some random);
  };
}

ann_logs_in : login service request [] (some random) nothing ≡ (answered answer, nothing)
unfolding login ◌>>=◌ User.validate_login_request User.limit_identity User.require_user_record
    User.upgrade_hash Validator.username login_password has_nul is_valid_identifier generate_token
    hex_bytes hex_fixed
ann_logs_in = refl

login_sound_example : LoggedIn service request (some random) answer
login_sound_example =
    login_sound service request [] (some random) nothing nothing answer ann_logs_in

abbrev history : List linux_server.Session.Manager.Refinement.Call
history = binds 1 ann ∷ binds 2 bob ∷ []

abbrev manager : SessionManager
manager = run Manager.empty history

whoami-bind_session_example :
    (◌≡◌ {A = Outcome ConnectionSession × World}
      (whoami (bind_session service manager 3 ann (pos 0) nothing).0 3 nothing)
      (answered ann, nothing))
    × (is_connection_bound_to_user (bind_session service manager 3 ann (pos 0) nothing).0 3 (pos 7)
        ≡ true)
    × ((j : ℕ)
        → j ≢ 3
        → whoami (bind_session service manager 3 ann (pos 0) nothing).0 j nothing
          ≡ whoami manager j nothing)
whoami-bind_session_example =
    whoami-bind_session service manager (spec_run (λ k. none) history) (run-Refines history) 3 ann
      (pos 0) nothing nothing refl

whoami-logout_session_example :
    (whoami (logout_session service manager 1 nothing).0 1 nothing ≡ nobody nothing)
    × ((user : ℤ)
        → is_connection_bound_to_user (logout_session service manager 1 nothing).0 1 user ≡ false)
    × ((j : ℕ)
        → j ≢ 1
        → whoami (logout_session service manager 1 nothing).0 j nothing ≡ whoami manager j nothing)
whoami-logout_session_example =
    whoami-logout_session service manager (spec_run (λ k. none) history) (run-Refines history) 1
      nothing nothing

abbrev guess : LoginRequest
guess = record { username = codes "ann"; password = codes "guess" }

guess-Admitted : Admitted service guess [] nothing
unfolding User.validate_login_request User.limit_identity Validator.username login_password has_nul
    is_valid_identifier ◌>>=◌
guess-Admitted = record { valid = refl; limited = nothing; within_limit = refl }

login_refuses_example :
    login service guess [] none nothing ≡ wrong (found_by service guess guess-Admitted.limited).1
login_refuses_example =
    login_refuses service guess [] none nothing guess-Admitted
      (inr (user_named (pos 7) (codes "ann"), refl, refl, refl))

request-Admitted : Admitted service request [] nothing
unfolding User.validate_login_request User.limit_identity Validator.username login_password has_nul
    is_valid_identifier ◌>>=◌
request-Admitted = record { valid = refl; limited = nothing; within_limit = refl }
