-- ===== src/Session/Manager/Tests.antt =====
-- Runs of the session manager (src/server/session_manager.cc), and its theorems at concrete inputs.
use linux_server.Base.{◌≡◌, refl, true, [], ◌∷◌, List, codes, pos, none, lookup, insert}
use linux_server.Session.Manager.{
  ConnectionSession, empty, bind_session, detach, attach, contains, remove, clear_session,
  get_connection_ids,
}
use linux_server.Session.Manager.Refinement.{
  Refines, Call, binds, clears, run, step, spec_run, run-Refines,
}

abbrev ann : ConnectionSession
ann = record { authenticated = true; user_id = pos 7; username = codes "ann"; token = codes "t" }

abbrev bob : ConnectionSession
bob = record { authenticated = true; user_id = pos 8; username = codes "bob"; token = codes "u" }

abbrev history : List Call
history = binds 1 ann ∷ binds 2 ann ∷ binds 1 bob ∷ binds 3 ann ∷ clears 2 ∷ []

history_ids : get_connection_ids (run empty history) (pos 7) ≡ 3 ∷ []
unfolding run step bind_session detach attach contains remove clear_session get_connection_ids
    lookup insert
history_ids = refl

run-Refines_example : Refines (run empty history) (spec_run (λ k. none) history)
run-Refines_example = run-Refines history
