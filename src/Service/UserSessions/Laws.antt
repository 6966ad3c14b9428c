-- ===== src/Service/UserSessions/Laws.antt =====
-- Login state of a connection as `UserService` (src/service/user_service.cc) keeps it.
use linux_server.Base.{
  ℕ, true, false, ◌≡◌, ◌≢◌, refl, ap, sym, subst, beq_iff, ◌∙◌, Option, none, some, arith, ℤ, ◌==◌,
  int_eq, nat_eq, beq_refl, beq_of_ne, Bool-cases, Option-cases, inl, inr, codes, if◌then◌else◌,
}
use linux_server.Session.Manager.{ConnectionSession, SessionManager, get_session, can_bind}
use linux_server.Session.Manager.Refinement.{
  Sessions, Refines, update, bind_session-Refines, clear_session-Refines,
}
use linux_server.Model.Status.{user_not_found}
use linux_server.Service.Exec.{Outcome, answered, refuse}
use linux_server.Service.User.{UserService}
use linux_server.Service.UserSessions.{
  whoami, who, session_of, bind_session, logout_session, is_connection_bound_to_user,
}

-- The answer to a connection that is not logged in.
abbrev pub nobody : {W : Type 0} → W → Outcome ConnectionSession × W
nobody = refuse user_not_found (codes "user not logged in")

can_bind-authenticated : (s : ConnectionSession) → can_bind s ≡ true → s.authenticated ≡ true
can_bind-authenticated s h = ground arith

who_some :
    {W : Type 0} (o : Option ConnectionSession) (s : ConnectionSession) (w : W)
    → o ≡ some s
    → s.authenticated ≡ true
    → ◌≡◌ {A = Outcome ConnectionSession × W} (who o w) (answered s, w)
who_some o s w e h = rw (e, h) refl

session_of-some :
    (o : Option ConnectionSession) (s : ConnectionSession)
    → o ≡ some s
    → s.authenticated ≡ true
    → session_of s.user_id o ≡ true
session_of-some o s e h = rw (e, h) (beq_refl s.user_id)

absent : (spec : Sessions) (k j : ℕ) → spec k ≡ none → spec j ≡ update spec k none j
absent spec k j e = elim (Bool-cases (k == j)) [
  | inl q ↦ rw q (subst (λ i. spec i ≡ none) ((beq_iff k j).0 q) e)
  | inr q ↦ rw q refl
]

module _ {W : Type 0} (service : UserService W) (sessions : SessionManager) (spec : Sessions)
    (r : Refines sessions spec) (k : ℕ) where
  bound_session :
      (s : ConnectionSession) (now : ℤ) (w : W)
      → can_bind s ≡ true
      → (j : ℕ)
      → get_session (bind_session service sessions k s now w).0 j ≡ update spec k (some s) j
  unfolding bind_session
  bound_session s now w h j =
      (bind_session-Refines sessions spec r k s).sessions j
      ∙ ap (λ b. (if b then update spec k (some s) else spec) j) h

  -- After a session is bound, its connection answers whoami with it and counts as bound to its
  -- user, and each other connection answers as before.
  pub whoami-bind_session :
      (s : ConnectionSession) (now : ℤ) (w u : W)
      → can_bind s ≡ true
      → let after = (bind_session service sessions k s now w).0 in
        (◌≡◌ {A = Outcome ConnectionSession × W} (whoami after k u) (answered s, u))
        × (is_connection_bound_to_user after k s.user_id ≡ true)
        × ((j : ℕ) → j ≢ k → whoami after j u ≡ whoami sessions j u)
  unfolding whoami is_connection_bound_to_user
  whoami-bind_session s now w u h =
      let after = (bind_session service sessions k s now w).0 in
      let here = bound_session s now w h k ∙ ap (λ b. if b then some s else spec k) (beq_refl k) in
      (
        who_some (get_session after k) s u here (can_bind-authenticated s h),
        session_of-some (get_session after k) s here (can_bind-authenticated s h),
        λ j other.
            ap (λ o. who o u)
              (bound_session s now w h j
                ∙ ap (λ b. if b then some s else spec j) (beq_of_ne k j (λ e. other (sym e)))
                ∙ sym (r.sessions j)),
      )

  ended_session :
      (w : W) (j : ℕ) → get_session (logout_session service sessions k w).0 j ≡ update spec k none j
  unfolding logout_session
  ended_session w j = elim (Option-cases (get_session sessions k)) [
    | inl e ↦ rw (e, logout_session) (r.sessions j ∙ absent spec k j (sym (r.sessions k) ∙ e))
    | inr (s, e) ↦ rw (e, logout_session) ((clear_session-Refines sessions spec r k).sessions j)
  ]

  -- After an explicit logout the connection answers whoami as one that is not logged in, is bound
  -- to no user, and each other connection answers as before.
  pub whoami-logout_session :
      (w u : W)
      → let after = (logout_session service sessions k w).0 in
        (whoami after k u ≡ nobody u)
        × ((user : ℤ) → is_connection_bound_to_user after k user ≡ false)
        × ((j : ℕ) → j ≢ k → whoami after j u ≡ whoami sessions j u)
  unfolding whoami is_connection_bound_to_user
  whoami-logout_session w u =
      let after = (logout_session service sessions k w).0 in
      let here = ended_session w k ∙ ap (λ b. if b then none else spec k) (beq_refl k) in
      (
        ap (λ o. who o u) here,
        λ user. ap (session_of user) here,
        λ j other.
            ap (λ o. who o u)
              (ended_session w j
                ∙ ap (λ b. if b then none else spec j) (beq_of_ne k j (λ e. other (sym e)))
                ∙ sym (r.sessions j)),
      )
