-- ===== src/Service/Exec/Steps.antt =====
-- What holds of every run of a service method, answers and refusals alike, step by step.
use linux_server.Base.{
  ℕ, ◌≡◌, refl, sym, subst, Bool, true, false, Bytes, some, inl, inr, Option-cases, if◌then◌else◌,
}
use linux_server.Model.Status.{ErrorCode}
use linux_server.Session.Manager.{ConnectionSession, SessionManager}
use linux_server.Service.Exec.{
  Outcome, Refusal, Exec, answered, refused, check, call, continue, ◌>>=◌, ◌>>◌,
}
use linux_server.Service.Common.{get_authenticated_session, require_session}

module _ {W B : Type 0} (P : Outcome B × W → Type 0) where
  -- A check refuses where the block stands, or the block goes on from there.
  pub check_step :
      (b : Bool) (code : ErrorCode) (text : Bytes) (n : Exec W B) (w : W)
      → ((r : Refusal) → P (refused r, w))
      → (b ≡ true → P (n w))
      → P ((check b code text >> n) w)
  unfolding ◌>>=◌
  check_step true code text n w stop go = go refl
  check_step false code text n w stop go = stop _

  continue_step :
      {A : Type 0} (o : Outcome A) (f : A → Exec W B) (w : W)
      → ((r : Refusal) → P (refused r, w))
      → ((a : A) → o ≡ answered a → P (f a w))
      → P (continue o f w)
  continue_step (answered a) f w stop go = go a refl
  continue_step (refused r) f w stop go = stop r

  -- An action that leaves the stores alone refuses where the block stands, or the block goes on from
  -- there with its answer.
  pub test_step :
      {A : Type 0} (m : Exec W A) (f : A → Exec W B) (w : W)
      → (m w).1 ≡ w
      → ((r : Refusal) → P (refused r, w))
      → ((a : A) → (m w).0 ≡ answered a → P (f a w))
      → P ((m >>= f) w)
  unfolding ◌>>=◌
  test_step m f w still stop go =
      subst (λ v. P (continue (m w).0 f v)) (sym still) (continue_step (m w).0 f w stop go)

  -- An action that calls stores ends in its state.
  pub bind_step :
      {A : Type 0} (m : Exec W A) (f : A → Exec W B) (w : W)
      → ((r : Refusal) → P (refused r, (m w).1))
      → ((a : A) → (m w).0 ≡ answered a → P (f a (m w).1))
      → P ((m >>= f) w)
  unfolding ◌>>=◌
  bind_step m f w stop go = continue_step (m w).0 f (m w).1 stop go

  pub call_step :
      {A : Type 0} (f : W → A × W) (g : A → Exec W B) (w : W)
      → P (g (f w).0 (f w).1)
      → P ((call f >>= g) w)
  unfolding ◌>>=◌
  call_step f g w go = go

  pub session_step :
      (sessions : SessionManager) (conn_id : ℕ) (f : ConnectionSession → Exec W B) (w : W)
      → ((r : Refusal) → P (refused r, w))
      → ((s : ConnectionSession) → get_authenticated_session sessions conn_id ≡ some s → P (f s w))
      → P ((require_session sessions conn_id >>= f) w)
  unfolding require_session ◌>>=◌
  session_step sessions conn_id f w stop go =
      elim (Option-cases (get_authenticated_session sessions conn_id)) [
        | inl e ↦ rw e (stop _)
        | inr (s, e) ↦ rw e (go s e)
      ]

  pub branch_step :
      (b : Bool) (m n : Exec W B) (w : W)
      → (b ≡ true → P (m w))
      → (b ≡ false → P (n w))
      → P ((if b then m else n) w)
  branch_step true m n w on_true on_false = on_true refl
  branch_step false m n w on_true on_false = on_false refl
