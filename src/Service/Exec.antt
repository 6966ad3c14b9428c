-- ===== src/Service/Exec.antt =====
-- A service method: it calls stores whose state is `W`, and answers with a result or a refusal. A
-- result struct of the source with a code other than `OK` carries nothing but what `Refusal` has;
-- one with `OK` always has the same message, so the value alone is kept.
pub mod Steps
use linux_server.Base.{
  ℕ, ◌⊎◌, inl, inr, if◌then◌else◌, ◌≡◌, ◌≢◌, refl, ap, Bool, true, false, Bytes,
}
use linux_server.Model.Status.{ErrorCode}

pub record Refusal : Type 0 where
  pub code : ErrorCode
  pub message : Bytes
  pub retry_after_seconds : ℕ

pub data Outcome (A : Type 0) : Type 0 where
  answered : A → Outcome A
  refused : Refusal → Outcome A

abbrev pub Exec : Type 0 → Type 0 → Type 0
Exec W A = W → Outcome A × W

pub answered_inv : {A : Type 0} (a b : A) → ◌≡◌ {A = Outcome A} (answered a) (answered b) → a ≡ b
answered_inv a b e = cc e

module _ {W : Type 0} where
  abbrev pub pure : {A : Type 0} → A → Exec W A
  pure a w = (answered a, w)

  abbrev pub refuse : {A : Type 0} → ErrorCode → Bytes → Exec W A
  refuse code message w =
      (refused (record { code = code; message = message; retry_after_seconds = 0 }), w)

  abbrev pub refuse_until : {A : Type 0} → ErrorCode → Bytes → ℕ → Exec W A
  refuse_until code message seconds w =
      (refused (record { code = code; message = message; retry_after_seconds = seconds }), w)

  -- A call of a store, which always returns.
  abbrev pub call : {A : Type 0} → (W → A × W) → Exec W A
  call f w = let (a, w') = f w in (answered a, w')

  -- if (bad) { return {code, message}; }
  abbrev pub check : Bool → ErrorCode → Bytes → Exec W (Unit {0})
  check true code message = pure tt
  check false code message = refuse code message

  abbrev pub continue : {A B : Type 0} → Outcome A → (A → Exec W B) → Exec W B
  continue (answered a) f w = f a w
  continue (refused r) f w = (refused r, w)

  infixl 5 ◌>>=◌ ◌>>◌
  unfoldable pub ◌>>=◌ : {A B : Type 0} → Exec W A → (A → Exec W B) → Exec W B
  ◌>>=◌ m f w = let (r, w') = m w in continue r f w'

  abbrev pub ◌>>◌ : {B : Type 0} → Exec W (Unit {0}) → Exec W B → Exec W B
  m >> n = m >>= λ _. n

  pub refused-ne-answered :
      {A : Type 0} (x : Refusal) (u v : W) (b : A)
      → ◌≡◌ {A = Outcome A × W} (refused x, u) (answered b, v)
      → ⊥
  refused-ne-answered x u v b e = cc (ap (λ p. p.0) e)

  -- A block that answers got an answer from its first action, and the rest answers behind it.
  pub continue_inv :
      {A B : Type 0} (r : Outcome A) (u : W) (f : A → Exec W B) (v : W) (b : B)
      → continue r f u ≡ (answered b, v)
      → (a : A) × (r ≡ answered a) × (f a u ≡ (answered b, v))
  continue_inv (answered a) u f v b e = (a, refl, e)
  continue_inv (refused x) u f v b e = absurd (refused-ne-answered x u v b e)

  pub bind_inv :
      {A B : Type 0} (m : Exec W A) (f : A → Exec W B) (w v : W) (b : B)
      → (m >>= f) w ≡ (answered b, v)
      → (a : A) × ((m w).0 ≡ answered a) × (f a (m w).1 ≡ (answered b, v))
  unfolding ◌>>=◌
  bind_inv m f w v b e = continue_inv (m w).0 (m w).1 f v b e

  pub refuse-ne-answered :
      {A : Type 0} (code : ErrorCode) (text : Bytes) (w : W) (b : A)
      → (refuse {A = A} code text w).0 ≢ answered b
  refuse-ne-answered code text w b e = cc e

  pub check_inv :
      (b : Bool) (code : ErrorCode) (text : Bytes) (w : W) (u : Unit {0})
      → (check b code text w).0 ≡ answered u
      → (b ≡ true) × ((check b code text w).1 ≡ w)
  check_inv true code text w u e = (refl, refl)
  check_inv false code text w u e = absurd (refuse-ne-answered code text w u e)

  -- A last check before a plain answer leaves the stores alone.
  pub check-pure :
      {A : Type 0} (b : Bool) (code : ErrorCode) (text : Bytes) (a : A) (w : W)
      → ((check b code text >> pure a) w).1 ≡ w
  unfolding ◌>>=◌
  check-pure true code text a w = refl
  check-pure false code text a w = refl

  -- The steps of a block that answers: a check passed, and a call went on with its answer.
  pub check_then :
      {B : Type 0} (b : Bool) (code : ErrorCode) (text : Bytes) (n : Exec W B) (w v : W) (r : B)
      → (check b code text >> n) w ≡ (answered r, v)
      → (b ≡ true) × (n w ≡ (answered r, v))
  unfolding ◌>>=◌
  check_then true code text n w v r e = (refl, e)
  check_then false code text n w v r e = absurd (refused-ne-answered _ _ v r e)

  pub call_then :
      {A B : Type 0} (f : W → A × W) (g : A → Exec W B) (w v : W) (r : B)
      → (call f >>= g) w ≡ (answered r, v)
      → g (f w).0 (f w).1 ≡ (answered r, v)
  unfolding ◌>>=◌
  call_then f g w v r e = e

  pub answer_pair :
      {A : Type 0} (m : Exec W A) (w : W) (a : A)
      → (m w).0 ≡ answered a
      → m w ≡ (answered a, (m w).1)
  answer_pair m w a e = ap (λ x. (x, (m w).1)) e

  -- A branch that answered.
  pub branch_inv :
      {A : Type 0} (b : Bool) (m n : Exec W A) (w v : W) (a : A)
      → (if b then m else n) w ≡ (answered a, v)
      → ((b ≡ true) × (m w ≡ (answered a, v))) ⊎ ((b ≡ false) × (n w ≡ (answered a, v)))
  branch_inv true m n w v a e = inl (refl, e)
  branch_inv false m n w v a e = inr (refl, e)

  -- A block whose first action answers goes on with the rest.
  pub bind_answered :
      {A B : Type 0} (m : Exec W A) (f : A → Exec W B) (w u : W) (a : A)
      → m w ≡ (answered a, u)
      → (m >>= f) w ≡ f a u
  unfolding ◌>>=◌
  bind_answered m f w u a e = ap (λ p. continue p.0 f p.1) e
