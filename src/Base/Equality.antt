-- ===== src/Base/Equality.antt =====
-- Equality tests of keys and ids, as an interface with an instance for each type.
use Prim.Native.Nat.{ℕ}
use Prim.Native.String.{String}
use mathlib.Core.Path.{◌≡◌, refl}
use mathlib.Core.Logic.{◌↔◌, ◌≢◌}
use mathlib.Core.Bool.{Bool, true, false, ◌&&◌}
use mathlib.Core.List.{List, [], ◌∷◌}
use native.Mathlib.Omega.{arith}
use text.Mathlib.Text.{◌==◌ as str_eq}
use text.Mathlib.TextEquality.{eq_iff}
use linux_server.Base.Tests.{nat_beq, nat_beq_iff}

-- What `operator==` of a type has to decide.
pub record Testable {ℓ} (K : Type ℓ) : Type ℓ where
  pub test : K → K → Bool
  pub test_iff : (k j : K) → (test k j ≡ true) ↔ (k ≡ j)

infix 50 ◌==◌
abbrev pub ◌==◌ {ℓ} : {K : Type ℓ} ⦃t : Testable K⦄ → K → K → Bool
◌==◌ ⦃t⦄ k j = t.test k j

module _ {ℓ} {A : Type ℓ} ⦃e : Testable A⦄ where
  pub beq_iff : (a b : A) → ((a == b) ≡ true) ↔ (a ≡ b)
  beq_iff a b = e.test_iff a b

  pub beq_refl : (a : A) → (a == a) ≡ true
  beq_refl a = (e.test_iff a a).1 refl

  pub beq_of_ne : (a b : A) → a ≢ b → (a == b) ≡ false
  beq_of_ne a b h = ground (arith, e.test_iff a b)

  abbrev pub list_beq : List A → List A → Bool
  list_beq [] [] = true
  list_beq [] (y ∷ ys) = false
  list_beq (x ∷ xs) [] = false
  list_beq (x ∷ xs) (y ∷ ys) = x == y && list_beq xs ys

  pub list_beq_iff : (xs ys : List A) → (list_beq xs ys ≡ true) ↔ (xs ≡ ys)
  list_beq_iff [] [] = ground arith
  list_beq_iff [] (y ∷ ys) = ground arith
  list_beq_iff (x ∷ xs) [] = ground arith
  list_beq_iff (x ∷ xs) (y ∷ ys) = ground (arith, e.test_iff x y, list_beq_iff xs ys)

  instance abbrev pub list_eq : Testable (List A)
  list_eq = record { test = list_beq; test_iff = list_beq_iff }

-- Texts and numbers.
instance abbrev pub string_eq : Testable String
string_eq = record { test = str_eq; test_iff = eq_iff }

instance abbrev pub nat_eq : Testable ℕ
nat_eq = record { test = nat_beq; test_iff = nat_beq_iff }
