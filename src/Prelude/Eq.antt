-- ===== src/Prelude/Eq.antt =====
-- Rust's `==` on the types whose values the program compares.
use Prim.Native.Nat.{ℕ}
use mathlib.Core.Path.{◌≡◌, refl}
use mathlib.Core.Logic.{◌↔◌, ◌≢◌, inl, inr}
use mathlib.Core.Bool.{Bool, true, false, ◌&&◌}
use mathlib.Core.List.{List, [], ◌∷◌}
use mathlib.Core.Option.{Option, none, some}
use native.Mathlib.Omega.{arith}
use colui.Prelude.Tests.{eqb, Bool-cases}

pub record EqTest {ℓ} (A : Type ℓ) : Type ℓ where
  pub test : A → A → Bool
  pub test_iff : (a b : A) → (test a b ≡ true) ↔ (a ≡ b)

infix 50 ◌==◌
abbrev pub ◌==◌ {ℓ} : {A : Type ℓ} ⦃e : EqTest A⦄ → A → A → Bool
◌==◌ ⦃e⦄ = e.test

module _ {ℓ} {A : Type ℓ} ⦃e : EqTest A⦄ where
  pub eq_true : (a b : A) → (a == b) ≡ true → a ≡ b
  eq_true a b = (e.test_iff a b).0

  pub eq_self : (a : A) → (a == a) ≡ true
  eq_self a = (e.test_iff a a).1 refl

  pub eq_false : (a b : A) → a ≢ b → (a == b) ≡ false
  eq_false a b h = elim (Bool-cases (a == b)) [
    | inl same ↦ absurd (h (eq_true a b same))
    | inr other ↦ other
  ]

pub eqb_iff : (a b : ℕ) → (eqb a b ≡ true) ↔ (a ≡ b)
eqb_iff a b = ground arith

instance abbrev pub nat_eq : EqTest ℕ
nat_eq = record { test = eqb; test_iff = eqb_iff }

module _ {A : Type 0} ⦃e : EqTest A⦄ where
  abbrev pub list_test : List A → List A → Bool
  list_test [] [] = true
  list_test [] (y ∷ ys) = false
  list_test (x ∷ xs) [] = false
  list_test (x ∷ xs) (y ∷ ys) = (x == y) && list_test xs ys

  pub list_test_iff : (a b : List A) → (list_test a b ≡ true) ↔ (a ≡ b)
  list_test_iff [] [] = ground arith
  list_test_iff [] (y ∷ ys) = ground arith
  list_test_iff (x ∷ xs) [] = ground arith
  list_test_iff (x ∷ xs) (y ∷ ys) = ground (arith, e.test_iff x y, list_test_iff xs ys)

  instance abbrev pub list_eq : EqTest (List A)
  list_eq = record { test = list_test; test_iff = list_test_iff }

  abbrev pub option_test : Option A → Option A → Bool
  option_test none none = true
  option_test none (some y) = false
  option_test (some x) none = false
  option_test (some x) (some y) = x == y

  pub option_test_iff : (a b : Option A) → (option_test a b ≡ true) ↔ (a ≡ b)
  option_test_iff none none = ground arith
  option_test_iff none (some y) = ground arith
  option_test_iff (some x) none = ground arith
  option_test_iff (some x) (some y) = ground (arith, e.test_iff x y)

  instance abbrev pub option_eq : EqTest (Option A)
  option_eq = record { test = option_test; test_iff = option_test_iff }
