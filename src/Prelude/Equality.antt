-- ===== src/Prelude/Equality.antt =====
-- `===` as an interface: a Boolean test that decides equality, with its instances.
use Prim.Native.Nat.{ℕ}
use Prim.Native.String.{String}
use mathlib.Core.Path.{◌≡◌, refl}
use mathlib.Core.Logic.{◌≢◌, ◌↔◌}
use mathlib.Core.Bool.{Bool, true, false}
use native.Mathlib.Omega.{arith}
use text.Mathlib.Text.{◌==◌ as text_same}
use text.Mathlib.TextEquality.{eq_iff}
use crabbykit.Prelude.Tests.{nat_beq, nat_beq_iff}

-- The types whose values `===` compares by content.
pub record StrictEq {ℓ} (K : Type ℓ) : Type ℓ where
  pub same : K → K → Bool
  pub same_iff : (x y : K) → (same x y ≡ true) ↔ (x ≡ y)

infix 50 ◌==◌
abbrev pub ◌==◌ {ℓ} : {K : Type ℓ} ⦃s : StrictEq K⦄ → K → K → Bool
◌==◌ ⦃s⦄ x y = s.same x y

instance abbrev pub string_eq : StrictEq String
string_eq = record { same = text_same; same_iff = eq_iff }

instance abbrev pub nat_eq : StrictEq ℕ
nat_eq = record { same = nat_beq; same_iff = nat_beq_iff }

module _ {ℓ} {K : Type ℓ} ⦃s : StrictEq K⦄ where
  pub ==-eq : {x y : K} → (x == y) ≡ true → x ≡ y
  ==-eq {x} {y} h = (s.same_iff x y).0 h

  pub ==_refl : (x : K) → (x == x) ≡ true
  ==_refl x = (s.same_iff x x).1 refl

  pub ==-ne : {x y : K} → (x == y) ≡ false → x ≢ y
  ==-ne {x} {y} h p = ground (arith, s.same_iff x y)

  pub ne-== : {x y : K} → x ≢ y → (x == y) ≡ false
  ne-== {x} {y} h = ground (arith, s.same_iff x y)

-- A type with decidable equality has the test.
module _ {ℓ} {K : Type ℓ} (d : Discrete K) where
  abbrev pub to_bool : {x y : K} → Dec (x ≡ y) → Bool
  to_bool (yes p) = true
  to_bool (no p) = false

  abbrev pub discrete_same : K → K → Bool
  discrete_same x y = to_bool (d x y)

  pub to_bool_iff : {x y : K} (t : Dec (x ≡ y)) → (to_bool t ≡ true) ↔ (x ≡ y)
  to_bool_iff (yes p) = (λ _. p, λ _. refl)
  to_bool_iff (no p) = (λ h. ground arith, λ q. absurd (p q))

  abbrev pub discrete_eq : StrictEq K
  discrete_eq = record { same = discrete_same; same_iff = λ x y. to_bool_iff (d x y) }
