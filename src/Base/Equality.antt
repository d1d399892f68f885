-- ===== src/Base/Equality.antt =====
-- Types whose values `===` compares by value: numbers and texts.
use Prim.Native.Nat.{ℕ}
use Prim.Native.String.{String}
use mathlib.Core.Path.{◌≡◌, refl}
use mathlib.Core.Logic.{◌↔◌, ◌≢◌}
use mathlib.Core.Bool.{Bool, true, false}
use text.Mathlib.Text.{◌==◌ as same_text}
use text.Mathlib.TextEquality.{eq_iff}
use ratio.Base.Tests.{nat_beq, nat_beq_iff}

-- The test, and that it tells the values apart.
pub record Comparable {ℓ} (K : Type ℓ) : Type ℓ where
  pub same : K → K → Bool
  pub same_iff : (x y : K) → (same x y ≡ true) ↔ (x ≡ y)

instance abbrev pub string_eq : Comparable String
string_eq = record { same_iff = eq_iff; same = same_text }

instance abbrev pub nat_eq : Comparable ℕ
nat_eq = record { same_iff = nat_beq_iff; same = nat_beq }

module _ {ℓ} {K : Type ℓ} ⦃by_value : Comparable K⦄ where
  infix 50 ◌==◌
  abbrev pub ◌==◌ : K → K → Bool
  x == y = by_value.same x y

  pub beq_self : (x : K) → (x == x) ≡ true
  beq_self x = (by_value.same_iff x x).1 refl

  pub eq_of_beq : (x y : K) → (x == y) ≡ true → x ≡ y
  eq_of_beq x y = (by_value.same_iff x y).0

  pub ne_of_beq : (x y : K) → (x == y) ≡ false → x ≢ y
  ne_of_beq x y differ p = cc ((by_value.same_iff x y).1 p)
