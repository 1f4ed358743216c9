-- ===== src/Prelude/Equality.antt =====
-- Equality tests of map keys: `==` for the types that a Go map is keyed by.
use Prim.Native.Nat.{ℕ}
use Prim.Native.String.{String}
use mathlib.Core.Path.{◌≡◌, refl}
use mathlib.Core.Logic.{◌↔◌}
use mathlib.Core.Bool.{Bool, true}
use text.Mathlib.Text.{◌==◌ as same_string}
use text.Mathlib.TextEquality.{eq_iff}
use mock_vision.Prelude.Tests.{nat_beq, nat_beq_iff}

-- The types whose equality a program can test.
pub record Eq {ℓ} (K : Type ℓ) : Type ℓ where
  pub beq : K → K → Bool
  pub beq_iff : (x y : K) → (beq x y ≡ true) ↔ (x ≡ y)

instance abbrev pub string_eq : Eq String
string_eq = record { beq_iff = eq_iff; beq = same_string }

module _ {ℓ} {K : Type ℓ} ⦃e : Eq K⦄ where
  infix 50 ◌==◌
  abbrev pub ◌==◌ : K → K → Bool
  j == k = e.beq j k

  pub ==-refl : (k : K) → (k == k) ≡ true
  ==-refl k = (e.beq_iff k k).1 refl

instance abbrev pub nat_eq : Eq ℕ
nat_eq = record { beq_iff = nat_beq_iff; beq = nat_beq }
