-- ===== src/Base/Equality.antt =====
-- `==` by instances, for numbers and texts, and the `in` of Python's sequences.
use Prim.Native.Nat.{ℕ}
use Prim.Native.String.{String}
use mathlib.Core.Path.{◌≡◌, refl}
use mathlib.Core.Logic.{◌↔◌}
use mathlib.Core.Bool.{Bool, true, false, ◌||◌}
use mathlib.Core.List.{List, [], ◌∷◌}
use text.Mathlib.Text.{◌==◌ as text_beq}
use text.Mathlib.TextEquality.{eq_iff}
use quantamental_engine.Base.Tests.{nat_beq, nat_beq_iff}

-- A test that decides the paths of a type.
pub record Comparable {ℓ} (X : Type ℓ) : Type ℓ where
  pub same : X → X → Bool
  pub same_iff : (x y : X) → (same x y ≡ true) ↔ (x ≡ y)

instance abbrev pub string_eq : Comparable String
string_eq = record { same = text_beq; same_iff = eq_iff }

instance abbrev pub nat_eq : Comparable ℕ
nat_eq = record { same = nat_beq; same_iff = nat_beq_iff }

module _ {ℓ} {X : Type ℓ} ⦃c : Comparable X⦄ where
  infix 50 ◌==◌
  abbrev pub ◌==◌ : X → X → Bool
  x == y = c.same x y

  pub ==_refl : (x : X) → (x == x) ≡ true
  ==_refl x = (c.same_iff x x).1 refl

  pub eq_of_== : (x y : X) → (x == y) ≡ true → x ≡ y
  eq_of_== x y = (c.same_iff x y).0

  -- `x in ys`
  abbrev pub contains : X → List X → Bool
  contains x [] = false
  contains x (y ∷ ys) = x == y || contains x ys
