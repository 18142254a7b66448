-- ===== src/Float.antt =====
-- Python's `float` (and a `Decimal`), as an interface: what the program does with such numbers, and
-- the laws that its theorems rest on. The laws are those of IEEE 754 doubles with rounding, away from
-- NaN and from overflow; none of them says that an operation is exact.
pub mod Order
pub mod Fixed
use quantamental_engine.Base.{ℕ, ◌≤◌, ◌≡◌, ◌⊎◌, Bool, true, false, not, ◌||◌, ◌&&◌, if◌then◌else◌}

pub record Float {ℓ} (F : Type ℓ) : Type ℓ where
  -- the literal m / 10 ^ k
  pub lit : ℕ → ℕ → F
  pub add : F → F → F
  pub sub : F → F → F
  pub mul : F → F → F
  pub div : F → F → F
  pub neg : F → F
  pub le : F → F → Bool
  -- `round(x, k)`
  pub round_to : ℕ → F → F

module _ {ℓ} {F : Type ℓ} ⦃f : Float F⦄ where
  infix 4 ◌≼◌ ◌≺◌
  abbrev pub fle : F → F → Bool
  fle = f.le

  -- Python's `<`: the order is total away from NaN
  abbrev pub flt : F → F → Bool
  flt a b = not (f.le b a)

  -- Python's `==` on floats
  abbrev pub feq : F → F → Bool
  feq a b = f.le a b && f.le b a

  abbrev pub ◌≼◌ : F → F → Type 0
  a ≼ b = f.le a b ≡ true

  abbrev pub ◌≺◌ : F → F → Type 0
  a ≺ b = f.le b a ≡ false

  abbrev pub nought : F
  nought = f.lit 0 0

  abbrev pub one : F
  one = f.lit 1 0

  -- Python's `max(a, b)` and `min(a, b)`: the first of the two where they are equal
  abbrev pub fmax : F → F → F
  fmax a b = if flt a b then b else a

  abbrev pub fmin : F → F → F
  fmin a b = if flt b a then b else a

  abbrev pub fabs : F → F
  fabs a = if flt a nought then f.neg a else a

  -- `bool(x)`: a float is true unless it is zero
  abbrev pub truthy : F → Bool
  truthy a = not (feq a nought)

pub record IsOrdered {ℓ} (F : Type ℓ) ⦃f : Float F⦄ : Type ℓ where
  pub le_refl : (a : F) → a ≼ a
  pub le_trans : (a b c : F) → a ≼ b → b ≼ c → a ≼ c
  pub le_total : (a b : F) → (a ≼ b) ⊎ (b ≼ a)

-- Rounding is monotone, so these hold of the rounded operations too.
pub record IsArithmetic {ℓ} (F : Type ℓ) ⦃f : Float F⦄ : Type ℓ where
  pub order : IsOrdered F
  pub open order use *
  pub zero_le_one : f.le nought one ≡ true
  pub sub_nonneg : (a b : F) → b ≼ a → nought ≼ f.sub a b
  pub sub_nonpos : (a b : F) → a ≼ b → f.sub a b ≼ nought
  pub sub-le : (a b : F) → nought ≼ b → f.sub a b ≼ a
  pub add_nonneg : (a b : F) → nought ≼ a → nought ≼ b → nought ≼ f.add a b
  pub mul_nonneg : (a b : F) → nought ≼ a → nought ≼ b → nought ≼ f.mul a b
  pub mul-le_self : (a b : F) → nought ≼ a → b ≼ one → f.mul a b ≼ a
  pub div_nonneg : (a b : F) → nought ≼ a → nought ≺ b → nought ≼ f.div a b
  pub div-le_one : (a b : F) → a ≼ b → nought ≺ b → f.div a b ≼ one

-- `round(x, 2)` keeps the order, and a rounded number as it is.
pub record IsRounding {ℓ} (F : Type ℓ) ⦃f : Float F⦄ : Type ℓ where
  pub round_mono : (a b : F) → a ≼ b → f.round_to 2 a ≼ f.round_to 2 b
  pub round_idem : (a : F) → f.round_to 2 (f.round_to 2 a) ≡ f.round_to 2 a

-- More of rounded arithmetic: literals and division keep the order, negation turns it about zero, and a
-- product does not depend on the order of its factors.
pub record IsMonotone {ℓ} (F : Type ℓ) ⦃f : Float F⦄ : Type ℓ where
  pub arithmetic : IsArithmetic F
  pub open arithmetic use *
  pub lit_mono : (m n : ℕ) → m ≤ n → f.lit m 0 ≼ f.lit n 0
  pub zero_lt_one : f.le one nought ≡ false
  pub neg_nonneg : (a : F) → a ≼ nought → nought ≼ f.neg a
  pub neg_below : (a : F) → nought ≺ a → f.neg a ≺ nought
  pub mul_comm : (a b : F) → f.mul a b ≡ f.mul b a
  pub div_mono : (a b c : F) → a ≼ b → nought ≺ c → f.div a c ≼ f.div b c
