-- ===== src/Float/Order.antt =====
-- Maximum, minimum and the strict order, from the laws of the order alone.
use quantamental_engine.Base.{◌≡◌, ◌⊎◌, arith}
use quantamental_engine.Float.{Float, IsOrdered, ◌≼◌, ◌≺◌, fmax, fmin}

module _ {ℓ} {F : Type ℓ} ⦃f : Float F⦄ (laws : IsOrdered F) where
  open laws use {le_refl, le_trans, le_total}

  pub le_of_lt : (a b : F) → a ≺ b → a ≼ b
  le_of_lt a b h = ground (arith, le_total a b)

  pub lt-of_lt-le : (a b c : F) → a ≺ b → b ≼ c → a ≺ c
  lt-of_lt-le a b c h k = ground (arith, le_trans b c a)

  pub lt-of_le-lt : (a b c : F) → a ≼ b → b ≺ c → a ≺ c
  lt-of_le-lt a b c h k = ground (arith, le_trans c a b)

  pub le-fmax_left : (a b : F) → a ≼ fmax a b
  le-fmax_left a b = ground (arith, le_refl a, le_total a b)

  pub le-fmax_right : (a b : F) → b ≼ fmax a b
  le-fmax_right a b = ground (arith, le_refl b)

  pub fmax-eq : (a b : F) → (fmax a b ≡ a) ⊎ (fmax a b ≡ b)
  fmax-eq a b = ground arith

  pub fmin-le_left : (a b : F) → fmin a b ≼ a
  fmin-le_left a b = ground (arith, le_refl a, le_total a b)

  pub fmin-le_right : (a b : F) → fmin a b ≼ b
  fmin-le_right a b = ground (arith, le_refl b)

  pub fmax_lub : (a b c : F) → a ≼ c → b ≼ c → fmax a b ≼ c
  fmax_lub a b c h k = ground arith
