-- ===== src/Contract/Fixed.antt =====
-- The laws of decimals can be met: whole thousandths.
use native.Mathlib.Nat.{mul-div_left, mul_comm, mul_assoc, mul-div-le}
use quantamental_engine.Base.{ℕ, ◌+◌, ◌*◌, ◌/◌, ◌≤◌, ◌<◌, some, ◌≡◌, ◌∙◌, ap, sym, arith}
use quantamental_engine.Base.Int.{ℤ, pos, negsuc, ◌+ℤ◌, ◌-ℤ◌, ◌*ℤ◌, quot}
use quantamental_engine.Float.{nought, one, ◌≼◌, ◌≺◌}
use quantamental_engine.Float.Fixed.{fixed, scale, times, literal}
use quantamental_engine.Contract.{Decimals, IsDecimal}

unfoldable pub whole_div : ℤ → ℤ → ℤ
whole_div a (pos b) = quot a b *ℤ pos scale
whole_div a (negsuc b) = (pos 0 -ℤ quot a (b + 1)) *ℤ pos scale

abbrev pub decimals : Decimals ℤ ℤ
decimals = record { of_float = some; to_float = λ x. x; int_div = whole_div }

back : (q b : ℕ) → q * scale * b / scale ≡ q * b
back q b =
    ap (λ n. n / scale)
      (mul_assoc q scale b ∙ ap (λ n. q * n) (mul_comm scale b) ∙ sym (mul_assoc q b scale))
    ∙ mul-div_left (q * b) (omega arith)

quotient_below : (a b : ℕ) → a / b * b ≤ a
quotient_below a b = rw (mul_comm (a / b) b) (mul-div-le a b)

quotient_above : (a b : ℕ) → 0 < b → a < (a / b + 1) * b
quotient_above a b h = grind arith

whole_div_pos : (a b : ℕ) → whole_div (pos a) (pos b) ≡ pos (a / b * scale)
unfolding whole_div quot ◌*ℤ◌
whole_div_pos a b = ground arith

times_pos : (a b : ℕ) → times (pos a) (pos b) ≡ pos (a * b / scale)
unfolding times quot ◌*ℤ◌
times_pos a b = ground arith

add_one : (q : ℕ) → pos (q * scale) +ℤ one ≡ pos ((q + 1) * scale)
unfolding literal ◌+ℤ◌
add_one q = ground arith

pos_le : (a b : ℕ) → a ≤ b → pos a ≼ pos b
pos_le a b h = ground arith

pos_lt : (a b : ℕ) → a < b → pos a ≺ pos b
pos_lt a b h = ground arith

pos_of : (b : ℕ) → nought ≺ pos b → 0 < b
unfolding literal
pos_of b h = ground arith

whole_div-le : (a b : ℤ) → nought ≼ a → nought ≺ b → times (whole_div a b) b ≼ a
unfolding literal
whole_div-le (pos a) (pos b) h k =
    rw (whole_div_pos a b, times_pos (a / b * scale) b, back (a / b) b)
      (pos_le (a / b * b) a (quotient_below a b))
whole_div-le (pos a) (negsuc b) h k = ground arith
whole_div-le (negsuc a) b h k = ground arith

whole_div-lt : (a b : ℤ) → nought ≼ a → nought ≺ b → a ≺ times (whole_div a b +ℤ one) b
unfolding literal
whole_div-lt (pos a) (pos b) h k =
    rw (whole_div_pos a b, add_one (a / b), times_pos ((a / b + 1) * scale) b, back (a / b + 1) b)
      (pos_lt a ((a / b + 1) * b) (quotient_above a b (pos_of b k)))
whole_div-lt (pos a) (negsuc b) h k = ground arith
whole_div-lt (negsuc a) b h k = ground arith

pub decimals-IsDecimal : IsDecimal decimals
decimals-IsDecimal = record { int_div-le = whole_div-le; int_div-lt = whole_div-lt }
