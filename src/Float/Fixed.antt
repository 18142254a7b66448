-- ===== src/Float/Fixed.antt =====
-- The laws can be met: decimal fixed-point numbers, whole thousandths in an integer.
use native.Mathlib.Nat.{mul_comm}
use quantamental_engine.Base.{
  zero, suc, ap, ◌∙◌, ◌-◌, ◌%◌, ltb, ◌||◌, ◌&&◌, ◌==◌, nat_eq, if◌then◌else◌, ◌≡◌, ℕ, ◌+◌, ◌*◌, ◌/◌,
  ◌^◌, ◌≤◌, ◌<◌, refl, arith,
}
use quantamental_engine.Base.Int.{ℤ, pos, negsuc, ◌+ℤ◌, ◌-ℤ◌, ◌*ℤ◌, leb_ℤ, quot}
use quantamental_engine.Float.{
  Float, IsRounding, IsOrdered, IsArithmetic, IsMonotone, ◌≼◌, ◌≺◌, nought, one,
}

abbrev pub scale : ℕ
scale = 1000

-- a / b for a divisor of either sign; 0 where the divisor is 0, which Python refuses
unfoldable pub divide : ℤ → ℤ → ℤ
divide a (pos b) = quot (a *ℤ pos scale) b
divide a (negsuc b) = quot (pos 0 -ℤ a *ℤ pos scale) (b + 1)

unfoldable pub times : ℤ → ℤ → ℤ
times a b = quot (a *ℤ b) scale

unfoldable pub literal : ℕ → ℕ → ℤ
literal m k = pos (m * scale / 10 ^ k)

-- a number to the nearest multiple of p, the even one of two
unfoldable pub half_even : ℕ → ℕ → ℕ
half_even n p =
    let q = n / p in
    let r = n % p in if ltb (2 * r) p || (2 * r == p && q % 2 == 0) then q * p else (q + 1) * p

unfoldable pub round_fixed : ℕ → ℤ → ℤ
unfolding half_even
round_fixed k (pos n) = pos (half_even n (10 ^ (3 - k)))
round_fixed k (negsuc n) = pos 0 -ℤ pos (half_even (n + 1) (10 ^ (3 - k)))

instance abbrev pub fixed : Float ℤ
fixed = record {
  lit = literal;
  add = ◌+ℤ◌;
  sub = ◌-ℤ◌;
  mul = times;
  div = divide;
  neg = λ a. pos 0 -ℤ a;
  le = leb_ℤ;
  round_to = round_fixed;
}

pub fixed-IsOrdered : IsOrdered ℤ
fixed-IsOrdered = ground arith

sub_nonneg : (a b : ℤ) → b ≼ a → nought ≼ a -ℤ b
unfolding literal ◌-ℤ◌
sub_nonneg a b h = ground arith

sub_nonpos : (a b : ℤ) → a ≼ b → a -ℤ b ≼ nought
unfolding literal ◌-ℤ◌
sub_nonpos a b h = ground arith

sub-le : (a b : ℤ) → nought ≼ b → a -ℤ b ≼ a
unfolding literal ◌-ℤ◌
sub-le a b h = ground arith

add_nonneg : (a b : ℤ) → nought ≼ a → nought ≼ b → nought ≼ a +ℤ b
unfolding literal ◌+ℤ◌
add_nonneg a b h k = ground arith

mul_nonneg : (a b : ℤ) → nought ≼ a → nought ≼ b → nought ≼ times a b
unfolding literal times quot ◌*ℤ◌
mul_nonneg (pos a) (pos b) h k = ground arith
mul_nonneg (pos a) (negsuc b) h k = ground arith
mul_nonneg (negsuc a) b h k = ground arith

mul_le_scale : (a b : ℕ) → b ≤ scale → a * b / scale ≤ a
mul_le_scale a b h = grind arith

mul-le_self : (a b : ℤ) → nought ≼ a → b ≼ one → times a b ≼ a
unfolding literal times quot ◌*ℤ◌
mul-le_self (pos a) (pos b) h k = ground (arith, mul_le_scale a b)
mul-le_self (pos a) (negsuc b) h k = ground arith
mul-le_self (negsuc a) b h k = ground arith

div_nonneg : (a b : ℤ) → nought ≼ a → nought ≺ b → nought ≼ divide a b
unfolding literal divide quot ◌*ℤ◌
div_nonneg (pos a) (pos b) h k = ground arith
div_nonneg (pos a) (negsuc b) h k = ground arith
div_nonneg (negsuc a) b h k = ground arith

div_le_scale : (a b : ℕ) → 0 < b → a ≤ b → a * scale / b ≤ scale
div_le_scale a b h k = grind arith

div-le_one : (a b : ℤ) → a ≼ b → nought ≺ b → divide a b ≼ one
unfolding literal divide quot ◌*ℤ◌
div-le_one (pos a) (pos b) h k = ground (arith, div_le_scale a b)
div-le_one (negsuc a) (pos b) h k = ground arith
div-le_one a (negsuc b) h k = ground arith

pub fixed-IsArithmetic : IsArithmetic ℤ
unfolding literal
fixed-IsArithmetic = record {
  order = fixed-IsOrdered;
  zero_le_one = refl;
  sub_nonneg = sub_nonneg;
  sub_nonpos = sub_nonpos;
  sub-le = sub-le;
  add_nonneg = add_nonneg;
  mul_nonneg = mul_nonneg;
  mul-le_self = mul-le_self;
  div_nonneg = div_nonneg;
  div-le_one = div-le_one;
}

half_even_mono : (m n : ℕ) → m ≤ n → half_even m 10 ≤ half_even n 10
unfolding half_even
half_even_mono m n h = ground arith

half_even_idem : (n : ℕ) → half_even (half_even n 10) 10 ≡ half_even n 10
unfolding half_even
half_even_idem n = ground arith

half_even_zero : half_even 0 10 ≡ 0
unfolding half_even
half_even_zero = refl

round_mono : (a b : ℤ) → a ≼ b → round_fixed 2 a ≼ round_fixed 2 b
unfolding round_fixed ◌-ℤ◌
round_mono (pos m) (pos n) h = ground (arith, half_even_mono m n)
round_mono (negsuc m) (pos n) h = ground arith
round_mono (negsuc m) (negsuc n) h = ground (arith, half_even_mono (n + 1) (m + 1))
round_mono (pos m) (negsuc n) h = ground arith

add_one : (n : ℕ) → n + 1 ≡ suc n
add_one n = omega arith

neg_suc : (n : ℕ) → pos 0 -ℤ pos (suc n) ≡ negsuc n
unfolding ◌-ℤ◌
neg_suc n = ground arith

neg_round : (m : ℕ) → round_fixed 2 (pos 0 -ℤ pos m) ≡ pos 0 -ℤ pos (half_even m 10)
unfolding round_fixed ◌-ℤ◌
neg_round zero = refl
neg_round (suc n) =
    ap (round_fixed 2) (neg_suc n) ∙ ap (λ m. pos 0 -ℤ pos (half_even m 10)) (add_one n)

round_idem : (a : ℤ) → round_fixed 2 (round_fixed 2 a) ≡ round_fixed 2 a
unfolding round_fixed ◌-ℤ◌
round_idem (pos n) = ground (arith, half_even_idem n)
round_idem (negsuc n) =
    neg_round (half_even (n + 1) 10) ∙ ap (λ m. pos 0 -ℤ pos m) (half_even_idem (n + 1))

pub fixed-IsRounding : IsRounding ℤ
fixed-IsRounding = record { round_mono = round_mono; round_idem = round_idem }

lit_mono : (m n : ℕ) → m ≤ n → literal m 0 ≼ literal n 0
unfolding literal
lit_mono m n h = ground arith

neg_nonneg : (a : ℤ) → a ≼ nought → nought ≼ pos 0 -ℤ a
unfolding literal ◌-ℤ◌
neg_nonneg a h = ground arith

neg_below : (a : ℤ) → nought ≺ a → pos 0 -ℤ a ≺ nought
unfolding literal ◌-ℤ◌
neg_below a h = ground arith

times_comm : (a b : ℤ) → times a b ≡ times b a
unfolding times ◌*ℤ◌
times_comm (pos a) (pos b) = ground (arith, mul_comm a b)
times_comm (pos a) (negsuc b) = ground (arith, mul_comm a (b + 1))
times_comm (negsuc a) (pos b) = ground (arith, mul_comm (a + 1) b)
times_comm (negsuc a) (negsuc b) = ground (arith, mul_comm (a + 1) (b + 1))

div_scale_mono : (m n c : ℕ) → 0 < c → m ≤ n → m * scale / c ≤ n * scale / c
div_scale_mono m n c k h = grind arith

div_mono : (a b c : ℤ) → a ≼ b → nought ≺ c → divide a c ≼ divide b c
unfolding literal divide quot ◌*ℤ◌
div_mono (pos m) (pos n) (pos c) h k = ground (arith, div_scale_mono m n c)
div_mono (pos m) (negsuc n) (pos c) h k = ground arith
div_mono (negsuc m) (pos n) (pos c) h k = ground arith
div_mono (negsuc m) (negsuc n) (pos c) h k = ground (arith, div_scale_mono (n + 1) (m + 1) c)
div_mono a b (negsuc c) h k = ground arith

pub fixed-IsMonotone : IsMonotone ℤ
unfolding literal
fixed-IsMonotone = record {
  arithmetic = fixed-IsArithmetic;
  lit_mono = lit_mono;
  zero_lt_one = refl;
  neg_nonneg = neg_nonneg;
  neg_below = neg_below;
  mul_comm = times_comm;
  div_mono = div_mono;
}
