-- ===== src/Base/Fixed.antt =====
-- A concrete number type for the tests: fixed-point integers in units of 10^-12, always finite.
use Prim.Native.Nat.{ℕ, suc, ◌+◌, ◌-◌, ◌*◌, ◌/◌, ◌^◌, ◌≤◌, ◌<◌}
use mathlib.Core.Path.{◌≡◌, refl}
use mathlib.Core.Bool.{true}
use native.Mathlib.Omega.{arith}
use native.Mathlib.Nat.{mul-le-mul_right, mul-div-le, le-div_iff_mul-le, le_of_mul-le-mul_right}
use binance_bot.Base.Tests.{ltb, leb, if◌then◌else◌}
use binance_bot.Base.Float.{Float, IsOrdered, IsRounded}

-- `negsuc n` is -(n + 1) units.
pub data ℤ : Type 0 where
  pos : ℕ → ℤ
  negsuc : ℕ → ℤ

abbrev pub pos_part : ℤ → ℕ
pos_part (pos n) = n
pos_part (negsuc n) = 0

abbrev pub neg_part : ℤ → ℕ
neg_part (pos n) = 0
neg_part (negsuc n) = suc n

abbrev pub sub_ℕ : ℕ → ℕ → ℤ
sub_ℕ a b = if leb b a then pos (a - b) else negsuc (b - a - 1)

abbrev units : ℕ
units = 10 ^ 12

abbrev pub add_ℤ : ℤ → ℤ → ℤ
add_ℤ a b = sub_ℕ (pos_part a + pos_part b) (neg_part a + neg_part b)

abbrev pub neg_ℤ : ℤ → ℤ
neg_ℤ a = sub_ℕ (neg_part a) (pos_part a)

abbrev pub mul_ℤ : ℤ → ℤ → ℤ
mul_ℤ a b =
    sub_ℕ ((pos_part a * pos_part b + neg_part a * neg_part b) / units)
      ((pos_part a * neg_part b + neg_part a * pos_part b) / units)

abbrev pub div_ℤ : ℤ → ℤ → ℤ
div_ℤ a b =
    sub_ℕ (pos_part a * units / pos_part b + neg_part a * units / neg_part b)
      (pos_part a * units / neg_part b + neg_part a * units / pos_part b)

instance abbrev pub fixed_float : Float ℤ
fixed_float = record {
  add = add_ℤ;
  sub = λ a b. add_ℤ a (neg_ℤ b);
  mul = mul_ℤ;
  div = div_ℤ;
  neg = neg_ℤ;
  lt = λ a b. ltb (pos_part a + neg_part b) (pos_part b + neg_part a);
  le = λ a b. leb (pos_part a + neg_part b) (pos_part b + neg_part a);
  is_finite = λ a. true;
  lit = λ n d. pos (n * units / d);
}

scale_mono : (u m d n e : ℕ) → 0 < d → 0 < e → m * e ≤ n * d → m * u / d ≤ n * u / e
scale_mono u m d n e hd he h = (le-div_iff_mul-le he).1 (
    le_of_mul-le-mul_right {k = d}
      (omega (arith, mul-le-mul_right e (mul-div-le (m * u) d), mul-le-mul_right u h)) hd)

pub fixed-IsOrdered : IsOrdered ℤ
fixed-IsOrdered = record {
  finite-le = λ x h. ground arith;
  le-ends = λ x y h. ground arith;
  lt-ends = λ x y h. ground arith;
  le_trans = λ x y z h k. ground arith;
  lt-eq-not-le = λ x y h k. ground arith;
  le_total = λ x y h k. ground arith;
  nought_finite = refl;
  lit-le = λ m d n e hd he h. ground (arith, scale_mono units m d n e hd he h);
}

sub_self_ℤ : (x : ℤ) → add_ℤ x (neg_ℤ x) ≡ pos 0
sub_self_ℤ x = ground arith

pub fixed-IsRounded : IsRounded ℤ
fixed-IsRounded = record {
  ordered = fixed-IsOrdered;
  sub_self = λ x h. sub_self_ℤ x;
  add_grows = λ x y h k. ground arith;
}
