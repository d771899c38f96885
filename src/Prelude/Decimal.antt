-- ===== src/Prelude/Decimal.antt =====
-- Decimal numbers. A value of Python's `decimal.Decimal` in the default context, and a value of
-- PostgreSQL's `numeric`, is an integer count of one common smallest unit (the context's least
-- exponent is -1000026, and `numeric` has at most 16383 decimals), so sums and orders of stored
-- values are exact and are those of ℤ. The arithmetic of Python rounds to 28 digits: it is the
-- interface below.
use Prim.Native.Nat.{◌+◌, ◌*◌, ◌/◌}
use native.Mathlib.Omega.{arith}
use mathlib.Core.Path.{◌≡◌, refl}
use mathlib.Core.Bool.{Bool, true}
use reorder_os.Prelude.Int.{ℤ, pos, negsuc, ◌+ℤ◌, ◌-ℤ◌, ◌*ℤ◌}

pub record Decimals : Type 0 where
  -- the literals 1.0, 0.0001, 0.05 and 0.20
  pub one : ℤ
  pub ten_thousandth : ℤ
  pub five_percent : ℤ
  pub twenty_percent : ℤ
  -- Python's `+`, `-`, `*`, `/` and unary `-`, rounded to the context's precision
  pub add : ℤ → ℤ → ℤ
  pub sub : ℤ → ℤ → ℤ
  pub mul : ℤ → ℤ → ℤ
  pub div : ℤ → ℤ → ℤ
  pub neg : ℤ → ℤ
  -- PostgreSQL's `*`, which is exact
  pub sql_mul : ℤ → ℤ → ℤ
  -- the value has at most as many digits as the context's precision
  pub fits : ℤ → Bool
  -- a rounded result fits, and the negation of a value that fits is exact
  pub fits-add : (x y : ℤ) → fits (add x y) ≡ true
  pub fits-div : (x y : ℤ) → fits (div x y) ≡ true
  pub fits-neg : (x : ℤ) → fits (neg x) ≡ true
  pub neg-exact : (x : ℤ) → fits x ≡ true → neg x ≡ pos 0 -ℤ x
  -- so is a difference that fits
  pub sub-exact : (x y : ℤ) → fits (x -ℤ y) ≡ true → sub x y ≡ x -ℤ y
  -- an exact product changes sign with its factor
  pub sql_mul-neg : (x y : ℤ) → sql_mul (pos 0 -ℤ x) y ≡ pos 0 -ℤ sql_mul x y

-- A product counts in the square of the unit.
abbrev pub scale_down : ℤ → ℤ
scale_down (pos n) = pos (n / 10000)
scale_down (negsuc n) = pos 0 -ℤ pos ((n + 1) / 10000)

abbrev pub divide : ℤ → ℤ → ℤ
divide (pos a) (pos b) = pos (a * 10000 / b)
divide (negsuc a) (pos b) = pos 0 -ℤ pos ((a + 1) * 10000 / b)
divide (pos a) (negsuc b) = pos 0 -ℤ pos (a * 10000 / (b + 1))
divide (negsuc a) (negsuc b) = pos ((a + 1) * 10000 / (b + 1))

pub mul-neg : (x y : ℤ) → (pos 0 -ℤ x) *ℤ y ≡ pos 0 -ℤ x *ℤ y
unfolding ◌-ℤ◌ ◌*ℤ◌
mul-neg x y = ground arith

-- The interface can be met: exact arithmetic on a scale of one ten-thousandth, with division
-- rounded towards zero.
instance abbrev pub exact : Decimals
exact = record {
  one = pos 10000;
  ten_thousandth = pos 1;
  five_percent = pos 500;
  twenty_percent = pos 2000;
  add = ◌+ℤ◌;
  sub = ◌-ℤ◌;
  mul = λ x y. scale_down (x *ℤ y);
  div = divide;
  neg = λ x. pos 0 -ℤ x;
  sql_mul = ◌*ℤ◌;
  fits = λ x. true;
  fits-add = λ x y. refl;
  fits-div = λ x y. refl;
  fits-neg = λ x. refl;
  neg-exact = λ x h. refl;
  sub-exact = λ x y h. refl;
  sql_mul-neg = mul-neg;
}
