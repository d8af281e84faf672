-- ===== src/Double/Fixed.antt =====
-- A value of the interface `Double` that runs and meets its laws: decimals with four places, as
-- integers of ten-thousandths, and `none` for NaN. The witnesses and tests of the other files use it.
use native.Mathlib.Nat.{mul-le-mul_left, mul-le-mul_right}
use multi_constraint_iot_edg.Common.{
  ltb, ◌-◌, ◌+◌, ◌≡◌, ℕ, zero, suc, ◌*◌, ◌/◌, ◌^◌, ◌≤◌, refl, Bool, false, Option, none, some,
  arith, ℤ, pos, negsuc, ◌+ℤ◌, ◌-ℤ◌, ◌*ℤ◌, tdiv, ltb_ℤ, leb_ℤ, leb, if◌then◌else◌, ◌≤ℤ◌,
}
use multi_constraint_iot_edg.Double.{
  Double, IsOrdered, IsMonotone, IsExact, IsCounted, ◌≼◌, IsNum, nought,
}

abbrev pub Fixed : Type 0
Fixed = Option ℤ

abbrev unit : ℕ
unit = 10_000

abbrev on_numbers : (ℤ → ℤ → Bool) → Fixed → Fixed → Bool
on_numbers f (some a) (some b) = f a b
on_numbers f _ _ = false

abbrev lift : (ℤ → ℤ → Fixed) → Fixed → Fixed → Fixed
lift f (some a) (some b) = f a b
lift f _ _ = none

-- Division by zero gives NaN, and the quotient is rounded toward zero.
unfoldable pub fixed_div : ℤ → ℤ → Fixed
unfolding ◌*ℤ◌ tdiv
fixed_div a (pos zero) = none
fixed_div a (pos (suc n)) = some (tdiv (a *ℤ pos unit) (suc n))
fixed_div a (negsuc n) = some (tdiv (a *ℤ negsuc 9999) (suc n))

-- The whole part of the square root, by search downwards from the argument.
isqrt_from : ℕ → ℕ → ℕ
isqrt_from zero n = 0
isqrt_from (suc k) n = let rest = isqrt_from k n in if leb (suc k * suc k) n then suc k else rest

unfoldable pub fixed_sqrt : Fixed → Fixed
unfolding isqrt_from
fixed_sqrt (some (pos n)) = some (pos (isqrt_from n (n * unit)))
fixed_sqrt _ = none

unfoldable pub fixed_to_int : Fixed → ℤ
unfolding tdiv
fixed_to_int none = pos 0
fixed_to_int (some a) = tdiv a unit

unfoldable pub fixed_mul : ℤ → ℤ → Fixed
unfolding ◌*ℤ◌ tdiv
fixed_mul a b = some (tdiv (a *ℤ b) unit)

instance abbrev pub fixed_double : Double Fixed
fixed_double = record {
  literal = λ n m. some (pos (n * unit / m));
  add = lift λ a b. some (a +ℤ b);
  sub = lift λ a b. some (a -ℤ b);
  mul = lift fixed_mul;
  div = lift fixed_div;
  square_root = fixed_sqrt;
  lt = on_numbers ltb_ℤ;
  le = on_numbers leb_ℤ;
  greatest = some (pos (10 ^ 40));
  lowest = some (negsuc (10 ^ 40));
  of_int = λ a. some (a *ℤ pos unit);
  to_int = fixed_to_int;
}

pub Fixed-IsOrdered : IsOrdered Fixed
unfolding ◌+ℤ◌ ◌-ℤ◌ ◌*ℤ◌ fixed_div fixed_sqrt fixed_to_int fixed_mul
Fixed-IsOrdered = record {
  refl_of_le = ground arith;
  le_trans = ground arith;
  le_total = ground arith;
  lt-eq-not-le = ground arith;
  num_of_lt = ground arith;
  of_int_num = ground arith;
}

pub Fixed-IsExact : IsExact Fixed
unfolding ◌+ℤ◌ ◌-ℤ◌ ◌*ℤ◌ fixed_div fixed_sqrt fixed_to_int fixed_mul
Fixed-IsExact = record {
  Grid = λ x. IsNum {W = Fixed} x;
  grid_nought = refl;
  grid_num = λ x g. g;
  grid_antisymm = ground arith;
  add_le_of_le_sub = ground arith;
  le_add = ground arith;
  sub_le = ground arith;
  add-sub = ground arith;
  grid_add = ground arith;
  grid_sub = ground arith;
}

unfoldable pub count_units : Fixed → ℕ
count_units (some (pos n)) = n
count_units _ = 0

sub_units : (m n : ℕ) → n ≤ m → some (pos m -ℤ pos n) ≡ some (pos (m - n))
unfolding ◌-ℤ◌
sub_units m n h = ground arith

abbrev fixed_amount : ℕ → Fixed
fixed_amount n = some (pos n)

amount_le_units : (m n : ℕ) → leb_ℤ (pos m) (pos n) ≡ leb m n
amount_le_units m n = ground arith

amount_lt_units : (m n : ℕ) → ltb_ℤ (pos m) (pos n) ≡ ltb m n
amount_lt_units m n = ground arith

add_units : (m n : ℕ) → some (pos m +ℤ pos n) ≡ some (pos (m + n))
unfolding ◌+ℤ◌
add_units m n = ground arith

unfoldable pub Fixed-IsCounted : IsCounted Fixed
unfolding count_units add_units sub_units amount_le_units amount_lt_units
Fixed-IsCounted = record {
  limit = 2 ^ 53;
  amount = fixed_amount;
  count = count_units;
  count-amount = λ n h. refl;
  amount_zero = refl;
  amount-add = λ m n h. add_units m n;
  amount-sub = λ m n h k. sub_units m n h;
  amount-le = λ m n h k. amount_le_units m n;
  amount-lt = λ m n h k. amount_lt_units m n;
}

-- Each decimal is on the grid.
pub Fixed-Grid : (n : ℕ) → Fixed-IsExact.Grid (some (pos n))
unfolding Fixed-IsExact
Fixed-Grid n = ground arith

fixed_mul_mono : (c x y : ℤ) → pos 0 ≤ℤ c → x ≤ℤ y → fixed_mul c x ≼ fixed_mul c y
unfolding fixed_mul
fixed_mul_mono (negsuc n) x y h k = absurd (omega arith)
fixed_mul_mono (pos n) (pos a) (pos b) h k =
    let scaled : n * a ≤ n * b = mul-le-mul_left n (omega arith) in ground arith
fixed_mul_mono (pos n) (pos a) (negsuc b) h k = absurd (omega arith)
fixed_mul_mono (pos n) (negsuc a) (pos b) h k = ground arith
fixed_mul_mono (pos n) (negsuc a) (negsuc b) h k =
    let scaled : n * suc b ≤ n * suc a = mul-le-mul_left n (omega arith) in ground arith

fixed_mul_mono_left : (c x y : ℤ) → pos 0 ≤ℤ c → x ≤ℤ y → fixed_mul x c ≼ fixed_mul y c
unfolding fixed_mul
fixed_mul_mono_left (negsuc n) x y h k = absurd (omega arith)
fixed_mul_mono_left (pos n) (pos a) (pos b) h k =
    let scaled : a * n ≤ b * n = mul-le-mul_right n (omega arith) in ground arith
fixed_mul_mono_left (pos n) (pos a) (negsuc b) h k = absurd (omega arith)
fixed_mul_mono_left (pos n) (negsuc a) (pos b) h k = ground arith
fixed_mul_mono_left (pos n) (negsuc a) (negsuc b) h k =
    let scaled : suc b * n ≤ suc a * n = mul-le-mul_right n (omega arith) in ground arith

mul_laws :
    (c x y : Fixed)
    → nought ≼ c
    → x ≼ y
    → (fixed_double.mul c x ≼ fixed_double.mul c y) × (fixed_double.mul x c ≼ fixed_double.mul y c)
mul_laws none x y h k = cc
mul_laws (some c) none y h k = cc
mul_laws (some c) (some x) none h k = cc
mul_laws (some c) (some x) (some y) h k =
    let up : pos 0 ≤ℤ c = ground arith in
    let rise : x ≤ℤ y = ground arith in
    (fixed_mul_mono c x y up rise, fixed_mul_mono_left c x y up rise)

pub Fixed-IsMonotone : IsMonotone Fixed
unfolding ◌+ℤ◌ ◌-ℤ◌
Fixed-IsMonotone = record {
  add_mono = ground arith;
  mul_mono = λ c x y h k _ _. (mul_laws c x y h k).0;
  mul_mono_left = λ c x y h k _ _. (mul_laws c x y h k).1;
}
