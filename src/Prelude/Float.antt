-- ===== src/Prelude/Float.antt =====
-- Python's `float` as far as the program compares, subtracts and negates: the IEEE special values
-- are kept, a finite value is an integer count of one small unit, and rounding is left out.
use mathlib.Core.Path.{◌≡◌, refl}
use mathlib.Core.Bool.{Bool, true, false}
use native.Mathlib.Omega.{arith}
use flight_safety.Prelude.Int.{ℤ, pos, ◌+ℤ◌, ◌-ℤ◌, ◌*ℤ◌, neg, ltb_ℤ, leb_ℤ, -ℤ_parts}

pub data Float : Type 0 where
  nan : Float
  inf : Float
  neg_inf : Float
  fin : ℤ → Float

abbrev pub float_zero : Float
float_zero = fin (pos 0)

-- Every order test with a NaN is false.
abbrev pub ltb_f : Float → Float → Bool
ltb_f (fin a) (fin b) = ltb_ℤ a b
ltb_f (fin a) inf = true
ltb_f neg_inf (fin b) = true
ltb_f neg_inf inf = true
ltb_f _ _ = false

abbrev pub leb_f : Float → Float → Bool
leb_f (fin a) (fin b) = leb_ℤ a b
leb_f (fin a) inf = true
leb_f inf inf = true
leb_f neg_inf (fin b) = true
leb_f neg_inf neg_inf = true
leb_f neg_inf inf = true
leb_f _ _ = false

infixl 65 ◌-f◌
unfoldable pub ◌-f◌ : Float → Float → Float
fin a -f fin b = fin (a -ℤ b)
fin a -f inf = neg_inf
fin a -f neg_inf = inf
inf -f fin b = inf
inf -f neg_inf = inf
neg_inf -f fin b = neg_inf
neg_inf -f inf = neg_inf
_ -f _ = nan

infixl 65 ◌+f◌
unfoldable pub ◌+f◌ : Float → Float → Float
fin a +f fin b = fin (a +ℤ b)
fin a +f inf = inf
fin a +f neg_inf = neg_inf
inf +f fin b = inf
inf +f inf = inf
neg_inf +f fin b = neg_inf
neg_inf +f neg_inf = neg_inf
_ +f _ = nan

-- `v ** 2`. The square of a finite value counts squares of the unit.
unfoldable pub square : Float → Float
square nan = nan
square inf = inf
square neg_inf = inf
square (fin a) = fin (a *ℤ a)

unfoldable pub neg_f : Float → Float
neg_f nan = nan
neg_f inf = neg_inf
neg_f neg_inf = inf
neg_f (fin a) = fin (neg a)

-- `math.isfinite`
abbrev pub is_finite : Float → Bool
is_finite (fin a) = true
is_finite _ = false

abbrev pub is_nan : Float → Bool
is_nan nan = true
is_nan _ = false

-- Below a finite wall: the signed distance to it is negative.
pub sub_lower_neg : (v : Float) (lo : ℤ) → ltb_f (v -f fin lo) float_zero ≡ ltb_f v (fin lo)
unfolding ◌-f◌
sub_lower_neg (fin a) lo = ground (arith, -ℤ_parts a lo)
sub_lower_neg _ lo = refl

pub sub_upper_neg : (v : Float) (hi : ℤ) → ltb_f (fin hi -f v) float_zero ≡ ltb_f (fin hi) v
unfolding ◌-f◌
sub_upper_neg (fin a) hi = ground (arith, -ℤ_parts hi a)
sub_upper_neg _ hi = refl
