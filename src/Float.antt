-- ===== src/Float.antt =====
-- The floating-point numbers of the gateway: times, ages, delays and limits, as exact numbers of
-- ticks with the special values. Rounding is not modelled: a tick divides every finite value.
use bifrost_platform_plugin.Prelude.{
  ℕ, zero, suc, ◌*◌, ◌/◌, Bool, true, false, ℤ, pos, negsuc, ◌+ℤ◌, ◌-ℤ◌, ltb_ℤ, leb_ℤ,
  if◌then◌else◌, not, ◌||◌,
}

pub data Float : Type 0 where
  nan pos_inf neg_inf : Float
  fin : ℤ → Float

-- x < y: false where one of them is not a number
abbrev pub ltb_f : Float → Float → Bool
ltb_f (fin a) (fin b) = ltb_ℤ a b
ltb_f (fin a) pos_inf = true
ltb_f neg_inf (fin b) = true
ltb_f neg_inf pos_inf = true
ltb_f _ _ = false

-- x <= y
abbrev pub leb_f : Float → Float → Bool
leb_f (fin a) (fin b) = leb_ℤ a b
leb_f (fin a) pos_inf = true
leb_f neg_inf (fin b) = true
leb_f neg_inf pos_inf = true
leb_f neg_inf neg_inf = true
leb_f pos_inf pos_inf = true
leb_f _ _ = false

-- x + y
unfoldable pub add_f : Float → Float → Float
unfolding ◌+ℤ◌
add_f (fin a) (fin b) = fin (a +ℤ b)
add_f (fin a) pos_inf = pos_inf
add_f (fin a) neg_inf = neg_inf
add_f pos_inf (fin b) = pos_inf
add_f pos_inf pos_inf = pos_inf
add_f neg_inf (fin b) = neg_inf
add_f neg_inf neg_inf = neg_inf
add_f _ _ = nan

-- x - y
unfoldable pub sub_f : Float → Float → Float
unfolding ◌-ℤ◌
sub_f (fin a) (fin b) = fin (a -ℤ b)
sub_f (fin a) pos_inf = neg_inf
sub_f (fin a) neg_inf = pos_inf
sub_f pos_inf (fin b) = pos_inf
sub_f pos_inf neg_inf = pos_inf
sub_f neg_inf (fin b) = neg_inf
sub_f neg_inf pos_inf = neg_inf
sub_f _ _ = nan

-- max(x, y): the first argument unless the second is greater
abbrev pub max_f : Float → Float → Float
max_f x y = if ltb_f x y then y else x

-- 0.0
abbrev pub zero_f : Float
zero_f = fin (pos 0)

-- A magnitude with the sign turned.
abbrev negative : ℕ → ℤ
negative zero = pos zero
negative (suc n) = negsuc n

-- x * num / den, cut to whole ticks towards zero
unfoldable pub scale_f : ℕ → ℕ → Float → Float
scale_f num den (fin (pos n)) = fin (pos (n * num / den))
scale_f num den (fin (negsuc n)) = fin (negative (suc n * num / den))
scale_f num den x = x

-- abs(x)
unfoldable pub abs_f : Float → Float
abs_f (fin (negsuc n)) = fin (pos (suc n))
abs_f neg_inf = pos_inf
abs_f x = x

abbrev has_no_product : Float → Bool
has_no_product nan = true
has_no_product (fin (pos zero)) = true
has_no_product _ = false

abbrev is_below_zero : Float → Bool
is_below_zero (fin (negsuc n)) = true
is_below_zero neg_inf = true
is_below_zero _ = false

-- x * y, with 1000000 ticks to 1, cut to whole ticks towards zero
unfoldable pub mul_f : Float → Float → Float
mul_f (fin (pos a)) (fin (pos b)) = fin (pos (a * b / 1000000))
mul_f (fin (pos a)) (fin (negsuc b)) = fin (negative (a * suc b / 1000000))
mul_f (fin (negsuc a)) (fin (pos b)) = fin (negative (suc a * b / 1000000))
mul_f (fin (negsuc a)) (fin (negsuc b)) = fin (pos (suc a * suc b / 1000000))
mul_f x y =
    if has_no_product x || has_no_product y
    then nan
    else if eq_bool (is_below_zero x) (is_below_zero y)
    then pos_inf
    else neg_inf
  where
    eq_bool : Bool → Bool → Bool
    eq_bool true b = b
    eq_bool false b = not b
