-- ===== src/Num.antt =====
-- The numbers of the source (a JavaScript `number`), in fixed-point form: `fin n` stands for
-- n · 10⁻⁶. Sums, differences and comparisons of finite values are exact; `NaN` and the infinities
-- behave as in IEEE 754. The rounding of doubles and the sign of zero are left out here; Double has the
-- rounding of the products and quotients that are rounded to a whole number after.
pub mod Laws
pub mod Double
pub mod Sort
use nzela.Base.{
  ℕ, ◌+◌, ◌*◌, ◌/◌, ◌%◌, ◌≤◌, ◌≡◌, refl, Bool, true, false, not, ◌&&◌, ◌||◌, arith, ◌==◌,
  if◌then◌else◌,
}
use nzela.Base.Int.{ℤ, pos, negsuc, pos_part, neg_part, ◌+ℤ◌, ◌-ℤ◌, leb_ℤ, ltb_ℤ}

pub data Num : Type 0 where
  nan inf neg_inf : Num
  fin : ℤ → Num

-- The number of units in 1.
abbrev pub scale : ℕ
scale = 1_000_000

-- A whole number.
abbrev pub whole : ℕ → Num
whole n = fin (pos (n * scale))

-- `Number.isFinite(x)`
unfoldable pub is_finite : Num → Bool
is_finite (fin a) = true
is_finite _ = false

-- `Number.isInteger(x)`
unfoldable pub is_integer : Num → Bool
is_integer (fin a) = (pos_part a + neg_part a) % scale == 0
is_integer _ = false

infix 50 ◌<ₙ◌ ◌≤ₙ◌ ◌=ₙ◌
-- `x < y`: false when a side is `NaN`.
unfoldable pub ◌<ₙ◌ : Num → Num → Bool
nan <ₙ y = false
inf <ₙ y = false
neg_inf <ₙ nan = false
neg_inf <ₙ neg_inf = false
neg_inf <ₙ inf = true
neg_inf <ₙ fin b = true
fin a <ₙ nan = false
fin a <ₙ neg_inf = false
fin a <ₙ inf = true
fin a <ₙ fin b = ltb_ℤ a b

-- `x === y` on numbers.
unfoldable pub ◌=ₙ◌ : Num → Num → Bool
nan =ₙ y = false
inf =ₙ inf = true
neg_inf =ₙ neg_inf = true
fin a =ₙ fin b = leb_ℤ a b && leb_ℤ b a
_ =ₙ _ = false

-- `x <= y`
unfoldable pub ◌≤ₙ◌ : Num → Num → Bool
unfolding ◌<ₙ◌ ◌=ₙ◌
x ≤ₙ y = x <ₙ y || x =ₙ y

infixl 65 ◌+ₙ◌ ◌-ₙ◌
unfoldable pub ◌+ₙ◌ : Num → Num → Num
nan +ₙ y = nan
inf +ₙ nan = nan
inf +ₙ neg_inf = nan
inf +ₙ inf = inf
inf +ₙ fin b = inf
neg_inf +ₙ nan = nan
neg_inf +ₙ inf = nan
neg_inf +ₙ neg_inf = neg_inf
neg_inf +ₙ fin b = neg_inf
fin a +ₙ nan = nan
fin a +ₙ inf = inf
fin a +ₙ neg_inf = neg_inf
fin a +ₙ fin b = fin (a +ℤ b)

-- `-x`
unfoldable pub negate : Num → Num
negate nan = nan
negate inf = neg_inf
negate neg_inf = inf
negate (fin a) = fin (pos 0 -ℤ a)

unfoldable pub ◌-ₙ◌ : Num → Num → Num
x -ₙ y = x +ₙ negate y

-- `Math.max(x, y)` and `Math.min(x, y)`: `NaN` when a side is `NaN`.
unfoldable pub is_nan : Num → Bool
is_nan nan = true
is_nan _ = false

unfoldable pub max_num : Num → Num → Num
unfolding is_nan ◌<ₙ◌
max_num x y = if is_nan x || is_nan y then nan else if x <ₙ y then y else x

unfoldable pub min_num : Num → Num → Num
unfolding is_nan ◌<ₙ◌
min_num x y = if is_nan x || is_nan y then nan else if y <ₙ x then y else x
