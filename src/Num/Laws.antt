-- ===== src/Num/Laws.antt =====
-- The numbers that are amounts: finite and not negative. On them the operations of `Num` are those
-- of the natural numbers.
use nzela.Base.{ℕ, ◌+◌, ◌-◌, ◌≤◌, ◌<◌, ◌≡◌, refl, true, false, arith, ltb, leb, if◌then◌else◌}
use nzela.Base.Int.{pos, negsuc, ◌+ℤ◌, ◌-ℤ◌}
use nzela.Num.{
  Num, nan, inf, neg_inf, fin, is_finite, is_nan, ◌<ₙ◌, ◌≤ₙ◌, ◌+ₙ◌, ◌-ₙ◌, negate, max_num, min_num,
}

-- A finite number that is not negative, in units.
abbrev pub amount : ℕ → Num
amount n = fin (pos n)

pub amount-+ : (a b : ℕ) → amount a +ₙ amount b ≡ amount (a + b)
unfolding ◌+ₙ◌ ◌+ℤ◌
amount-+ a b = ground arith

pub amount-sub : (a b : ℕ) → b ≤ a → amount a -ₙ amount b ≡ amount (a - b)
unfolding ◌-ₙ◌ ◌+ₙ◌ ◌+ℤ◌ ◌-ℤ◌ negate
amount-sub a b h = ground arith

pub amount-lt : (a b : ℕ) → (amount a <ₙ amount b) ≡ ltb a b
unfolding ◌<ₙ◌
amount-lt a b = ground arith

pub amount-le : (a b : ℕ) → (amount a ≤ₙ amount b) ≡ leb a b
unfolding ◌≤ₙ◌
amount-le a b = ground arith

pub clamp-sub : (a b : ℕ) → max_num (amount 0) (amount a -ₙ amount b) ≡ amount (a - b)
unfolding max_num ◌-ₙ◌ ◌+ₙ◌ ◌+ℤ◌ ◌-ℤ◌ negate
clamp-sub a b = ground arith

-- The part of a spend that a hold of `r` covers.
pub covered_spend :
    (r : ℕ) (x : Num)
    → is_nan x ≡ false
    → (s : ℕ) × (min_num (max_num x (amount 0)) (max_num (amount r) (amount 0)) ≡ amount s)
      × (s ≤ r)
unfolding max_num min_num
covered_spend r nan h = cc
covered_spend r inf h = (r, ground arith, omega arith)
covered_spend r neg_inf h = (0, ground arith, omega arith)
covered_spend r (fin (pos n)) h = (if ltb r n then r else n, ground arith, ground arith)
covered_spend r (fin (negsuc n)) h = (0, ground arith, omega arith)

-- A number that is finite and above zero is an amount.
pub amount_of_positive :
    (x : Num) → is_finite x ≡ true → (x ≤ₙ amount 0) ≡ false → (n : ℕ) × (x ≡ amount n) × (0 < n)
unfolding is_finite ◌≤ₙ◌
amount_of_positive nan f p = cc
amount_of_positive inf f p = cc
amount_of_positive neg_inf f p = cc
amount_of_positive (fin (pos n)) f p = (n, refl, ground arith)
amount_of_positive (fin (negsuc n)) f p = absurd (ground arith)

pub amount_inj : (a b : ℕ) → amount a ≡ amount b → a ≡ b
amount_inj a b h = ground arith

pub covered_spend-amount :
    (r s : ℕ)
    → s ≤ r
    → min_num (max_num (amount s) (amount 0)) (max_num (amount r) (amount 0)) ≡ amount s
unfolding max_num min_num
covered_spend-amount r s h = ground arith

pub amount-min : (a b : ℕ) → min_num (amount a) (amount b) ≡ amount (if ltb b a then b else a)
unfolding min_num
amount-min a b = ground arith

-- `NaN` spoils what it meets, and passes every comparison's negation.
pub sub-nan : (x : Num) → x -ₙ nan ≡ nan
unfolding ◌-ₙ◌ ◌+ₙ◌ negate
sub-nan x = ground arith

pub nan-sub : (x : Num) → nan -ₙ x ≡ nan
unfolding ◌-ₙ◌ ◌+ₙ◌
nan-sub x = refl

pub lt-nan : (x : Num) → (x <ₙ nan) ≡ false
unfolding ◌<ₙ◌
lt-nan x = ground arith
