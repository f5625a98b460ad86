-- ===== src/Num/Double.antt =====
-- The rounding of a JavaScript `number` that is not negative: to 53 bits, the nearest, and of two
-- as near the one that is even (IEEE 754). It is used where a product or a quotient is rounded to a
-- whole number right after, so that the last bit counts. A double is given by its numerator over a
-- fixed power of two.
use nzela.Base.{
  ℕ, zero, suc, ◌+◌, ◌*◌, ◌/◌, ◌%◌, ◌≤◌, ◌<◌, ◌≡◌, refl, ◌⊎◌, inl, inr, false, ltb, arith,
  Bool-cases, if◌then◌else◌,
}
use native.Mathlib.Nat.{div-add-mod', suc-mul}

-- The quotient to the nearest, halves to even.
unfoldable nearest_even : ℕ → ℕ → ℕ
nearest_even n d =
    let q = n / d in
    let r = n % d in if ltb (2 * r) d then q else if ltb d (2 * r) then suc q else q + q % 2

abbrev pub two_53 : ℕ
two_53 = 9_007_199_254_740_992

-- The least power of two, from `u` on, with which `n` has at most 53 bits; `fuel` is the number of
-- doublings tried.
unfoldable unit_of : ℕ → ℕ → ℕ → ℕ
unit_of zero u n = u
unit_of (suc fuel) u n =
    let further = unit_of fuel (2 * u) n in if ltb n (u * two_53) then u else further

-- The double nearest to the quotient of `n` and `d`, when that is 2⁵² at least.
unfoldable pub quotient_double : ℕ → ℕ → ℕ
unfolding nearest_even unit_of
quotient_double n d = let u = unit_of 512 1 (n / d) in nearest_even n (d * u) * u

-- The double of `n`, which may have more than 53 bits.
unfoldable pub to_double : ℕ → ℕ
unfolding nearest_even unit_of
to_double n = let u = unit_of 512 1 n in nearest_even n u * u

even_step : (q : ℕ) → (q + q % 2 ≡ q) ⊎ (q + q % 2 ≡ suc q)
even_step q = ground arith

nearest_even-near : (n d : ℕ) → 0 < d → 2 * (nearest_even n d * d) ≤ 2 * n + d
unfolding nearest_even
nearest_even-near n d pos =
    let parts = div-add-mod' n d in
    let low : 2 * (n / d * d) ≤ 2 * n + d = omega (arith, parts) in
    let high : ltb (2 * (n % d)) d ≡ false → 2 * (suc (n / d) * d) ≤ 2 * n + d =
      λ e. omega (arith, parts, over e, suc-mul (n / d) d) in
    elim (Bool-cases (ltb (2 * (n % d)) d)) [
      | inl e ↦ rw (nearest_even, e) low
      | inr e ↦ elim (Bool-cases (ltb d (2 * (n % d)))) [
        | inl f ↦ rw (nearest_even, e, f) (high e)
        | inr f ↦ elim (even_step (n / d)) [
          | inl same ↦ rw (nearest_even, e, f, same) low
          | inr up ↦ rw (nearest_even, e, f, up) (high e)
        ]
      ]
    ]
  where
    over : ltb (2 * (n % d)) d ≡ false → d ≤ 2 * (n % d)
    over e = ground arith

-- Above 1, a unit of `n` is at most one 2⁻⁵²-th of it.
unit_of-IsUnit :
    (fuel u n : ℕ)
    → (0 < u) × ((u ≡ 1) ⊎ (4_503_599_627_370_496 * u ≤ n))
    → (0 < unit_of fuel u n)
      × ((unit_of fuel u n ≡ 1) ⊎ (4_503_599_627_370_496 * unit_of fuel u n ≤ n))
unfolding unit_of
unit_of-IsUnit zero u n h = h
unit_of-IsUnit (suc fuel) u n (pos, h) = elim (Bool-cases (ltb n (u * two_53))) [
  | inl e ↦ rw (unit_of, e) (pos, h)
  | inr e ↦ rw (unit_of, e) (unit_of-IsUnit fuel (2 * u) n (omega (arith, pos), inr (ground arith)))
]

-- The double of `n` is at most half a unit above it.
pub to_double-near :
    (n : ℕ)
    → (2 * to_double n ≤ 2 * n + 1)
      ⊎ ((u : ℕ) × (4_503_599_627_370_496 * u ≤ n) × (2 * to_double n ≤ 2 * n + u))
unfolding to_double
to_double-near n =
    let (pos, fine) = unit_of-IsUnit 512 1 n (omega arith, inl refl) in
    let near = nearest_even-near n (unit_of 512 1 n) pos in
    elim fine [
      | inl one ↦ inl (omega (arith, near, one))
      | inr small ↦ inr (unit_of 512 1 n, small, near)
    ]
