-- ===== src/Pricing/Quotes/Value.antt =====
-- What a cart is worth by the menu, computed in natural numbers and without errors, and the subtotal
-- of `priceOrder` (backend/gateway/src/pricing.ts).
use nzela.Base.{
  ℕ, ◌+◌, ◌*◌, ◌≡◌, refl, sym, ap, ◌∙◌, Option, some, List, [], ◌∷◌, arith, inl, inr, Option-cases,
}
use nzela.Base.Result.{ok, ◌>>=◌, bind_ok, ok_inj, ok_not_err}
use nzela.Num.{Num, fin, is_finite, ◌<ₙ◌, ◌+ₙ◌}
use nzela.Base.Int.{pos}
use nzela.Num.Laws.{amount, amount-+}
use nzela.Pricing.{
  PriceBook, QuoteLine, CartLine, times, count_of, require_positive_int, require_menu_price,
  price_add_ons, max_line_qty,
}
use nzela.Pricing.Quotes.{add_ons_of, qtys_of, PricedLine, PricedLines}

-- The units of an optional price.
unfoldable pub units_of : Option Num → ℕ
units_of (some (fin (pos n))) = n
units_of _ = 0

unfoldable pub add_ons_value : PriceBook → List ℕ → List Num → ℕ
add_ons_value book [] qtys = 0
add_ons_value book (a ∷ ids) [] = 0
add_ons_value book (a ∷ ids) (q ∷ qtys) =
    count_of q * units_of (book.add_on a) + add_ons_value book ids qtys

unfoldable pub line_value : PriceBook → QuoteLine → ℕ
line_value book line =
    count_of line.quantity * units_of (book.product line.food_id)
    + add_ons_value book (add_ons_of line) (qtys_of line)

unfoldable pub cart_value : PriceBook → List QuoteLine → ℕ
cart_value book [] = 0
cart_value book (l ∷ ls) = line_value book l + cart_value book ls

counted_qty : (n : Num) (most q : ℕ) → require_positive_int n most ≡ ok q → q ≡ count_of n
unfolding require_positive_int
counted_qty n most q h = ground arith

valid_units : (p q : Num) → require_menu_price p ≡ ok q → (q ≡ amount (units_of (some p)))
unfolding require_menu_price units_of is_finite ◌<ₙ◌
valid_units p q h = ground arith

times-amount : (n a : ℕ) → times n (amount a) ≡ amount (n * a)
unfolding times
times-amount n a = refl

price_add_ons-value :
    (book : PriceBook) (acc : ℕ) (ids : List ℕ) (qtys : List Num) (t : Num)
    → price_add_ons book (amount acc) ids qtys ≡ ok t
    → t ≡ amount (acc + add_ons_value book ids qtys)
unfolding add_ons_value price_add_ons
price_add_ons-value book acc [] qtys t h = sym (ok_inj h) ∙ ap amount (omega arith)
price_add_ons-value book acc (a ∷ ids) [] t h = absurd (ok_not_err h)
price_add_ons-value book acc (a ∷ ids) (q ∷ qtys) t h = elim (Option-cases (book.add_on a)) [
  | inl e ↦ absurd (ok_not_err (rw (e, price_add_ons) at h))
  | inr (p, e) ↦
      let k : (require_positive_int q max_line_qty >>= λ qty.
      require_menu_price p >>= λ price. price_add_ons book (amount acc +ₙ times qty price) ids qtys)
          ≡ ok t =
        rw (e, price_add_ons) at h in
      let (n, en, h₂) = bind_ok (require_positive_int q max_line_qty) _ k in
      let (u, eu, h₃) = bind_ok (require_menu_price p) _ h₂ in
      let step : amount acc +ₙ times n u ≡ amount (acc + count_of q * units_of (some p)) =
        rw (valid_units p u eu, counted_qty q max_line_qty n en, times-amount) (amount-+ acc _) in
      price_add_ons-value book (acc + count_of q * units_of (some p)) ids qtys t (rw step at h₃)
      ∙ rw e (ap amount (omega arith))
]

PricedLine-value :
    (line : QuoteLine) (book : PriceBook) (c : CartLine) (v : Num)
    → PricedLine line book c v
    → v ≡ amount (line_value book line)
unfolding line_value
PricedLine-value line book c v p =
    p.value_eq
    ∙ rw
        (
          valid_units p.unit p.unit p.valid_price,
          counted_qty line.quantity max_line_qty p.qty p.counted,
          price_add_ons-value book 0 (add_ons_of line) (qtys_of line) p.add_on_fc p.added,
          p.on_menu,
        )
        (rw times-amount (amount-+ _ _ ∙ ap amount (omega arith)))

pub PricedLines-value :
    (lines : List QuoteLine) (book : PriceBook) (acc : ℕ) (cs : List CartLine) (t : Num)
    → PricedLines lines book cs (amount acc) t
    → t ≡ amount (acc + cart_value book lines)
unfolding cart_value
PricedLines-value [] book acc [] t h = sym h ∙ ap amount (omega arith)
PricedLines-value [] book acc (c ∷ cs) t h = absurd h
PricedLines-value (l ∷ ls) book acc [] t h = absurd h
PricedLines-value (l ∷ ls) book acc (c ∷ cs) t (v, p, rest) =
    let step : amount acc +ₙ v ≡ amount (acc + line_value book l) =
      rw (PricedLine-value l book c v p) (amount-+ acc (line_value book l)) in
    PricedLines-value ls book (acc + line_value book l) cs t (rw step at rest)
    ∙ ap amount (omega arith)
