-- ===== src/Pricing/Quotes/Tamper.antt =====
-- A quote is the menu's, and only a payload at the menu's prices passes
-- (backend/gateway/src/pricing.ts).
use nzela.Base.{
  ℕ, ◌≡◌, refl, sym, ap, ◌∙◌, Bool, true, false, not, Option, some, List, [], ◌∷◌, arith, or_else,
  length, length-map, map, All,
}
use nzela.Base.Result.{ok, bind_ok, throw_if_ok, throw_if}
use nzela.Num.{Num, whole, is_finite, ◌=ₙ◌, ◌+ₙ◌}
use nzela.Num.Laws.{amount}
use nzela.Landmark.{DeliveryZone}
use nzela.Pricing.{
  PriceBook, QuoteLine, CartLine, Quote, Payload, PricingError, fee_breakdown, make_cart_line,
  require_menu_price, quote_of, price_order, as_quote_line, check_prices, verify_payload_pricing,
  tampered_amount,
}
use nzela.Pricing.Fees.{fees_total}
use nzela.Pricing.Quotes.{
  PricedLine, PricedLines, price_lines-PricedLines, price_lines_again, length-PricedLines,
  price_order_parts, not-false,
}
use nzela.Pricing.Quotes.Value.{cart_value, PricedLines-value}

-- A cart line at the menu's price.
abbrev pub OnMenu : PriceBook → CartLine → Type 0
OnMenu book c = book.product c.food_id ≡ some c.price

PricedLine-OnMenu :
    (line : QuoteLine) (book : PriceBook) (c : CartLine) (v : Num)
    → PricedLine line book c v
    → OnMenu book c
unfolding make_cart_line
PricedLine-OnMenu line book c v p = rw p.line_eq p.on_menu

PricedLines-OnMenu :
    (lines : List QuoteLine) (book : PriceBook) (acc : Num) (cs : List CartLine) (t : Num)
    → PricedLines lines book cs acc t
    → All (OnMenu book) cs
PricedLines-OnMenu [] book acc [] t h = tt
PricedLines-OnMenu [] book acc (c ∷ cs) t h = absurd h
PricedLines-OnMenu (l ∷ ls) book acc [] t h = absurd h
PricedLines-OnMenu (l ∷ ls) book acc (c ∷ cs) t (v, p, rest) =
    (PricedLine-OnMenu l book c v p, PricedLines-OnMenu ls book (acc +ₙ v) cs t rest)

-- The total of the fees on the worth of a cart by the menu.
abbrev pub menu_total : PriceBook → List QuoteLine → DeliveryZone → Option Num → Num
menu_total book lines zone rain =
    (fee_breakdown (amount (cart_value book lines)) zone rain).total_fc

-- A quote is made from the menu alone: one cart line for each line asked for, each at the price on
-- the menu, a subtotal that is the worth of the cart by the menu, and the order's amount is the total
-- of the fees on that subtotal.
pub quote_from_menu :
    (lines : List QuoteLine) (book : PriceBook) (zone : DeliveryZone) (rain : Option Num)
    (q : Quote)
    → price_order lines book zone rain ≡ ok q
    → (length q.lines ≡ length lines)
      × All (OnMenu book) q.lines
      × (q.subtotal ≡ amount (cart_value book lines))
      × (q.order_amount ≡ menu_total book lines zone rain)
unfolding quote_of
quote_from_menu lines book zone rain q h =
    let (_, _, priced, q_eq) = price_order_parts lines book zone rain q h in
    let p = price_lines-PricedLines lines book (whole 0) q.lines q.subtotal priced in
    let value = PricedLines-value lines book 0 q.lines q.subtotal p ∙ ap amount (omega arith) in
    (
      length-PricedLines lines book (whole 0) q.lines q.subtotal p,
      PricedLines-OnMenu lines book (whole 0) q.lines q.subtotal p,
      value,
      ap (λ x. x.order_amount) q_eq ∙ ap (λ x. (fee_breakdown x zone rain).total_fc) value,
    )

-- A claimed price that is the menu's.
abbrev pub ClaimsMenuPrice : PriceBook → CartLine → Type 0
ClaimsMenuPrice book c = (p : Num) × (book.product c.food_id ≡ some p) × ((c.price =ₙ p) ≡ true)

-- The comparison of a cart with the lines that it was priced to.
check_prices-Claims :
    (book : PriceBook) (cart : List CartLine) (qs : List CartLine) (acc t : Num)
    → PricedLines (map as_quote_line cart) book qs acc t
    → check_prices cart qs ≡ ok tt
    → All (ClaimsMenuPrice book) cart
unfolding check_prices as_quote_line make_cart_line
check_prices-Claims book [] qs acc t p h = tt
check_prices-Claims book (c ∷ cs) [] acc t p h = absurd p
check_prices-Claims book (c ∷ cs) (q ∷ qs) acc t (v, p, rest) h =
    let (same, h₂) = throw_if_ok (not (c.price =ₙ q.price)) _ _ h in
    (
      (p.unit, p.on_menu, ap (λ x. c.price =ₙ x.price) (sym p.line_eq) ∙ not-false _ same),
      check_prices-Claims book cs qs (acc +ₙ v) t rest h₂,
    )

last_check : (b : Bool) (e : PricingError) → throw_if (not b) e ≡ ok tt → b ≡ true
last_check true e h = refl
last_check false e h = cc

-- No payload gets through at prices of its own: if the check passes, every line of the payload is on
-- the menu and claims the menu's price, and the amount of the order equals the total of the fees on
-- the worth of the cart by the menu.
pub verify_sound :
    (payload : Payload) (book : PriceBook) (zone : DeliveryZone) (rain : Option Num)
    → verify_payload_pricing payload book zone rain ≡ ok tt
    → All (ClaimsMenuPrice book) payload.cart
      × ((payload.order_amount =ₙ menu_total book (map as_quote_line payload.cart) zone rain)
          ≡ true)
unfolding verify_payload_pricing
verify_sound payload book zone rain h =
    let lines = map as_quote_line payload.cart in
    let (q, e, h₂) = bind_ok (price_order lines book zone rain) _ h in
    let (_, e₃, h₃) = bind_ok (check_prices payload.cart q.lines) _ h₂ in
    let (_, _, priced, _) = price_order_parts lines book zone rain q e in
    let (_, _, _, total) = quote_from_menu lines book zone rain q e in
    (
      check_prices-Claims book payload.cart q.lines (whole 0) q.subtotal
          (price_lines-PricedLines lines book (whole 0) q.lines q.subtotal priced) e₃,
      rw (← total) (last_check _ tampered_amount h₃),
    )

finite_same : (x : Num) → is_finite x ≡ true → (x =ₙ x) ≡ true
unfolding is_finite ◌=ₙ◌
finite_same x h = ground arith

menu_price_finite : (p : Num) → require_menu_price p ≡ ok p → is_finite p ≡ true
unfolding require_menu_price is_finite
menu_price_finite p h = ground arith

check_prices_self :
    (lines : List QuoteLine) (book : PriceBook) (acc : Num) (cs : List CartLine) (t : Num)
    → PricedLines lines book cs acc t
    → check_prices cs cs ≡ ok tt
unfolding check_prices make_cart_line
check_prices_self [] book acc [] t h = refl
check_prices_self [] book acc (c ∷ cs) t h = absurd h
check_prices_self (l ∷ ls) book acc [] t h = absurd h
check_prices_self (l ∷ ls) book acc (c ∷ cs) t (v, p, rest) =
    let finite = finite_same p.unit (menu_price_finite p.unit p.valid_price) in
    let same : (c.price =ₙ c.price) ≡ true = ap (λ x. x.price =ₙ x.price) p.line_eq ∙ finite in
    rw same (check_prices_self ls book (acc +ₙ v) cs t rest)

amount_finite : (n : ℕ) → is_finite (amount n) ≡ true
unfolding is_finite
amount_finite n = refl

price_order_again :
    (lines : List QuoteLine) (book : PriceBook) (zone : DeliveryZone) (rain : Option Num)
    (q : Quote)
    → price_order lines book zone rain ≡ ok q
    → price_order (map as_quote_line q.lines) book zone rain ≡ ok q
unfolding price_order
price_order_again lines book zone rain q h =
    let (some_lines, few, priced, q_eq) = price_order_parts lines book zone rain q h in
    let p = price_lines-PricedLines lines book (whole 0) q.lines q.subtotal priced in
    let len : length (map as_quote_line q.lines) ≡ length lines =
      length-map q.lines as_quote_line
      ∙ length-PricedLines lines book (whole 0) q.lines q.subtotal p in
    rw (len, some_lines, few, price_lines_again lines book (whole 0) q.lines q.subtotal p)
      (ap ok (sym q_eq))

-- An honest payload passes: the lines and the amount of a quote, checked against the same menu, zone
-- and rain multiplier, are accepted. The multiplier is finite and not negative.
pub verify_own_quote :
    (lines : List QuoteLine) (book : PriceBook) (zone : DeliveryZone) (rain : Option Num)
    (q : Quote) (r : ℕ)
    → or_else rain (whole 1) ≡ amount r
    → price_order lines book zone rain ≡ ok q
    → verify_payload_pricing
        (record { cart = q.lines; order_amount = q.order_amount })
        book
        zone
        rain
      ≡ ok tt
unfolding verify_payload_pricing
verify_own_quote lines book zone rain q r er h =
    let (_, _, priced, _) = price_order_parts lines book zone rain q h in
    let p = price_lines-PricedLines lines book (whole 0) q.lines q.subtotal priced in
    let (_, _, _, total) = quote_from_menu lines book zone rain q h in
    let finite : is_finite q.order_amount ≡ true =
      ap is_finite (total ∙ fees_total (cart_value book lines) zone rain r er) ∙ amount_finite _ in
    rw (
      price_order_again lines book zone rain q h,
      check_prices_self lines book (whole 0) q.lines q.subtotal p,
      finite_same q.order_amount finite,
    )
