-- ===== src/Pricing/Quotes.antt =====
-- What a quote promises (backend/gateway/src/pricing.ts).
pub mod Value
pub mod Tamper
use nzela.Base.{
  ℕ, suc, ◌+◌, ◌*◌, ◌≤◌, ◌<◌, ◌≡◌, refl, sym, ap, ◌∙◌, ◌≢◌, Bool, true, false, not, ◌||◌, Option,
  none, some, List, [], ◌∷◌, String, arith, or_else, length, ltb, ◌==◌, map, All, inl, inr,
  Option-cases, Bool-cases, if◌then◌else◌,
}
use nzela.Base.Result.{Result, ok, err, ◌>>=◌, throw_if, bind_ok, throw_if_ok, ok_inj, ok_not_err}
use nzela.Num.{Num, whole, is_finite, ◌<ₙ◌, ◌=ₙ◌, ◌+ₙ◌}
use nzela.Landmark.{DeliveryZone}
use nzela.Pricing.{
  PricingError, PriceBook, QuoteLine, CartLine, Quote, Payload, times, require_positive_int,
  require_menu_price, price_add_ons, make_cart_line, price_line, price_lines, quote_of, price_order,
  as_quote_line, max_line_qty, max_cart_lines, unknown_food, length_mismatch,
}

abbrev pub add_ons_of : QuoteLine → List ℕ
add_ons_of line = or_else line.add_ons []

abbrev pub qtys_of : QuoteLine → List Num
qtys_of line = or_else line.add_on_qtys (map (λ _. whole 1) (add_ons_of line))

pub not-false : (b : Bool) → not b ≡ false → b ≡ true
not-false true h = refl
not-false false h = cc

-- What `priceLine` did on a line that it priced.
pub record PricedLine (line : QuoteLine) (book : PriceBook) (c : CartLine) (v : Num) : Type 0 where
  pub qty : ℕ
  pub add_on_fc : Num
  pub unit : Num
  pub counted : require_positive_int line.quantity max_line_qty ≡ ok qty
  pub on_menu : book.product line.food_id ≡ some unit
  pub valid_price : require_menu_price unit ≡ ok unit
  pub same_length : (length (qtys_of line) == length (add_ons_of line)) ≡ true
  pub added : price_add_ons book (whole 0) (add_ons_of line) (qtys_of line) ≡ ok add_on_fc
  pub line_eq : c ≡ make_cart_line line unit (add_ons_of line) (qtys_of line)
  pub value_eq : v ≡ times qty unit +ₙ add_on_fc

require_menu_price_same : (p q : Num) → require_menu_price p ≡ ok q → p ≡ q
unfolding require_menu_price
require_menu_price_same p q h = ground arith

-- `priceLine` after the quantity and the menu.
line_rest : QuoteLine → PriceBook → ℕ → Num → Result PricingError (CartLine × Num)
line_rest line book qty unit =
    throw_if (not (length (qtys_of line) == length (add_ons_of line))) length_mismatch >>= λ _.
    price_add_ons book (whole 0) (add_ons_of line) (qtys_of line) >>= λ add_on_fc.
    ok (make_cart_line line unit (add_ons_of line) (qtys_of line), times qty unit +ₙ add_on_fc)

-- The case of a food on the menu.
line_on_menu :
    (line : QuoteLine) (book : PriceBook) (qty : ℕ) (p : Num)
    → require_positive_int line.quantity max_line_qty ≡ ok qty
    → book.product line.food_id ≡ some p
    → price_line line book ≡ (require_menu_price p >>= line_rest line book qty)
unfolding price_line line_rest
line_on_menu line book qty p eq ep = rw (eq, ep)

line_off_menu :
    (line : QuoteLine) (book : PriceBook) (qty : ℕ)
    → require_positive_int line.quantity max_line_qty ≡ ok qty
    → book.product line.food_id ≡ none
    → price_line line book ≡ err unknown_food
unfolding price_line
line_off_menu line book qty eq ep = rw (eq, ep)

line_quantity :
    (line : QuoteLine) (book : PriceBook) {x : CartLine × Num}
    → price_line line book ≡ ok x
    → (qty : ℕ) × (require_positive_int line.quantity max_line_qty ≡ ok qty)
unfolding price_line
line_quantity line book h =
    let (qty, e, _) = bind_ok (require_positive_int line.quantity max_line_qty) _ h in (qty, e)

rest-PricedLine :
    (line : QuoteLine) (book : PriceBook) (c : CartLine) (v : Num) (qty : ℕ) (unit : Num)
    → require_positive_int line.quantity max_line_qty ≡ ok qty
    → book.product line.food_id ≡ some unit
    → require_menu_price unit ≡ ok unit
    → line_rest line book qty unit ≡ ok (c, v)
    → PricedLine line book c v
unfolding line_rest
rest-PricedLine line book c v qty unit eq ep em h =
    let (same, h₂) = throw_if_ok (not (length (qtys_of line) == length (add_ons_of line))) _ _ h in
    let (add_on_fc, added, h₃) =
      bind_ok (price_add_ons book (whole 0) (add_ons_of line) (qtys_of line)) _ h₂ in
    let e = ok_inj h₃ in
    record {
      qty = qty;
      add_on_fc = add_on_fc;
      unit = unit;
      counted = eq;
      on_menu = ep;
      valid_price = em;
      same_length = not-false _ same;
      added = added;
      line_eq = sym (ap (λ x. x.0) e);
      value_eq = sym (ap (λ x. x.1) e);
    }

price_line-PricedLine :
    (line : QuoteLine) (book : PriceBook) (c : CartLine) (v : Num)
    → price_line line book ≡ ok (c, v)
    → PricedLine line book c v
price_line-PricedLine line book c v h =
    let (qty, eq) = line_quantity line book h in
    elim (Option-cases (book.product line.food_id)) [
      | inl off ↦ absurd (ok_not_err (sym (line_off_menu line book qty eq off) ∙ h))
      | inr (p, on) ↦
          let (unit, em, h₂) =
            bind_ok (require_menu_price p) _ (sym (line_on_menu line book qty p eq on) ∙ h) in
          let same = require_menu_price_same p unit em in
          rest-PricedLine line book c v qty unit eq (rw same at on) (rw same at em) h₂
    ]

pub price_line_of :
    (line : QuoteLine) (book : PriceBook) (c : CartLine) (v : Num)
    → PricedLine line book c v
    → price_line line book ≡ ok (c, v)
unfolding price_line
price_line_of line book c v p =
    rw (p.counted, p.on_menu, p.valid_price, p.same_length, p.added)
      (λ i. ok (sym p.line_eq i, sym p.value_eq i))

-- A line that is priced again gives the same cart line and the same value.
again-PricedLine :
    (line : QuoteLine) (book : PriceBook) (c : CartLine) (v : Num)
    → PricedLine line book c v
    → PricedLine (as_quote_line c) book c v
unfolding as_quote_line make_cart_line
again-PricedLine line book c v p = rw p.line_eq (record {
  qty = p.qty;
  add_on_fc = p.add_on_fc;
  unit = p.unit;
  counted = p.counted;
  on_menu = p.on_menu;
  valid_price = p.valid_price;
  same_length = p.same_length;
  added = p.added;
  line_eq = refl;
  value_eq = p.value_eq;
})

price_again :
    (line : QuoteLine) (book : PriceBook) (c : CartLine) (v : Num)
    → PricedLine line book c v
    → price_line (as_quote_line c) book ≡ ok (c, v)
price_again line book c v p =
    price_line_of (as_quote_line c) book c v (again-PricedLine line book c v p)

-- What the loop over the lines did when it priced them all.
abbrev pub PricedLines : List QuoteLine → PriceBook → List CartLine → Num → Num → Type 0
PricedLines [] book [] acc t = acc ≡ t
PricedLines [] book (c ∷ cs) acc t = ⊥
PricedLines (l ∷ ls) book [] acc t = ⊥
PricedLines (l ∷ ls) book (c ∷ cs) acc t =
    (v : Num) × PricedLine l book c v × PricedLines ls book cs (acc +ₙ v) t

pub price_lines-PricedLines :
    (lines : List QuoteLine) (book : PriceBook) (acc : Num) (cs : List CartLine) (t : Num)
    → price_lines lines book acc ≡ ok (cs, t)
    → PricedLines lines book cs acc t
unfolding price_lines
price_lines-PricedLines [] book acc [] t h = ap (λ x. x.1) (ok_inj h)
price_lines-PricedLines [] book acc (c ∷ cs) t h = cc (ap (λ x. x.0) (ok_inj h))
price_lines-PricedLines (l ∷ ls) book acc cs t h =
    let ((c, v), e, h₂) = bind_ok (price_line l book) _ h in
    let ((ds, u), e₂, h₃) = bind_ok (price_lines ls book (acc +ₙ v)) _ h₂ in
    let same = ok_inj h₃ in
    rw (← ap (λ x. x.0) same, ← ap (λ x. x.1) same)
      (v, price_line-PricedLine l book c v e, price_lines-PricedLines ls book (acc +ₙ v) ds u e₂)

pub price_lines_again :
    (lines : List QuoteLine) (book : PriceBook) (acc : Num) (cs : List CartLine) (t : Num)
    → PricedLines lines book cs acc t
    → price_lines (map as_quote_line cs) book acc ≡ ok (cs, t)
unfolding price_lines
price_lines_again [] book acc [] t h = rw h
price_lines_again [] book acc (c ∷ cs) t h = absurd h
price_lines_again (l ∷ ls) book acc [] t h = absurd h
price_lines_again (l ∷ ls) book acc (c ∷ cs) t (v, p, rest) =
    rw (price_again l book c v p, price_lines_again ls book (acc +ₙ v) cs t rest)

pub length-PricedLines :
    (lines : List QuoteLine) (book : PriceBook) (acc : Num) (cs : List CartLine) (t : Num)
    → PricedLines lines book cs acc t
    → length cs ≡ length lines
length-PricedLines [] book acc [] t h = refl
length-PricedLines [] book acc (c ∷ cs) t h = absurd h
length-PricedLines (l ∷ ls) book acc [] t h = absurd h
length-PricedLines (l ∷ ls) book acc (c ∷ cs) t (v, p, rest) =
    ap suc (length-PricedLines ls book (acc +ₙ v) cs t rest)

pub price_order_parts :
    (lines : List QuoteLine) (book : PriceBook) (zone : DeliveryZone) (rain : Option Num)
    (q : Quote)
    → price_order lines book zone rain ≡ ok q
    → ((length lines == 0) ≡ false)
      × (ltb max_cart_lines (length lines) ≡ false)
      × (price_lines lines book (whole 0) ≡ ok (q.lines, q.subtotal))
      × (q ≡ quote_of (q.lines, q.subtotal) zone rain)
unfolding price_order quote_of
price_order_parts lines book zone rain q h = elim (Bool-cases (length lines == 0)) [
  | inl e ↦ absurd (ok_not_err (rw e at h))
  | inr e ↦ elim (Bool-cases (ltb max_cart_lines (length lines))) [
    | inl g ↦ absurd (ok_not_err (rw (e, g) at h))
    | inr g ↦
        let k : (price_lines lines book (whole 0) >>= λ priced. ok (quote_of priced zone rain))
            ≡ ok q =
          rw (e, g) at h in
        let (priced, ep, h₂) = bind_ok (price_lines lines book (whole 0)) _ k in
        let same : quote_of priced zone rain ≡ q = ok_inj h₂ in
        (
          e,
          g,
          ep ∙ (λ i. ok ((same i).lines, (same i).subtotal)),
          sym same ∙ (λ i. quote_of ((same i).lines, (same i).subtotal) zone rain),
        )
  ]
]
