-- ===== src/Pricing.antt =====
-- The fees of an order (backend/gateway/src/recap.ts) and its price, computed from the menu alone
-- (backend/gateway/src/pricing.ts). A cart line's `variations`, which nothing reads, are left out; a
-- `PricingError` is its kind, without the text. Rates are exact: 10%, 2% and 70%.
pub mod Fees
pub mod Quotes
use nzela.Base.{
  ℕ, suc, ◌+◌, ◌-◌, ◌*◌, ◌/◌, Bool, true, false, not, ◌||◌, Option, none, some, List, [], ◌∷◌,
  String, if◌then◌else◌, or_else, length, ltb, ◌==◌, map,
}
use nzela.Base.Int.{pos, negsuc, ◌-ℤ◌}
use nzela.Base.Result.{Result, ok, err, ◌>>=◌, ◌>>◌, throw_if}
use nzela.Num.{
  Num, nan, inf, neg_inf, fin, scale, whole, is_finite, is_integer, ◌<ₙ◌, ◌=ₙ◌, ◌+ₙ◌, ◌-ₙ◌,
}
use nzela.Num.Double.{two_53, to_double}
use nzela.Landmark.{DeliveryZone, zone_delivery_fc}

-- `n * x` for a whole number `n`.
unfoldable pub times : ℕ → Num → Num
unfolding ◌-ℤ◌
times n nan = nan
times n inf = if n == 0 then nan else inf
times n neg_inf = if n == 0 then nan else neg_inf
times n (fin (pos a)) = fin (pos (n * a))
times n (fin (negsuc a)) = fin (pos 0 -ℤ pos (n * suc a))

-- `Math.round(x * (num / den))`: to the nearest whole number, halves up.
unfoldable pub round_rate : ℕ → ℕ → Num → Num
unfolding ◌-ℤ◌
round_rate num den nan = nan
round_rate num den inf = inf
round_rate num den neg_inf = neg_inf
round_rate num den (fin (pos a)) = whole ((2 * (a * num) + den * scale) / (2 * (den * scale)))
round_rate num den (fin (negsuc a)) =
    fin (pos 0 -ℤ pos ((2 * (suc a * num) + (den * scale - 1)) / (2 * (den * scale)) * scale))

-- The double 0.7, in units of 2⁻⁵³.
abbrev pub share_rate : ℕ
share_rate = 6_305_039_478_318_694

-- `Math.round(d * 0.7)`: the product is rounded to a double first, which takes 2625 to 1837 and not
-- to 1838.
unfoldable pub share_of : ℕ → ℕ
unfolding to_double
share_of d = (2 * to_double (d * share_rate) + two_53) / (2 * two_53)

-- `Math.round(x * WEWA_DELIVERY_SHARE)` for a whole number `x`, as the delivery fee is; below 0 halves
-- go up too.
unfoldable pub wewa_share : Num → Num
unfolding ◌-ℤ◌ share_of
wewa_share nan = nan
wewa_share inf = inf
wewa_share neg_inf = neg_inf
wewa_share (fin (pos a)) = whole (share_of (a / scale))
wewa_share (fin (negsuc a)) = fin (
    pos 0
    -ℤ pos ((2 * to_double (suc a / scale * share_rate) + (two_53 - 1)) / (2 * two_53) * scale))

pub record FeeBreakdown : Type 0 where
  pub subtotal_fc : Num
  pub service_fc : Num
  pub processing_fc : Num
  pub delivery_fc : Num
  pub total_fc : Num
  pub wewa_share_fc : Num
  pub marge_fc : Num

unfoldable pub fee_breakdown : Num → DeliveryZone → Option Num → FeeBreakdown
fee_breakdown subtotal zone rain_multiplier =
    let service = round_rate 10 100 subtotal in
    let processing = round_rate 2 100 subtotal in
    let delivery =
      round_rate 1 1 (times (zone_delivery_fc zone) (or_else rain_multiplier (whole 1))) in
    let share = wewa_share delivery in
    record {
      subtotal_fc = subtotal;
      service_fc = service;
      processing_fc = processing;
      delivery_fc = delivery;
      total_fc = subtotal +ₙ service +ₙ processing +ₙ delivery;
      wewa_share_fc = share;
      marge_fc = service +ₙ processing +ₙ (delivery -ₙ share);
    }

abbrev pub max_line_qty : ℕ
max_line_qty = 50

abbrev pub max_cart_lines : ℕ
max_cart_lines = 50

pub data PricingError : Type 0 where
  bad_quantity bad_menu_price unknown_food unknown_add_on length_mismatch : PricingError
  empty_cart too_many_lines tampered_price tampered_amount : PricingError

pub record PriceBook : Type 0 where
  pub product : ℕ → Option Num
  pub add_on : ℕ → Option Num

pub record QuoteLine : Type 0 where
  pub food_id : ℕ
  pub quantity : Num
  pub variant : Option String
  pub add_ons : Option (List ℕ)
  pub add_on_qtys : Option (List Num)
  pub item_campaign_id : Option ℕ

pub record CartLine : Type 0 where
  pub food_id : ℕ
  pub item_campaign_id : Option ℕ
  pub price : Num
  pub variant : Option String
  pub add_ons : Option (List ℕ)
  pub add_on_qtys : Option (List Num)
  pub quantity : Num

pub record Quote : Type 0 where
  pub lines : List CartLine
  pub subtotal : Num
  pub fees : FeeBreakdown
  pub order_amount : Num

-- The whole part of an amount.
unfoldable pub count_of : Num → ℕ
count_of (fin (pos n)) = n / scale
count_of _ = 0

-- The quantity as a natural number, once it is known to be an integer in [1, most].
unfoldable pub require_positive_int : Num → ℕ → Result PricingError ℕ
require_positive_int n most =
    if not (is_integer n) || (n <ₙ whole 1 || whole most <ₙ n)
    then err bad_quantity
    else ok (count_of n)

unfoldable pub require_menu_price : Num → Result PricingError Num
require_menu_price price =
    if not (is_finite price) || price <ₙ whole 0 then err bad_menu_price else ok price

-- The loop over the add-ons, from the amount `acc`; the two lists have one length.
unfoldable pub price_add_ons : PriceBook → Num → List ℕ → List Num → Result PricingError Num
price_add_ons book acc [] qtys = ok acc
price_add_ons book acc (a ∷ ids) [] = err length_mismatch
price_add_ons book acc (a ∷ ids) (q ∷ qtys) = elim (book.add_on a) [
  | none ↦ err unknown_add_on
  | some p ↦ require_positive_int q max_line_qty >>= λ qty.
      require_menu_price p >>= λ price. price_add_ons book (acc +ₙ times qty price) ids qtys
]

unfoldable pub make_cart_line : QuoteLine → Num → List ℕ → List Num → CartLine
make_cart_line line unit add_ons qtys = record {
  food_id = line.food_id;
  item_campaign_id = line.item_campaign_id;
  price = unit;
  variant = line.variant;
  add_ons = some add_ons;
  add_on_qtys = some qtys;
  quantity = line.quantity;
}

unfoldable pub price_line : QuoteLine → PriceBook → Result PricingError (CartLine × Num)
price_line line book = require_positive_int line.quantity max_line_qty >>= λ qty.
    elim (book.product line.food_id) [
      | none ↦ err unknown_food
      | some p ↦ require_menu_price p >>= λ unit.
          let add_ons = or_else line.add_ons [] in
          let qtys = or_else line.add_on_qtys (map (λ _. whole 1) add_ons) in
          throw_if (not (length qtys == length add_ons)) length_mismatch >>= λ _.
          price_add_ons book (whole 0) add_ons qtys >>= λ add_on_fc.
          ok (make_cart_line line unit add_ons qtys, times qty unit +ₙ add_on_fc)
    ]

-- The loop over the lines, from the subtotal `acc`.
unfoldable pub price_lines :
    List QuoteLine → PriceBook → Num → Result PricingError (List CartLine × Num)
price_lines [] book acc = ok ([], acc)
price_lines (line ∷ lines) book acc = price_line line book >>= λ priced.
    price_lines lines book (acc +ₙ priced.1) >>= λ rest. ok (priced.0 ∷ rest.0, rest.1)

unfoldable pub quote_of : List CartLine × Num → DeliveryZone → Option Num → Quote
quote_of (lines, subtotal) zone rain =
    let fees = fee_breakdown subtotal zone rain in
    record { lines = lines; subtotal = subtotal; fees = fees; order_amount = fees.total_fc }

unfoldable pub price_order :
    List QuoteLine → PriceBook → DeliveryZone → Option Num → Result PricingError Quote
price_order lines book zone rain =
    if length lines == 0
    then err empty_cart
    else if ltb max_cart_lines (length lines)
    then err too_many_lines
    else price_lines lines book (whole 0) >>= λ priced. ok (quote_of priced zone rain)

-- A cart line read as a quote line: its price is not read.
unfoldable pub as_quote_line : CartLine → QuoteLine
as_quote_line c = record {
  food_id = c.food_id;
  quantity = c.quantity;
  variant = c.variant;
  add_ons = c.add_ons;
  add_on_qtys = c.add_on_qtys;
  item_campaign_id = c.item_campaign_id;
}

-- The loop that compares the claimed prices with the quote's.
unfoldable pub check_prices : List CartLine → List CartLine → Result PricingError (Unit {0})
check_prices [] quoted = ok tt
check_prices (c ∷ cs) [] = err tampered_price
check_prices (c ∷ cs) (q ∷ qs) =
    throw_if (not (c.price =ₙ q.price)) tampered_price >>= λ _. check_prices cs qs

pub record Payload : Type 0 where
  pub cart : List CartLine
  pub order_amount : Num

unfoldable pub verify_payload_pricing :
    Payload → PriceBook → DeliveryZone → Option Num → Result PricingError (Unit {0})
verify_payload_pricing payload book zone rain =
    price_order (map as_quote_line payload.cart) book zone rain >>= λ quote.
    check_prices payload.cart quote.lines >>= λ _.
    throw_if (not (payload.order_amount =ₙ quote.order_amount)) tampered_amount
