-- ===== src/Tests/Orders.antt =====
-- Prices, radius gates and the kitchen at concrete inputs (backend/gateway/src/pricing.ts, recap.ts,
-- cuisine-sync.ts, shared/landmark-graph/src/radius.ts).
use nzela.Base.{
  ℕ, ◌+◌, ◌-◌, ◌*◌, ◌≤◌, ◌<◌, ◌≡◌, refl, ◌⊎◌, ◌↔◌, Bool, true, false, none, some, List, [], ◌∷◌,
  length, map, ◌++◌, All, if◌then◌else◌, ◌==◌,
}
use nzela.Base.Result.{ok}
use nzela.Num.{Num, whole, scale, is_finite, is_integer, ◌≤ₙ◌, ◌<ₙ◌, ◌=ₙ◌, ◌+ₙ◌}
use nzela.Num.Laws.{amount}
use nzela.Num.Sort.{IsSortedBy}
use nzela.Base.Int.{◌+ℤ◌}
use nzela.Ledger.{Events, write, ai, lifecycle}
use nzela.Ledger.Meters.{sum_costs}
use nzela.Landmark.{
  RadiusConfig, effective_radius_km, RestaurantCandidate, discovery, discovery_list, distance_of,
  radius_gate, zone2,
}
use nzela.Landmark.Gates.{IsListed, Nearest, discovery_list_lem, radius_gate_lem}
use nzela.Pricing.{
  share_of, times, fee_breakdown, PriceBook, QuoteLine, CartLine, Quote, Payload, count_of,
  require_positive_int, require_menu_price, price_add_ons, make_cart_line, price_line, price_lines,
  quote_of, price_order, as_quote_line, verify_payload_pricing,
}
use nzela.Pricing.Fees.{fees_conserved}
use nzela.Pricing.Quotes.Value.{cart_value}
use nzela.Pricing.Quotes.Tamper.{
  OnMenu, ClaimsMenuPrice, menu_total, quote_from_menu, verify_sound, verify_own_quote,
}
use nzela.Kitchen.{
  tts_escalation_cost_usd, awaiting_vendor, KitchenEvent, timeout, voice_call_unanswered,
  customer_chose_refund, KitchenOrder, kitchen_log, is_awaiting, is_escalating, is_failed, step_if,
  apply_kitchen_event, apply_kitchen_events, refunded, escalating_voice_call,
}
use nzela.Kitchen.Ladder.{Step, Applies, apply_kitchen_event_lem}
use nzela.Kitchen.Runs.{WithinLadder, apply_kitchen_events_lem}
use mathlib.Core.List.{Perm}

-- A menu of one dish at 8000 FC.
abbrev menu : PriceBook
menu = record { product = λ id. if id == 1 then some (whole 8_000) else none; add_on = λ id. none }

abbrev two_dishes : QuoteLine
two_dishes = record {
  food_id = 1;
  quantity = whole 2;
  variant = none;
  add_ons = none;
  add_on_qtys = none;
  item_campaign_id = none;
}

abbrev dishes_line : CartLine
dishes_line = record {
  food_id = 1;
  item_campaign_id = none;
  price = whole 8_000;
  variant = none;
  add_ons = some [];
  add_on_qtys = some [];
  quantity = whole 2;
}

abbrev dishes_quote : Quote
dishes_quote = quote_of (dishes_line ∷ [], whole 16_000) zone2 none

dishes_priced : price_order (two_dishes ∷ []) menu zone2 none ≡ ok dishes_quote
unfolding price_order price_lines price_line require_positive_int require_menu_price price_add_ons
    make_cart_line count_of is_integer is_finite ◌<ₙ◌ ◌+ₙ◌ ◌+ℤ◌ times
dishes_priced = refl

fees_conserved_example :
    let f = fee_breakdown (whole 16_000) zone2 none in
    (s : ℕ) × (p : ℕ) × (d : ℕ) × (w : ℕ) × (f.service_fc ≡ amount s)
    × (f.processing_fc ≡ amount p)
    × (f.delivery_fc ≡ amount d)
    × (f.wewa_share_fc ≡ amount w)
    × (w ≤ d)
    × (f.marge_fc ≡ amount (s + p + (d - w)))
    × (f.total_fc ≡ f.subtotal_fc +ₙ f.wewa_share_fc +ₙ f.marge_fc)
    × (10 * s ≤ 16_000 * scale + 5 * scale)
    × (16_000 * scale < 10 * s + 5 * scale + 1)
    × (50 * p ≤ 16_000 * scale + 25 * scale)
    × (16_000 * scale < 50 * p + 25 * scale + 1)
fees_conserved_example = fees_conserved (16_000 * scale) zone2 none scale refl

quote_from_menu_example :
    (length dishes_quote.lines ≡ 1)
    × All (OnMenu menu) dishes_quote.lines
    × (dishes_quote.subtotal ≡ amount (cart_value menu (two_dishes ∷ [])))
    × (dishes_quote.order_amount ≡ menu_total menu (two_dishes ∷ []) zone2 none)
quote_from_menu_example =
    quote_from_menu (two_dishes ∷ []) menu zone2 none dishes_quote dishes_priced

abbrev honest : Payload
honest = record { cart = dishes_quote.lines; order_amount = dishes_quote.order_amount }

verify_own_quote_example : verify_payload_pricing honest menu zone2 none ≡ ok tt
verify_own_quote_example =
    verify_own_quote (two_dishes ∷ []) menu zone2 none dishes_quote scale refl dishes_priced

verify_sound_example :
    All (ClaimsMenuPrice menu) honest.cart
    × ((honest.order_amount =ₙ menu_total menu (map as_quote_line honest.cart) zone2 none) ≡ true)
verify_sound_example = verify_sound honest menu zone2 none verify_own_quote_example

abbrev chez : ℕ → Num → Bool → RestaurantCandidate
chez id distance is_open = record {
  id = id;
  name = "Chez";
  quartier = "Bandal";
  distance_km = distance;
  landmark_hops = 1;
  same_quartier = true;
  same_commune = true;
  cuisine_category = "grill";
  is_open = is_open;
  rating = whole 4;
}

abbrev around : List RestaurantCandidate
around = chez 1 (whole 7) true ∷ chez 2 (whole 4) true ∷ chez 3 (whole 2) true ∷ []

abbrev dry : RadiusConfig
dry = record { rain_mode = false }

discovery_list_lem_example :
    (others : List RestaurantCandidate) × Perm (discovery_list around dry ++ others) around
    × All (λ r. IsListed dry r → ⊥) others
    × All (IsListed dry) (discovery_list around dry)
    × IsSortedBy distance_of (discovery_list around dry)
discovery_list_lem_example = discovery_list_lem around dry

radius_gate_lem_example :
    let r = radius_gate discovery (chez 1 (whole 7) true) around dry in
    (r.radius ≡ whole 5)
    × (((r.allowed ≡ true) × ((whole 7 ≤ₙ whole 5) ≡ true) × (r.substitute ≡ none))
        ⊎ ((r.allowed ≡ false)
            × ((whole 7 ≤ₙ whole 5) ≡ false)
            × Nearest (chez 1 (whole 7) true) around (whole 5) r.substitute))
radius_gate_lem_example = radius_gate_lem discovery (chez 1 (whole 7) true) around dry

near_in_rain :
    (radius_gate discovery (chez 3 (whole 2) true) around (record { rain_mode = true })).allowed
    ≡ true
unfolding radius_gate effective_radius_km ◌≤ₙ◌
near_in_rain = refl

abbrev silent_order : KitchenOrder
silent_order = record {
  tk_ref = "TK-1";
  state = awaiting_vendor;
  restaurant_id = 4;
  prep_time_min = none;
}

apply_kitchen_event_lem_example :
    ((o2 : KitchenOrder) × (l2 : Events) × Applies silent_order timeout [] o2 l2
      × (o2.state ≡ escalating_voice_call))
    ↔ Step awaiting_vendor timeout escalating_voice_call
apply_kitchen_event_lem_example =
    apply_kitchen_event_lem silent_order timeout [] escalating_voice_call

abbrev whole_ladder : List KitchenEvent
whole_ladder = timeout ∷ voice_call_unanswered ∷ customer_chose_refund ∷ []

abbrev refunded_order : KitchenOrder
refunded_order = record silent_order { state = refunded }

abbrev ladder_events : Events
ladder_events =
    kitchen_log silent_order ai tts_escalation_cost_usd
    ∷ kitchen_log silent_order lifecycle (whole 0)
    ∷ kitchen_log silent_order lifecycle (whole 0)
    ∷ []

ladder_run : apply_kitchen_events silent_order whole_ladder [] ≡ ok (refunded_order, ladder_events)
unfolding apply_kitchen_events apply_kitchen_event step_if is_awaiting is_escalating is_failed
    kitchen_log write
ladder_run = refl

nothing_spent : sum_costs (whole 0) [] ≡ amount 0
unfolding sum_costs
nothing_spent = refl

apply_kitchen_events_lem_example : WithinLadder 3 0 silent_order refunded_order ladder_events
apply_kitchen_events_lem_example =
    apply_kitchen_events_lem whole_ladder silent_order [] refunded_order ladder_events 0 ladder_run
      nothing_spent

-- 70% of 2625 FC, just below a half in doubles.
low_share : share_of 2_625 ≡ 1_837
unfolding share_of
low_share = refl
