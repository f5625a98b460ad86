-- ===== src/Conversation/Totals.antt =====
-- The price of a session's order is the subtotal that its customer was shown, with the fees
-- (backend/gateway/src/conversation-stackfood.ts, backend/gateway/src/conversation.ts).
use nzela.Base.{
  ℕ, ◌≤◌, ◌<◌, ◌≡◌, ◌≢◌, refl, ap, ◌∙◌, false, none, some, List, [], ◌∷◌, String, arith, length,
  All, map, ltb, ◌==◌,
}
use nzela.Base.Result.{Result}
use nzela.Num.{Num, whole}
use nzela.Landmark.{DeliveryZone}
use nzela.Pricing.{Quote, price_order, quote_of, fee_breakdown, max_cart_lines}
use nzela.Sessions.{Session}
use nzela.Conversation.{cart_total, PlacedOrder}
use nzela.Conversation.Invariant.{HasMenu}
use nzela.Conversation.Ordering.{
  StackFoodPorts, PlaceOrderPayload, line_of, nonzero, quote_session, payload_of, place_quote,
  placed_order, place_session,
}
use nzela.Conversation.Lines.{IsConsistent, IsPriceable, lines_priced, length-line_of}

not_zero : {A : Type 0} (xs : List A) → xs ≢ [] → (length xs == 0) ≡ false
not_zero [] h = absurd (h refl)
not_zero (x ∷ xs) h = ground arith

quote_session-shown :
    (s : Session) (zone : DeliveryZone) (menu : HasMenu s)
    → IsConsistent menu.menu
    → s.cart ≢ []
    → length s.cart ≤ max_cart_lines
    → All IsPriceable s.cart
    → (q : Quote) × (quote_session s zone ≡ some q)
      × (q.subtotal ≡ cart_total (whole 0) s.cart)
      × (q.order_amount ≡ (fee_breakdown (cart_total (whole 0) s.cart) zone none).total_fc)
unfolding quote_session price_order quote_of
quote_session-shown s zone menu same full short few =
    let (ls, priced) = lines_priced menu.menu s.cart (whole 0) same menu.lines few in
    let long : ltb max_cart_lines (length (map line_of s.cart)) ≡ false =
      rw (length-line_of s.cart) (ground arith) in
    let some_lines : (length (map line_of s.cart) == 0) ≡ false =
      rw (length-line_of s.cart) (not_zero s.cart full) in
    (
      quote_of (ls, cart_total (whole 0) s.cart) zone none,
      rw (quote_session, menu.menu_eq, price_order, some_lines, long, priced) refl,
      refl,
      refl,
    )

-- The parts of the port that the network answers for.
pub record IsAccepting {W : Type 0} (ports : StackFoodPorts W) : Type 0 where
  pub token : (w : W) (wa : String) → (t : String) × ((ports.token_for w wa).1 ≡ some t)
  pub order :
      (w : W) (p : PlaceOrderPayload) (tk t : String)
      → (id : ℕ) × ((ports.place_idempotent w p tk t).1 ≡ some id)

module _ {W : Type 0} (ports : StackFoodPorts W) (zone : DeliveryZone) where
  accepted :
      (w : W) (s : Session) (restaurant : ℕ) (q : Quote)
      → IsAccepting ports
      → (o : PlacedOrder) × ((place_quote ports zone w s restaurant q).1 ≡ some o)
        × (o.total_fc ≡ some q.order_amount)
  unfolding place_quote placed_order
  accepted w s restaurant q accepts =
      let (w1, tk) = ports.next_ref w in
      let (t, t_eq) = accepts.token w1 s.wa_id in
      let w2 = (ports.token_for w1 s.wa_id).0 in
      let (id, id_eq) = accepts.order w2 (payload_of ports zone s restaurant q tk) tk t in
      (placed_order ports zone s q tk id, rw (place_quote, t_eq, id_eq) refl, refl)

  opens :
      (w : W) (s : Session) (restaurant : ℕ) (q : Quote)
      → s.restaurant_id ≡ some restaurant
      → (restaurant == 0) ≡ false
      → (length s.cart == 0) ≡ false
      → quote_session s zone ≡ some q
      → place_session ports zone w s ≡ place_quote ports zone w s restaurant q
  unfolding place_session nonzero
  opens w s restaurant q chosen real full quoted = ground arith

  -- For a session with a restaurant (whose id is not 0) and a cart from its menu, in which an id has one
  -- price, and a cart that is not empty and has at most 50 lines, each of at most 50 of a dish whose
  -- price is finite and not negative: when StackFood gives a token and accepts the order, `place` answers
  -- with an order whose total is the subtotal that `renderCart` shows the customer, with the fees of
  -- the zone on it.
  pub place_session-total :
      (w : W) (s : Session) (menu : HasMenu s)
      → IsAccepting ports
      → 0 < menu.restaurant
      → IsConsistent menu.menu
      → s.cart ≢ []
      → length s.cart ≤ max_cart_lines
      → All IsPriceable s.cart
      → (o : PlacedOrder) × ((place_session ports zone w s).1 ≡ some o)
        × (o.total_fc ≡ some (fee_breakdown (cart_total (whole 0) s.cart) zone none).total_fc)
  place_session-total w s menu accepts positive same full short few =
      let (q, quoted, _, total) = quote_session-shown s zone menu same full short few in
      let (o, placed, charged) = accepted w s menu.restaurant q accepts in
      let real : (menu.restaurant == 0) ≡ false = ground arith in
      let some_lines : (length s.cart == 0) ≡ false = not_zero s.cart full in
      let opened : place_session ports zone w s ≡ place_quote ports zone w s menu.restaurant q =
        opens w s menu.restaurant q menu.restaurant_eq real some_lines quoted in
      (o, ap (λ r. r.1) opened ∙ placed, charged ∙ ap some total)
