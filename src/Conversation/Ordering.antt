-- ===== src/Conversation/Ordering.antt =====
-- The order port over StackFood (backend/gateway/src/conversation-stackfood.ts). The sequence of the
-- references, the customer's token and the adapter are parameters over a state `W`; what a payload
-- carries beside these fields is constant, or is the reference again (`order_note`).
use nzela.Base.{
  ℕ, Option, none, some, List, [], ◌∷◌, String, if◌then◌else◌, or_else, map, ◌==◌, length,
}
use nzela.Base.Result.{ok, err}
use nzela.Num.{Num, whole}
use nzela.Landmark.{DeliveryZone}
use nzela.Pricing.{PriceBook, QuoteLine, CartLine, Quote, price_order}
use nzela.Sessions.{Session, MenuRow, CartItem}
use nzela.Conversation.{PlacedOrder}

pub record PlaceOrderPayload : Type 0 where
  pub cart : List CartLine
  pub order_amount : Num
  pub restaurant_id : ℕ
  pub address : String
  pub contact_person_number : String
  pub order_note : String

-- `next_sequence` is `formatTkRef(cfg.nextSequence())`; `note` is the text `NZELA ${tkRef}`;
-- `token_for` and `place_idempotent` give `none` where they throw, and an order's id otherwise.
pub record StackFoodPorts (W : Type 0) : Type 0 where
  pub next_ref : W → W × String
  pub note : String → String
  pub token_for : W → String → W × Option String
  pub place_idempotent : W → PlaceOrderPayload → String → String → W × Option ℕ
  pub recap : Session → Quote → String → ℕ → String

-- `new Map(menuList.map((m) => [m.food_id, m.price]))`: of two rows with one id the last counts.
unfoldable pub menu_price : List MenuRow → ℕ → Option Num
menu_price [] id = none
menu_price (m ∷ menu) id =
    let rest = menu_price menu id in
    elim rest [ some p ↦ some p | none ↦ if m.food_id == id then some m.price else none ]

unfoldable pub book_of : Option (List MenuRow) → PriceBook
unfolding menu_price
book_of menu = record { product = menu_price (or_else menu []); add_on = λ _. none }

unfoldable pub line_of : CartItem → QuoteLine
line_of c = record {
  food_id = c.food_id;
  quantity = whole c.quantity;
  variant = none;
  add_ons = none;
  add_on_qtys = none;
  item_campaign_id = none;
}

-- A number under `!`: 0 counts as missing.
unfoldable pub nonzero : Option ℕ → Option ℕ
nonzero none = none
nonzero (some n) = if n == 0 then none else some n

-- `priceOrder` on the session's cart, with the prices of its menu.
unfoldable pub quote_session : Session → DeliveryZone → Option Quote
unfolding price_order book_of line_of
quote_session s zone = elim (price_order (map line_of s.cart) (book_of s.menu_list) zone none) [
  | ok quote ↦ some quote
  | err e ↦ none
]

module _ {W : Type 0} (ports : StackFoodPorts W) (zone : DeliveryZone) where
  unfoldable pub payload_of : Session → ℕ → Quote → String → PlaceOrderPayload
  payload_of s restaurant quote tk = record {
    cart = quote.lines;
    order_amount = quote.order_amount;
    restaurant_id = restaurant;
    address = or_else s.address_text "";
    contact_person_number = s.wa_id;
    order_note = ports.note tk;
  }

  unfoldable pub placed_order : Session → Quote → String → ℕ → PlacedOrder
  placed_order s quote tk id = record {
    tk_ref = tk;
    order_id = id;
    recap = ports.recap s quote tk id;
    total_fc = some quote.order_amount;
  }

  -- The rest of `place`, after the price: the reference, the token and the adapter.
  unfoldable pub place_quote : W → Session → ℕ → Quote → W × Option PlacedOrder
  unfolding payload_of placed_order
  place_quote w s restaurant quote =
      let (w1, tk) = ports.next_ref w in
      let (w2, token) = ports.token_for w1 s.wa_id in
      elim token [
        | none ↦ (w2, none)
        | some t ↦
            let (w3, id) = ports.place_idempotent w2 (payload_of s restaurant quote tk) tk t in
            elim id [ none ↦ (w3, none) | some n ↦ (w3, some (placed_order s quote tk n)) ]
      ]

  -- `place`.
  unfoldable pub place_session : W → Session → W × Option PlacedOrder
  unfolding place_quote nonzero quote_session
  place_session w s = elim (nonzero s.restaurant_id) [
    | none ↦ (w, none)
    | some restaurant ↦ if length s.cart == 0 then (w, none) else elim (quote_session s zone) [
      | none ↦ (w, none)
      | some quote ↦ place_quote w s restaurant quote
    ]
  ]
