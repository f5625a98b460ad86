-- ===== src/Conversation.antt =====
-- The conversation engine's messages and ports (backend/gateway/src/conversation.ts). A reply is
-- what it shows; its fixed French text is left out.
pub mod Handlers
pub mod Invariant
pub mod Saved
pub mod Sound
pub mod Words
pub mod Progress
pub mod Ordering
pub mod Lines
pub mod Totals
pub mod Diagram
pub mod Moves
use nzela.Base.{
  ℕ, zero, suc, ◌+◌, ◌-◌, Bool, true, false, ◌||◌, ◌&&◌, Option, none, some, List, [], ◌∷◌, ◌++◌,
  String, if◌then◌else◌, ltb, ◌==◌, length, get_elem?, take,
}
use nzela.Num.{Num, whole, ◌+ₙ◌}
use nzela.Pricing.{times}
use nzela.Ledger.{Events}
use nzela.Text.{Selection, finds_word}
use nzela.Sessions.{Sessions, Session, CartItem, MenuRow, RestaurantRow}

pub record RestaurantOption : Type 0 where
  pub id : ℕ
  pub name : String
  pub eta_min : Option ℕ

pub record PlacedOrder : Type 0 where
  pub tk_ref : String
  pub order_id : ℕ
  pub recap : String
  pub total_fc : Option Num

-- The catalog and order ports, over what they keep; `none` is a rejected promise. A `MenuChoice` has
-- the fields of a menu row.
pub record Ports (P : Type 0) : Type 0 where
  pub restaurants : P → String → P × Option (List RestaurantOption)
  pub menu : P → ℕ → P × Option (List MenuRow)
  pub place : P → Session → P × Option PlacedOrder
  pub status : P → String → P × Option (Option String)

pub record Inbound : Type 0 where
  pub text : Option String
  pub button_id : Option String
  pub is_voice_note : Bool

-- The engine's dependencies; `checkouts` has the customers of the `InitiateCheckout` events, when
-- analytics are on.
pub record Engine (P : Type 0) : Type 0 where
  pub sessions : Sessions
  pub ledger : Events
  pub checkouts : Option (List String)
  pub ports : P

-- The subtotal that `renderCart` shows.
unfoldable pub cart_total : Num → List CartItem → Num
unfolding times
cart_total s [] = s
cart_total s (c ∷ cart) = cart_total (s +ₙ times c.quantity c.price) cart

pub data Reply : Type 0 where
  reset_done greeting firewall no_restaurants pick_restaurant pick_dish empty_cart : Reply
  nothing_to_pay ask_address longer_address placement_failed no_order : Reply
  restaurants_shown : List RestaurantOption → Reply
  no_dish : String → Reply
  menu_shown : String → List MenuRow → Reply
  cart_shown : List CartItem → Num → Reply
  -- quantity, dish and cart
  added : ℕ → String → Reply → Reply
  recap status : String → Reply
  in_progress : Option String → Reply

-- `renderRestaurants`, `renderMenu` and `renderCart`
unfoldable pub render_restaurants : List RestaurantOption → Reply
render_restaurants list = restaurants_shown (take 8 list)

unfoldable pub render_menu : String → List MenuRow → Reply
render_menu name list = menu_shown name (take 12 list)

unfoldable pub render_cart : List CartItem → Reply
unfolding cart_total
render_cart [] = empty_cart
render_cart (c ∷ cart) = cart_shown (c ∷ cart) (cart_total (whole 0) (c ∷ cart))

abbrev pub reset_words : List String
reset_words = "annuler" ∷ "reset" ∷ "recommencer" ∷ "stop" ∷ []

abbrev pub pay_words : List String
pay_words = "payer" ∷ "checkout" ∷ "commander" ∷ "valider" ∷ "payé" ∷ []

abbrev pub status_words : List String
status_words = "statut" ∷ "status" ∷ "où" ∷ "wapi" ∷ []

abbrev greeting_words : List String
greeting_words = "mbote" ∷ "bonjour" ∷ "salut" ∷ "hello" ∷ "hi" ∷ []

-- `/(mbote|bonjour|salut|hello|hi)\b/.test(s)`
unfoldable pub greets : String → Bool
unfolding finds_word
greets s = finds_word greeting_words s

-- The row that a selection names, with the quantity; `none` also past the end of the list.
unfoldable pub pick : {A : Type 0} → Option Selection → List A → Option (A × ℕ)
pick none list = none
pick (some sel) list =
    if ltb (length list) sel.index
    then none
    else elim (get_elem? list (sel.index - 1)) [ none ↦ none | some row ↦ some (row, sel.qty) ]

-- The cart with `qty` more of the dish.
unfoldable pub add_item : MenuRow → ℕ → List CartItem → List CartItem
add_item item qty [] =
    record { food_id = item.food_id; name = item.name; price = item.price; quantity = qty } ∷ []
add_item item qty (c ∷ cart) =
    if c.food_id == item.food_id
    then record c { quantity = c.quantity + qty } ∷ cart
    else c ∷ add_item item qty cart
