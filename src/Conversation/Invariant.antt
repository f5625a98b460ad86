-- ===== src/Conversation/Invariant.antt =====
-- What a session holds in each phase, and that every message keeps it
-- (backend/gateway/src/conversation.ts).
use nzela.Base.{
  ℕ, ◌-◌, ◌<◌, ◌≡◌, ◌≢◌, ◌⊎◌, refl, inl, inr, sym, subst, ◌∙◌, Option, some, List, [], ◌∷◌, String,
  arith, get_elem?, All, truthy, ◌===◌, ===_iff, Bool-cases, Option-cases, ◌==◌,
}
use nzela.Dict.{lookup, lookup-insert, lookup-erase}
use nzela.Text.{parse_selection, Selection, in_range}
use nzela.Sessions.{
  Phase, idle, selecting_restaurant, browsing_menu, cart_review, awaiting_address, awaiting_payment,
  placed, Session, Sessions, RestaurantRow, MenuRow, CartItem, empty_session, session_of,
  save_session, reset_session,
}
use nzela.Conversation.{Reply, pick, add_item}
use nzela.Conversation.Handlers.{NextStep, asks_status, orders, canned}

-- A line of the cart is a row of the menu, with a positive quantity.
pub record IsLine (menu : List MenuRow) (c : CartItem) : Type 0 where
  pub at : ℕ
  pub row : MenuRow
  pub found : get_elem? menu at ≡ some row
  pub same_food : c.food_id ≡ row.food_id
  pub same_name : c.name ≡ row.name
  pub same_price : c.price ≡ row.price
  pub positive : 0 < c.quantity

-- A restaurant is chosen, and the cart is drawn from its menu.
pub record HasMenu (s : Session) : Type 0 where
  pub restaurant : ℕ
  pub menu : List MenuRow
  pub restaurant_eq : s.restaurant_id ≡ some restaurant
  pub menu_eq : s.menu_list ≡ some menu
  pub lines : All (IsLine menu) s.cart

-- A session with the same menu and cart.
pub HasMenu_same :
    (s t : Session)
    → t.restaurant_id ≡ s.restaurant_id
    → t.menu_list ≡ s.menu_list
    → t.cart ≡ s.cart
    → HasMenu s
    → HasMenu t
HasMenu_same s t e1 e2 e3 h = record {
  restaurant = h.restaurant;
  menu = h.menu;
  restaurant_eq = e1 ∙ h.restaurant_eq;
  menu_eq = e2 ∙ h.menu_eq;
  lines = subst (All (IsLine h.menu)) (sym e3) h.lines;
}

-- What `place` needs.
pub record IsReady (s : Session) : Type 0 where
  pub has_menu : HasMenu s
  pub not_empty : s.cart ≢ []
  pub address : String
  pub address_eq : truthy s.address_text ≡ some address

abbrev pub PhaseOk : Phase → Session → Type 0
PhaseOk idle s = s.cart ≡ []
PhaseOk selecting_restaurant s =
    (s.cart ≡ [])
    × ((r : RestaurantRow) × (rs : List RestaurantRow) × (s.restaurant_list ≡ some (r ∷ rs)))
PhaseOk browsing_menu s = HasMenu s
PhaseOk cart_review s = HasMenu s × (s.cart ≢ [])
PhaseOk awaiting_address s = HasMenu s × (s.cart ≢ [])
PhaseOk awaiting_payment s =
    IsReady s × ((tk : String) × (s.tk_ref ≡ some tk)) × ((id : ℕ) × (s.order_id ≡ some id))
PhaseOk placed s = ⊥

-- A session is stored under its customer's id and holds what its phase needs.
abbrev pub IsOk : String → Session → Type 0
IsOk wa s = (s.wa_id ≡ wa) × PhaseOk s.phase s

abbrev pub AllOk : Sessions → Type 0
AllOk m = (wa : String) (s : Session) → lookup wa m ≡ some s → IsOk wa s

empty_session-IsOk : (wa : String) → IsOk wa (empty_session wa)
unfolding empty_session
empty_session-IsOk wa = (refl, refl)

pub session_of-IsOk : (m : Sessions) (wa : String) → AllOk m → IsOk wa (session_of m wa)
unfolding session_of
session_of-IsOk m wa h = elim (Option-cases (lookup wa m)) [
  | inl e ↦ rw e (empty_session-IsOk wa)
  | inr (s, e) ↦ rw e (h wa s e)
]

pub save_session-AllOk :
    (m : Sessions) (s : Session) → AllOk m → PhaseOk s.phase s → AllOk (save_session m s)
unfolding save_session
save_session-AllOk m s h ok wa t e = elim (Bool-cases (s.wa_id === wa)) [
  | inl at ↦
      let same : ◌≡◌ {A = Option Session} (some s) (some t) =
        ground (arith, lookup-insert s.wa_id wa s m) in
      let same' : s ≡ t = cc in
      let key : s.wa_id ≡ wa = (===_iff s.wa_id wa).0 at in subst (IsOk wa) same' (key, ok)
  | inr other ↦ h wa t (ground (arith, lookup-insert s.wa_id wa s m))
]

pub reset_session-AllOk : (m : Sessions) (wa : String) → AllOk m → AllOk (reset_session m wa)
unfolding reset_session
reset_session-AllOk m wa h k s e = h k s (ground (arith, lookup-erase wa k m))

-- What is picked is in the list, with a positive quantity.
in_range-pos : (i q : ℕ) (sel : Selection) → in_range i q ≡ some sel → 0 < sel.qty
unfolding in_range
in_range-pos i q sel e = ground arith

parse_selection-pos : (t : String) (sel : Selection) → parse_selection t ≡ some sel → 0 < sel.qty
unfolding parse_selection
parse_selection-pos t sel e = grind (arith, in_range-pos)

pub pick-found :
    {A : Type 0} (t : String) (list : List A) (row : A) (qty : ℕ)
    → pick (parse_selection t) list ≡ some (row, qty)
    → ((i : ℕ) × (get_elem? list i ≡ some row)) × (0 < qty)
unfolding pick
pick-found t list row qty e = elim (Option-cases (parse_selection t)) [
  | inl none_eq ↦ let e' = rw none_eq at e in absurd cc
  | inr (sel, sel_eq) ↦
      let pos = parse_selection-pos t sel sel_eq in
      let e' = rw sel_eq at e in ((sel.index - 1, ground arith), ground arith)
]

pub cons-not_nil : {A : Type 0} (x : A) (xs : List A) → ◌≢◌ {A = List A} (x ∷ xs) []
cons-not_nil x xs h = cc

pub add_item-lines :
    (menu : List MenuRow) (i : ℕ) (item : MenuRow) (qty : ℕ) (cart : List CartItem)
    → get_elem? menu i ≡ some item
    → 0 < qty
    → All (IsLine menu) cart
    → All (IsLine menu) (add_item item qty cart) × (add_item item qty cart ≢ [])
unfolding add_item
add_item-lines menu i item qty [] e pos h = (
  (
    record {
      at = i;
      row = item;
      found = e;
      same_food = refl;
      same_name = refl;
      same_price = refl;
      positive = pos;
    },
    tt,
  ),
  cons-not_nil _ [],
)
add_item-lines menu i item qty (c ∷ cart) e pos (h, hs) =
    elim (Bool-cases (c.food_id == item.food_id)) [
      | inl same ↦ rw same (
          (
            (
              record {
                at = h.at;
                row = h.row;
                found = h.found;
                same_food = h.same_food;
                same_name = h.same_name;
                same_price = h.same_price;
                positive = omega (arith, h.positive);
              },
              hs,
            ),
            cons-not_nil _ cart,
          ))
      | inr other ↦ rw other (
        (h, (add_item-lines menu i item qty cart e pos hs).0),
        cons-not_nil c (add_item item qty cart),
      )
    ]

-- To split on what `on_idle` does.
pub NextStep-cases :
    (n : NextStep) → (n ≡ asks_status) ⊎ (n ≡ orders) ⊎ ((r : Reply) × (n ≡ canned r))
NextStep-cases asks_status = inl refl
NextStep-cases orders = inr (inl refl)
NextStep-cases (canned r) = inr (inr (r, refl))
