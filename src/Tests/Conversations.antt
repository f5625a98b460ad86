-- ===== src/Tests/Conversations.antt =====
-- The conversation, the router and the order port at concrete inputs (backend/gateway/src).
use nzela.Base.{
  subst, sym, ◌∙◌, ap, ◌<◌, ℕ, zero, suc, ◌+◌, ◌≤◌, ◌≡◌, ◌≢◌, refl, false, none, some, List, [],
  ◌∷◌, String, arith, All, any, length, ◌===◌, ltb,
}
use nzela.Num.{whole, is_finite, ◌<ₙ◌}
use nzela.Dict.{lookup, insert}
use nzela.Landmark.{zone1}
use nzela.Pricing.{fee_breakdown, max_cart_lines, require_menu_price}
use nzela.Text.{trim, trim_start, trim_end, is_space, utf16_length}
use nzela.Router.{InboundMessage}
use nzela.Sessions.{awaiting_address, Session, MenuRow, CartItem, session_of, save_session}
use nzela.Conversation.{Ports, Engine, PlacedOrder, cart_total, reset_words}
use nzela.Conversation.Handlers.{handle}
use nzela.Conversation.Invariant.{IsLine, HasMenu, IsReady, AllOk, save_session-AllOk}
use nzela.Conversation.Sound.{Keeps, IsSound, handle-IsSound}
use nzela.Conversation.Diagram.{Moved}
use nzela.Conversation.Moves.{handle-Moved}
use nzela.Conversation.Words.{typed, handle_all, LowersWords, IsFirstDish, IsServing}
use nzela.Conversation.Progress.{IsPlaced, handle_all-reaches}
use nzela.Conversation.Ordering.{StackFoodPorts, place_session}
use nzela.Conversation.Lines.{IsConsistent, IsPriceable}
use nzela.Conversation.Totals.{IsAccepting, place_session-total}

abbrev dish : MenuRow
dish = record { food_id = 4; name = "Poulet mayo"; price = whole 9_000 }

abbrev two_dishes : CartItem
two_dishes = record { food_id = 4; name = "Poulet mayo"; price = whole 9_000; quantity = 2 }

-- A customer who is asked for an address.
abbrev asked : Session
asked = record {
  wa_id = "243";
  phase = awaiting_address;
  restaurant_id = some 7;
  restaurant_name = some "Chez Ntemba";
  restaurant_list = none;
  menu_list = some (dish ∷ []);
  cart = two_dishes ∷ [];
  address_text = none;
  tk_ref = none;
  order_id = none;
}

abbrev asked_line : IsLine (dish ∷ []) two_dishes
asked_line = record {
  at = 0;
  row = dish;
  found = refl;
  same_food = refl;
  same_name = refl;
  same_price = refl;
  positive = omega arith;
}

abbrev asked_menu : HasMenu asked
asked_menu = record {
  restaurant = 7;
  menu = dish ∷ [];
  restaurant_eq = refl;
  menu_eq = refl;
  lines = (asked_line, tt);
}

not_empty : asked.cart ≢ []
not_empty h = cc

-- Ports that keep the sessions of the orders.
abbrev shop : Ports (List Session)
shop = record {
  restaurants = λ p wa. (p, some (record { id = 7; name = "Chez Ntemba"; eta_min = some 30 } ∷ []));
  menu = λ p id. (p, some (dish ∷ []));
  place = λ p s.
      (s ∷ p, some (record { tk_ref = "TK-10"; order_id = 1; recap = "merci"; total_fc = none }));
  status = λ p wa. (p, some none);
}

abbrev one_customer : Engine (List Session)
one_customer = record {
  sessions = save_session [] asked;
  ledger = [];
  checkouts = some [];
  ports = [];
}

abbrev same_text : String → String
same_text s = s

no_sessions : AllOk []
unfolding lookup
no_sessions wa s h = cc

one_customer-AllOk : AllOk one_customer.sessions
one_customer-AllOk = save_session-AllOk [] asked no_sessions (asked_menu, not_empty)

abbrev shop_keeps : Keeps shop (All IsReady)
shop_keeps = record {
  restaurants = λ p wa q. q;
  menu = λ p id q. q;
  status = λ p wa q. q;
  place = λ p s ready q. (ready, q);
}

handle-IsSound_example :
    IsSound (All IsReady) (handle shop same_text one_customer "243" (typed "Bandal, 2e avenue")).0
handle-IsSound_example =
    handle-IsSound shop (All IsReady) shop_keeps same_text one_customer "243"
      (typed "Bandal, 2e avenue") (one_customer-AllOk, tt)

asked_session : (session_of one_customer.sessions "243").wa_id ≡ "243"
unfolding session_of save_session lookup insert ◌===◌
asked_session = refl

handle-Moved_example :
    Moved "243"
      (session_of one_customer.sessions "243")
      one_customer.sessions
      (handle shop same_text one_customer "243" (typed "Bandal, 2e avenue")).0.sessions
handle-Moved_example =
    handle-Moved shop same_text one_customer "243" (typed "Bandal, 2e avenue") asked_session

same_text-LowersWords : LowersWords same_text
same_text-LowersWords = record { annuler = refl; nakolia = refl; one = refl; payer = refl }

address_fits :
    (trim "Bandal, 2e avenue" ≡ "Bandal, 2e avenue")
    × (any (λ w. "Bandal, 2e avenue" === w) reset_words ≡ false)
    × (ltb (utf16_length "Bandal, 2e avenue") 6 ≡ false)
unfolding trim trim_start trim_end is_space utf16_length ◌===◌
address_fits = (refl, refl, refl)

-- The two dishes at their price on the menu.
cart_fits : (length asked.cart ≤ max_cart_lines) × All IsPriceable asked.cart
unfolding require_menu_price is_finite ◌<ₙ◌
cart_fits = (omega arith, ((omega arith, refl), tt))

one_dish-IsConsistent : IsConsistent (dish ∷ [])
one_dish-IsConsistent zero zero m n e f id = cc
one_dish-IsConsistent zero (suc j) m n e f id = cc
one_dish-IsConsistent (suc i) j m n e f id = cc

abbrev stackfood : StackFoodPorts ℕ
stackfood = record {
  next_ref = λ w. (w + 1, "TK-10");
  note = λ tk. "NZELA TK-10";
  token_for = λ w wa. (w, some "token");
  place_idempotent = λ w p tk t. (w, some 501);
  recap = λ s q tk id. "recap";
}

stackfood-IsAccepting : IsAccepting stackfood
stackfood-IsAccepting = record { token = λ w wa. (_, refl); order = λ w p tk t. (_, refl) }

place_session-total_example :
    (o : PlacedOrder) × ((place_session stackfood zone1 9 asked).1 ≡ some o)
    × (o.total_fc ≡ some (fee_breakdown (cart_total (whole 0) asked.cart) zone1 none).total_fc)
place_session-total_example =
    place_session-total stackfood zone1 9 asked asked_menu stackfood-IsAccepting (omega arith)
      one_dish-IsConsistent not_empty cart_fits.0 cart_fits.1

-- The same shop, whose orders are placed over StackFood.
abbrev city : Ports ℕ
city = record {
  restaurants = λ p wa. (p, some (record { id = 7; name = "Chez Ntemba"; eta_min = some 30 } ∷ []));
  menu = λ p id. (p, some (dish ∷ []));
  place = λ p s. place_session stackfood zone1 p s;
  status = λ p wa. (p, some none);
}

abbrev one_dish : CartItem
one_dish = record { food_id = 4; name = "Poulet mayo"; price = whole 9_000; quantity = 1 }

one_dish-IsLine : IsLine (dish ∷ []) one_dish
one_dish-IsLine = record {
  at = 0;
  row = dish;
  found = refl;
  same_food = refl;
  same_name = refl;
  same_price = refl;
  positive = omega arith;
}

one_dish_fits : (length (one_dish ∷ []) ≤ max_cart_lines) × All IsPriceable (one_dish ∷ [])
unfolding require_menu_price is_finite ◌<ₙ◌
one_dish_fits = (omega arith, ((omega arith, refl), tt))

abbrev HasNumber : ℕ → Type 0
HasNumber id = 0 < id

abbrev IsDish : ℕ → List MenuRow → Type 0
IsDish id menu = (0 < id) × (menu ≡ dish ∷ [])

one_dish_placed :
    (w : ℕ) (s : Session) (id : ℕ)
    → 0 < id
    → s.restaurant_id ≡ some id
    → s.menu_list ≡ some (dish ∷ [])
    → s.cart ≡ one_dish ∷ []
    → (o : PlacedOrder) × ((place_session stackfood zone1 w s).1 ≡ some o)
one_dish_placed w s id positive chosen menu cart =
    let has : HasMenu s = record {
      restaurant = id;
      menu = dish ∷ [];
      restaurant_eq = chosen;
      menu_eq = menu;
      lines = subst (All (IsLine (dish ∷ []))) (sym cart) (one_dish-IsLine, tt);
    } in
    let (o, placed, _) =
      place_session-total stackfood zone1 w s has stackfood-IsAccepting positive
        one_dish-IsConsistent (subst (λ c. c ≢ []) (sym cart) (λ h. cc))
        (subst (λ c. length c ≤ max_cart_lines) (sym cart) one_dish_fits.0)
        (subst (All IsPriceable) (sym cart) one_dish_fits.1) in
    (o, placed)

city-IsServing : IsServing city HasNumber IsDish
city-IsServing = record {
  restaurants = λ p wa. (_, _, refl, omega arith);
  menu = λ p id known. (_, _, refl, (known, refl));
  place = λ p s id m ms sold first. placed p s id m ms sold first;
}
  where
    placed :
        (p : ℕ) (s : Session) (id : ℕ) (m : MenuRow) (ms : List MenuRow)
        → IsDish id (m ∷ ms)
        → IsFirstDish s id m ms
        → (o : PlacedOrder) × ((city.place p s).1 ≡ some o)
    placed p s id m ms (positive, only) first =
        let same : m ≡ dish = cc in
        one_dish_placed p s id positive first.restaurant (first.menu ∙ ap some only) (
          first.cart
          ∙ ap
              (λ (d : MenuRow).
                record { food_id = d.food_id; name = d.name; price = d.price; quantity = 1 } ∷ [])
              same)

abbrev in_city : Engine ℕ
in_city = record { sessions = save_session [] asked; ledger = []; checkouts = some []; ports = 9 }

handle_all-reaches_example :
    IsPlaced city same_text same_text-LowersWords city-IsServing "243" "Bandal, 2e avenue" (
      handle_all city same_text in_city "243"
        ("annuler" ∷ "nakolia" ∷ "1" ∷ "1" ∷ "payer" ∷ "Bandal, 2e avenue" ∷ []))
handle_all-reaches_example =
    handle_all-reaches city same_text same_text-LowersWords city-IsServing "243" in_city
      "Bandal, 2e avenue" one_customer-AllOk address_fits.0 address_fits.1 address_fits.2

-- A text that names a dish.
abbrev hungry : InboundMessage
hungry = record {
  button_id = none;
  text = some " Poulet mayo ";
  is_voice_note = false;
  tk_ref = none;
}
