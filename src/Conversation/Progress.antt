-- ===== src/Conversation/Progress.antt =====
-- A customer can always order: the messages that lead to a placed order
-- (backend/gateway/src/conversation.ts).
use nzela.Base.{
  ℕ, map, ◌≡◌, refl, sym, subst, false, none, some, List, [], ◌∷◌, String, any, truthy, ◌===◌, ltb,
}
use nzela.Ledger.{Events}
use nzela.Text.{trim, mentions, utf16_length, includes, starts_with}
use nzela.Router.{route, route_text, button_action, in_address_phase, RouterPhase}
use nzela.Sessions.{
  Phase, idle, selecting_restaurant, browsing_menu, cart_review, awaiting_address, awaiting_payment,
  Session, Sessions, MenuRow, RestaurantRow, CartItem, empty_session, session_of, save_session,
  reset_session,
}
use nzela.Conversation.{Ports, Engine, RestaurantOption, PlacedOrder, add_item, reset_words}
use nzela.Conversation.Handlers.{
  start_restaurants, on_select_restaurant, place, start_checkout, on_menu_or_cart, on_address,
  on_idle, dispatch, handle, routed, next_step, orders,
}
use nzela.Conversation.Invariant.{AllOk, PhaseOk, session_of-IsOk}
use nzela.Conversation.Sound.{Keeps, handle-IsSound}
use nzela.Conversation.Words.{
  typed, handle_all, LowersWords, IsFirstDish, IsServing, trim-words, not_resets, pick_first,
  pay_says, session_of-save, session_of-reset,
}

module _ {P : Type 0} (ports : Ports P) (to_lower : String → String) (lowers : LowersWords to_lower)
    {Known : ℕ → Type 0} {OnSale : ℕ → List MenuRow → Type 0}
    (serving : IsServing ports Known OnSale) (wa : String) where
  -- What holds of the customer's session, in a phase that is known and without an address.
  abbrev At : Engine P → Phase → (Session → Type 0) → Type 0
  At e phase Holds =
      ((session_of e.sessions wa).phase ≡ phase)
      × ((session_of e.sessions wa).address_text ≡ none)
      × Holds (session_of e.sessions wa)

  saved :
      (Holds : Session → Type 0) (m : Sessions) (s : Session)
      → s.wa_id ≡ wa
      → Holds s
      → Holds (session_of (save_session m s) wa)
  saved Holds m s id h = subst Holds (sym (session_of-save m wa s id)) h

  -- A list of restaurants of which the first is known.
  abbrev Listed : Session → Type 0
  Listed s =
      (r : RestaurantRow) × (rs : List RestaurantRow) × (s.restaurant_list ≡ some (r ∷ rs))
      × Known r.id

  -- A menu on sale, and the cart.
  abbrev Offered : (MenuRow → List CartItem) → Session → Type 0
  Offered cart s =
      (id : ℕ) × (m : MenuRow) × (ms : List MenuRow) × OnSale id (m ∷ ms)
      × (s.restaurant_id ≡ some id)
      × (s.menu_list ≡ some (m ∷ ms))
      × (s.cart ≡ cart m)

  abbrev one_of : MenuRow → List CartItem
  one_of m = record { food_id = m.food_id; name = m.name; price = m.price; quantity = 1 } ∷ []

  -- A message that is not a reset word is handled in the session's phase.
  handle-dispatch :
      (e : Engine P) (t : String) (phase : Phase)
      → trim t ≡ t
      → to_lower t ≡ t
      → any (λ w. t === w) reset_words ≡ false
      → (session_of e.sessions wa).phase ≡ phase
      → handle ports to_lower e wa (typed t)
        ≡ dispatch ports to_lower phase e (session_of e.sessions wa) (typed t) t
  unfolding handle typed
  handle-dispatch e t phase trimmed low word at = rw (handle, trimmed, low, word, at) refl

  handle-reset :
      (e : Engine P)
      → (handle ports to_lower e wa (typed "annuler")).0.sessions ≡ reset_session e.sessions wa
  unfolding handle typed ◌===◌
  handle-reset e = rw (handle, trim-words.0, lowers.annuler) refl

  reset-At :
      (e : Engine P) → At (handle ports to_lower e wa (typed "annuler")).0 idle (λ s. Unit {0})
  unfolding empty_session
  reset-At e = rw (handle-reset e) (
      subst (λ (s : Session). (s.phase ≡ idle) × (s.address_text ≡ none) × Unit {0})
        (sym (session_of-reset e.sessions wa)) (refl, refl, tt))

  asks_for_food :
      (ledger : Events)
      → next_step (route to_lower ledger (routed (typed "nakolia")) RouterPhase.idle).1 "nakolia"
        ≡ orders
  unfolding next_step route route_text routed typed button_action truthy in_address_phase mentions
      includes starts_with ◌===◌
  asks_for_food ledger = rw (route, trim-words.1, route_text, lowers.nakolia) refl

  nakolia-At :
      (e : Engine P)
      → (session_of e.sessions wa).wa_id ≡ wa
      → At e idle (λ s. Unit {0})
      → At (handle ports to_lower e wa (typed "nakolia")).0 selecting_restaurant Listed
  unfolding dispatch on_idle start_restaurants
  nakolia-At e id (at, away, _) =
      let s = session_of e.sessions wa in
      let (r, rs, eq, known) = serving.restaurants e.ports s.wa_id in
      rw
        (
          handle-dispatch e "nakolia" idle trim-words.1 lowers.nakolia not_resets.0 at,
          lowers.nakolia,
          on_idle,
          asks_for_food e.ledger,
          start_restaurants,
          eq,
        )
        (saved (λ t. (t.phase ≡ selecting_restaurant) × (t.address_text ≡ none) × Listed t)
          e.sessions
          (record s {
            phase = selecting_restaurant;
            restaurant_list =
                some (map (λ (r : RestaurantOption). record { id = r.id; name = r.name }) (r ∷ rs));
          })
          id (refl, away, (_, _, refl, known)))

  choose-At :
      (e : Engine P)
      → AllOk e.sessions
      → At e selecting_restaurant Listed
      → At (handle ports to_lower e wa (typed "1")).0 browsing_menu (Offered (λ m. []))
  unfolding dispatch on_select_restaurant
  choose-At e ok (at, away, (r, rs, listed, known)) =
      let s = session_of e.sessions wa in
      let (id, fine) = session_of-IsOk e.sessions wa ok in
      let (none_yet, _) = subst (λ p. PhaseOk p s) at fine in
      let (m, ms, eq, sold) = serving.menu e.ports r.id known in
      rw
        (
          handle-dispatch e "1" selecting_restaurant trim-words.2 lowers.one not_resets.1 at,
          lowers.one,
          on_select_restaurant,
          listed,
          pick_first r rs,
          eq,
        )
        (saved (λ t. (t.phase ≡ browsing_menu) × (t.address_text ≡ none) × Offered (λ m. []) t)
          e.sessions
          (record s {
            restaurant_id = some r.id;
            restaurant_name = some r.name;
            menu_list = some (m ∷ ms);
            phase = browsing_menu;
          })
          id (refl, away, (r.id, m, ms, sold, refl, refl, none_yet)))

  -- The first dish of the menu is added.
  add-At :
      (e : Engine P)
      → AllOk e.sessions
      → At e browsing_menu (Offered (λ m. []))
      → At (handle ports to_lower e wa (typed "1")).0 cart_review (Offered one_of)
  unfolding dispatch on_menu_or_cart add_item
  add-At e ok (at, away, (r, m, ms, sold, chosen, menu, empty)) =
      let s = session_of e.sessions wa in
      let (id, fine) = session_of-IsOk e.sessions wa ok in
      let added : add_item m 1 s.cart ≡ one_of m = rw empty refl in
      rw
        (
          handle-dispatch e "1" browsing_menu trim-words.2 lowers.one not_resets.1 at,
          lowers.one,
          on_menu_or_cart,
          pay_says.3,
          pay_says.2,
          pay_says.0,
          menu,
          pick_first m ms,
        )
        (saved (λ t. (t.phase ≡ cart_review) × (t.address_text ≡ none) × Offered one_of t)
          e.sessions (record s { cart = add_item m 1 s.cart; phase = cart_review }) id
          (refl, away, (r, m, ms, sold, chosen, menu, added)))

  pay-At :
      (e : Engine P)
      → AllOk e.sessions
      → At e cart_review (Offered one_of)
      → At (handle ports to_lower e wa (typed "payer")).0 awaiting_address (Offered one_of)
  unfolding dispatch on_menu_or_cart start_checkout truthy
  pay-At e ok (at, away, (r, m, ms, sold, chosen, menu, one)) =
      let s = session_of e.sessions wa in
      let (id, fine) = session_of-IsOk e.sessions wa ok in
      rw
        (
          handle-dispatch e "payer" cart_review trim-words.3 lowers.payer not_resets.2 at,
          lowers.payer,
          on_menu_or_cart,
          pay_says.5,
          pay_says.4,
          start_checkout,
          one,
          away,
        )
        (saved (λ t. (t.phase ≡ awaiting_address) × (t.address_text ≡ none) × Offered one_of t)
          e.sessions (record s { phase = awaiting_address }) id
          (refl, away, (r, m, ms, sold, chosen, menu, one)))

  -- The port has placed an order of one first dish from a menu on sale, to the address, and the session
  -- that is left awaits its payment, with the order's reference and id.
  abbrev pub IsPlaced : String → Engine P → Type 0
  IsPlaced address e =
      (p : P) × (s : Session) × (id : ℕ) × (m : MenuRow) × (ms : List MenuRow) × (o : PlacedOrder)
      × OnSale id (m ∷ ms)
      × (first : IsFirstDish s id m ms) × (first.address ≡ address)
      × ((ports.place p s).1 ≡ some o)
      × (e.ports ≡ (ports.place p s).0)
      × ((session_of e.sessions wa).phase ≡ awaiting_payment)
      × ((session_of e.sessions wa).tk_ref ≡ some o.tk_ref)
      × ((session_of e.sessions wa).order_id ≡ some o.order_id)

  address-At :
      (e : Engine P) (text : String)
      → trim text ≡ text
      → any (λ w. to_lower text === w) reset_words ≡ false
      → ltb (utf16_length text) 6 ≡ false
      → AllOk e.sessions
      → At e awaiting_address (Offered one_of)
      → IsPlaced text (handle ports to_lower e wa (typed text)).0
  unfolding handle typed dispatch on_address place
  address-At e text trimmed word long ok (at, _, (r, m, ms, sold, chosen, menu, one)) =
      let s = session_of e.sessions wa in
      let (id, fine) = session_of-IsOk e.sessions wa ok in
      let s' = record s { phase = awaiting_address; address_text = some text } in
      let first : IsFirstDish s' r m ms = record {
        restaurant = chosen;
        menu = menu;
        cart = one;
        address = text;
        address_eq = refl;
      } in
      let (o, eq) = serving.place e.ports s' r m ms sold first in
      let paid = record s' {
        phase = awaiting_payment;
        tk_ref = some o.tk_ref;
        order_id = some o.order_id;
      } in
      let (at', ref, number) =
        saved
          (λ t.
            (t.phase ≡ awaiting_payment)
            × (t.tk_ref ≡ some o.tk_ref)
            × (t.order_id ≡ some o.order_id))
          (save_session e.sessions s') paid id (refl, refl, refl) in
      rw (handle, trimmed, word, at, dispatch, on_address, long, place, eq)
        (e.ports, s', r, m, ms, o, sold, first, refl, eq, refl, at', ref, number)

  sound :
      (e : Engine P) (t : String)
      → AllOk e.sessions
      → AllOk (handle ports to_lower e wa (typed t)).0.sessions
  sound e t ok = (handle-IsSound ports (λ p. Unit) anything to_lower e wa (typed t) (ok, tt)).0
    where
      anything : Keeps ports (λ p. Unit)
      anything = record {
        restaurants = λ p w q. tt;
        menu = λ p i q. tt;
        status = λ p w q. tt;
        place = λ p s r q. tt;
      }

  -- From any sessions that are well formed, whatever phase the customer is in, six messages make the
  -- port place an order of one first dish to the address typed, and the session then awaits its
  -- payment with the order's reference and id: `annuler`, `nakolia`, `1`, `1`, `payer`, and any address
  -- of six characters or more that is trimmed and is no reset word. This needs an open restaurant
  -- among those known, of which each has a menu on sale with a dish, a port that accepts such an
  -- order of one dish, and `toLowerCase` to leave the four words as they are.
  pub handle_all-reaches :
      (e : Engine P) (address : String)
      → AllOk e.sessions
      → trim address ≡ address
      → any (λ w. to_lower address === w) reset_words ≡ false
      → ltb (utf16_length address) 6 ≡ false
      → IsPlaced address (
          handle_all ports to_lower e wa
            ("annuler" ∷ "nakolia" ∷ "1" ∷ "1" ∷ "payer" ∷ address ∷ []))
  unfolding handle_all
  handle_all-reaches e address ok trimmed word long =
      let after = λ (d : Engine P) (t : String). (handle ports to_lower d wa (typed t)).0 in
      let e1 = after e "annuler" in
      let e2 = after e1 "nakolia" in
      let e3 = after e2 "1" in
      let e4 = after e3 "1" in
      let e5 = after e4 "payer" in
      let ok1 = sound e "annuler" ok in
      let ok2 = sound e1 "nakolia" ok1 in
      let ok3 = sound e2 "1" ok2 in
      let ok4 = sound e3 "1" ok3 in
      let ok5 = sound e4 "payer" ok4 in
      let at2 = nakolia-At e1 (session_of-IsOk e1.sessions wa ok1).0 (reset-At e) in
      let at3 = choose-At e2 ok2 at2 in
      let at4 = add-At e3 ok3 at3 in
      let at5 = pay-At e4 ok4 at4 in address-At e5 address trimmed word long ok5 at5
