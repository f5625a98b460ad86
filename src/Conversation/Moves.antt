-- ===== src/Conversation/Moves.antt =====
-- The phases as a state machine, and whose session a message touches
-- (backend/gateway/src/conversation.ts).
use nzela.Base.{
  ◌≡◌, refl, inl, inr, ◌∙◌, none, some, [], ◌∷◌, String, or_else, any, truthy, ◌===◌, Bool-cases,
  Option-cases, ltb, List-cases,
}
use nzela.Text.{trim, mentions, utf16_length, parse_selection}
use nzela.Router.{route, RouterPhase}
use nzela.Sessions.{
  Phase, idle, selecting_restaurant, browsing_menu, cart_review, awaiting_address, awaiting_payment,
  placed, Session, Sessions, empty_session, session_of,
}
use nzela.Conversation.{Ports, Inbound, Engine, pick, pay_words, status_words, reset_words}
use nzela.Conversation.Handlers.{
  Handled, show_status, start_restaurants, on_select_restaurant, place, start_checkout,
  on_menu_or_cart, on_address, on_after_placement, on_idle, dispatch, handle, save, routed,
  next_step,
}
use nzela.Conversation.Invariant.{NextStep-cases}
use nzela.Conversation.Diagram.{
  PhaseStep, stay, reset, list_restaurants, choose_restaurant, add_first, ask_address,
  ask_address_reviewed, place_known, place_reviewed, place_located, order_again, order_again_placed,
  Moved, saved-Moved, reset-Moved, kept-Moved,
}

module _ {P : Type 0} (ports : Ports P) (wa : String) (was : Session) (m : Sessions) where
  abbrev Follows : Handled P → Type 0
  Follows h = Moved wa was m h.0.sessions

  show_status-Follows :
      (e : Engine P) (s : Session) → Moved wa was m e.sessions → Follows (show_status ports e s)
  unfolding show_status
  show_status-Follows e s kept = elim (Option-cases ((ports.status e.ports s.wa_id).1)) [
    | inl none_eq ↦ rw (show_status, none_eq) kept
    | inr (none, eq) ↦ rw (show_status, eq) kept
    | inr (some t, eq) ↦ rw (show_status, eq) kept
  ]

  start_restaurants-Follows :
      (e : Engine P) (s : Session)
      → s.wa_id ≡ wa
      → PhaseStep was.phase selecting_restaurant
      → Moved wa was m e.sessions
      → Follows (start_restaurants ports e s)
  unfolding start_restaurants
  start_restaurants-Follows e s id step kept =
      elim (Option-cases ((ports.restaurants e.ports s.wa_id).1)) [
        | inl none_eq ↦ rw (start_restaurants, none_eq) kept
        | inr ([], eq) ↦ rw (start_restaurants, eq) kept
        | inr (r ∷ rs, eq) ↦
            rw (start_restaurants, eq) (saved-Moved wa was _ m e.sessions id step kept)
      ]

  on_select_restaurant-Follows :
      (e : Engine P) (s : Session) (low : String)
      → s.wa_id ≡ wa
      → PhaseStep was.phase browsing_menu
      → Moved wa was m e.sessions
      → Follows (on_select_restaurant ports e s low)
  unfolding on_select_restaurant
  on_select_restaurant-Follows e s low id step kept =
      elim (Option-cases (pick (parse_selection low) (or_else s.restaurant_list []))) [
        | inl none_eq ↦ rw (on_select_restaurant, none_eq) kept
        | inr ((chosen, qty), pick_eq) ↦ elim (Option-cases ((ports.menu e.ports chosen.id).1)) [
          | inl none_eq ↦ rw (on_select_restaurant, pick_eq, none_eq) kept
          | inr ([], eq) ↦ rw (on_select_restaurant, pick_eq, eq) kept
          | inr (r ∷ rs, eq) ↦
              rw (on_select_restaurant, pick_eq, eq)
                (saved-Moved wa was _ m e.sessions id step kept)
        ]
      ]

  place-Follows :
      (e : Engine P) (s : Session)
      → s.wa_id ≡ wa
      → PhaseStep was.phase awaiting_payment
      → Moved wa was m e.sessions
      → Follows (place ports e s)
  unfolding place
  place-Follows e s id step kept = elim (Option-cases ((ports.place e.ports s).1)) [
    | inl none_eq ↦ rw (place, none_eq) kept
    | inr (order, eq) ↦ rw (place, eq) (saved-Moved wa was _ m e.sessions id step kept)
  ]

  start_checkout-Follows :
      (e : Engine P) (s : Session)
      → s.wa_id ≡ wa
      → PhaseStep was.phase awaiting_address
      → PhaseStep was.phase awaiting_payment
      → Moved wa was m e.sessions
      → Follows (start_checkout ports e s)
  unfolding start_checkout
  start_checkout-Follows e s id asked paid kept = elim (List-cases s.cart) [
    | inl empty ↦ rw (start_checkout, empty) kept
    | inr (c, cs, eq) ↦ elim (Option-cases (truthy s.address_text)) [
      | inl none_eq ↦
          rw (start_checkout, eq, none_eq) (saved-Moved wa was _ m e.sessions id asked kept)
      | inr (a, a_eq) ↦ rw (start_checkout, eq, a_eq) (place-Follows e s id paid kept)
    ]
  ]

  on_menu_or_cart-Follows :
      (e : Engine P) (s : Session) (low : String)
      → s.wa_id ≡ wa
      → PhaseStep was.phase cart_review
      → PhaseStep was.phase awaiting_address
      → PhaseStep was.phase awaiting_payment
      → Moved wa was m e.sessions
      → Follows (on_menu_or_cart ports e s low)
  unfolding on_menu_or_cart
  on_menu_or_cart-Follows e s low id grown asked paid kept = elim (Bool-cases (low === "panier")) [
    | inl b ↦ rw (on_menu_or_cart, b) kept
    | inr b ↦ elim (Bool-cases (low === "menu")) [
      | inl c ↦ rw (on_menu_or_cart, b, c) kept
      | inr c ↦ elim (Bool-cases (mentions pay_words low)) [
        | inl d ↦ rw (on_menu_or_cart, b, c, d) (start_checkout-Follows e s id asked paid kept)
        | inr d ↦ elim (Option-cases (pick (parse_selection low) (or_else s.menu_list []))) [
          | inl none_eq ↦ rw (on_menu_or_cart, b, c, d, none_eq) kept
          | inr ((item, qty), eq) ↦
              rw (on_menu_or_cart, b, c, d, eq) (saved-Moved wa was _ m e.sessions id grown kept)
        ]
      ]
    ]
  ]

  on_address-Follows :
      (e : Engine P) (s : Session) (text : String)
      → s.wa_id ≡ wa
      → PhaseStep was.phase s.phase
      → PhaseStep was.phase awaiting_payment
      → Moved wa was m e.sessions
      → Follows (on_address ports e s text)
  unfolding on_address
  on_address-Follows e s text id same paid kept = elim (Bool-cases (ltb (utf16_length text) 6)) [
    | inl short ↦ rw (on_address, short) kept
    | inr long ↦
        rw (on_address, long)
          (place-Follows _ _ id paid (saved-Moved wa was _ m e.sessions id same kept))
  ]

  on_after_placement-Follows :
      (e : Engine P) (s : Session) (low : String)
      → s.wa_id ≡ wa
      → PhaseStep was.phase selecting_restaurant
      → Moved wa was m e.sessions
      → Follows (on_after_placement ports e s low)
  unfolding on_after_placement empty_session
  on_after_placement-Follows e s low id again kept =
      let fresh_id : (empty_session s.wa_id).wa_id ≡ wa = id in
      let fresh : PhaseStep was.phase (empty_session s.wa_id).phase = reset in
      elim (Bool-cases (mentions status_words low)) [
        | inl b ↦ rw (on_after_placement, b) (show_status-Follows e s kept)
        | inr b ↦ elim (Bool-cases (mentions ("nakolia" ∷ "menu" ∷ []) low)) [
          | inl c ↦
              rw (on_after_placement, b, c)
                (start_restaurants-Follows (save e (empty_session s.wa_id)) (empty_session s.wa_id)
                  fresh_id again
                  (saved-Moved wa was (empty_session s.wa_id) m e.sessions fresh_id fresh kept))
          | inr c ↦ rw (on_after_placement, b, c) kept
        ]
      ]

  module _ (to_lower : String → String) where
    on_idle-Follows :
        (e : Engine P) (s : Session) (inbound : Inbound) (low : String)
        → s.wa_id ≡ wa
        → PhaseStep was.phase selecting_restaurant
        → Moved wa was m e.sessions
        → Follows (on_idle ports to_lower e s inbound low)
    unfolding on_idle
    on_idle-Follows e s inbound low id step kept =
        let decided = (route to_lower e.ledger (routed inbound) RouterPhase.idle).1 in
        elim (NextStep-cases (next_step decided low)) [
          | inl b ↦ rw (on_idle, b) (show_status-Follows _ s kept)
          | inr (inl b) ↦ rw (on_idle, b) (start_restaurants-Follows _ s id step kept)
          | inr (inr (r, b)) ↦ rw (on_idle, b) kept
        ]

    dispatch-Follows :
        (phase : Phase) (e : Engine P) (s : Session) (inbound : Inbound) (text : String)
        → phase ≡ s.phase
        → s.phase ≡ was.phase
        → s.wa_id ≡ wa
        → Moved wa was m e.sessions
        → Follows (dispatch ports to_lower phase e s inbound text)
    unfolding dispatch
    dispatch-Follows idle e s inbound text at same id kept =
        on_idle-Follows e s inbound (to_lower text) id (rw (← (at ∙ same)) list_restaurants) kept
    dispatch-Follows selecting_restaurant e s inbound text at same id kept =
        on_select_restaurant-Follows e s (to_lower text) id (rw (← (at ∙ same)) choose_restaurant)
          kept
    dispatch-Follows browsing_menu e s inbound text at same id kept =
        on_menu_or_cart-Follows e s (to_lower text) id (rw (← (at ∙ same)) add_first)
          (rw (← (at ∙ same)) ask_address) (rw (← (at ∙ same)) place_known) kept
    dispatch-Follows cart_review e s inbound text at same id kept =
        on_menu_or_cart-Follows e s (to_lower text) id (rw (← (at ∙ same)) stay)
          (rw (← (at ∙ same)) ask_address_reviewed) (rw (← (at ∙ same)) place_reviewed) kept
    dispatch-Follows awaiting_address e s inbound text at same id kept =
        on_address-Follows e s text id (rw same stay) (rw (← (at ∙ same)) place_located) kept
    dispatch-Follows awaiting_payment e s inbound text at same id kept =
        on_after_placement-Follows e s (to_lower text) id (rw (← (at ∙ same)) order_again) kept
    dispatch-Follows placed e s inbound text at same id kept =
        on_after_placement-Follows e s (to_lower text) id (rw (← (at ∙ same)) order_again_placed)
          kept

-- A message leaves every other customer's session as it was, and moves the sender's along an arrow
-- of the phases' diagram (or not at all), whatever the catalog and the order port answer: an order
-- is only awaited for payment from a cart or an address, and nothing leads to `placed`. The
-- sender's session, when there is one, is stored under its own id.
pub handle-Moved :
    {P : Type 0} (ports : Ports P) (to_lower : String → String) (e : Engine P) (wa : String)
    (inbound : Inbound)
    → (session_of e.sessions wa).wa_id ≡ wa
    → Moved wa (session_of e.sessions wa) e.sessions (handle ports to_lower e wa inbound).0.sessions
unfolding handle
handle-Moved ports to_lower e wa inbound id =
    let s = session_of e.sessions wa in
    let text = trim (or_else inbound.text "") in
    elim (Bool-cases (any (λ w. to_lower text === w) reset_words)) [
      | inl b ↦ rw (handle, b) (reset-Moved wa s e.sessions)
      | inr b ↦
          rw (handle, b)
            (dispatch-Follows ports wa s e.sessions to_lower s.phase e s inbound text refl refl id
              (kept-Moved wa e.sessions))
    ]
