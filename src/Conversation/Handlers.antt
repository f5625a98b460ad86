-- ===== src/Conversation/Handlers.antt =====
-- The conversation engine's handlers, one for each phase (backend/gateway/src/conversation.ts). The
-- engine comes back with the reply, or with `none` when the handler throws.
use nzela.Base.{
  ltb, Option, none, some, [], ◌∷◌, String, if◌then◌else◌, or_else, any, ◌===◌, map, truthy,
}
use nzela.Ledger.{Events, write, free_event, LedgerEventType, commande, Actor}
use nzela.Text.{trim, mentions, utf16_length, parse_selection}
use nzela.Router.{
  RouteDecision, deterministic, firewall_block, order_status, route, RouterPhase, InboundMessage,
}
use nzela.Sessions.{
  Phase, idle, selecting_restaurant, browsing_menu, cart_review, awaiting_address, awaiting_payment,
  placed, Session, empty_session, session_of, save_session, reset_session,
}
use nzela.Conversation.{
  Ports, RestaurantOption, Inbound, Engine, Reply, reset_done, greeting, firewall, no_restaurants,
  pick_restaurant, pick_dish, nothing_to_pay, ask_address, longer_address, placement_failed,
  no_order, no_dish, added, recap, status, in_progress, render_restaurants, render_menu,
  render_cart, reset_words, pay_words, status_words, greets, pick, add_item,
}

abbrev pub Handled : Type 0 → Type 0
Handled P = Engine P × Option Reply

-- `sessions.save(session)`, then a reply.
abbrev pub save : {P : Type 0} → Engine P → Session → Engine P
save e s = record e { sessions = save_session e.sessions s }

-- `lifecycle` in the ledger, by the order agent.
unfoldable log_failure : Events → Events
log_failure ledger = write ledger (free_event LedgerEventType.lifecycle (Actor.agent commande) none)

-- The message as the router sees it.
unfoldable pub routed : Inbound → InboundMessage
routed inbound = record {
  button_id = inbound.button_id;
  text = inbound.text;
  is_voice_note = inbound.is_voice_note;
  tk_ref = none;
}

-- What `onIdle` makes of a decision.
pub data NextStep : Type 0 where
  asks_status orders : NextStep
  canned : Reply → NextStep

unfoldable pub next_step : RouteDecision → String → NextStep
unfolding greets
next_step (deterministic order_status) low = asks_status
next_step firewall_block low = if greets low then canned greeting else canned firewall
next_step _ low = orders

module _ {P : Type 0} (ports : Ports P) where
  unfoldable pub show_status : Engine P → Session → Handled P
  show_status e s =
      let (p, found) = ports.status e.ports s.wa_id in
      let e' = record e { ports = p } in
      elim found [
        | none ↦ (e', none)
        | some text ↦ elim text [ none ↦ (e', some no_order) | some t ↦ (e', some (status t)) ]
      ]

  unfoldable pub start_restaurants : Engine P → Session → Handled P
  unfolding render_restaurants
  start_restaurants e s =
      let (p, found) = ports.restaurants e.ports s.wa_id in
      let e' = record e { ports = p } in
      elim found [
        | none ↦ (e', none)
        | some [] ↦ (e', some no_restaurants)
        | some (r ∷ rs) ↦ (
          save e' (record s {
            phase = selecting_restaurant;
            restaurant_list =
                some (map (λ (r : RestaurantOption). record { id = r.id; name = r.name }) (r ∷ rs));
          }),
          some (render_restaurants (r ∷ rs)),
        )
      ]

  unfoldable pub on_select_restaurant : Engine P → Session → String → Handled P
  unfolding parse_selection pick render_menu
  on_select_restaurant e s low = elim (pick (parse_selection low) (or_else s.restaurant_list [])) [
    | none ↦ (e, some pick_restaurant)
    | some (chosen, qty) ↦
        let (p, found) = ports.menu e.ports chosen.id in
        let e' = record e { ports = p } in
        elim found [
          | none ↦ (e', none)
          | some [] ↦ (e', some (no_dish chosen.name))
          | some (m ∷ ms) ↦ (
            save e' (record s {
              restaurant_id = some chosen.id;
              restaurant_name = some chosen.name;
              menu_list = some (m ∷ ms);
              phase = browsing_menu;
            }),
            some (render_menu chosen.name (m ∷ ms)),
          )
        ]
  ]

  -- `place`, with the failure of the port caught.
  unfoldable pub place : Engine P → Session → Handled P
  unfolding log_failure
  place e s =
      let (p, result) = ports.place e.ports s in
      let e' = record e {
        ports = p;
        checkouts = elim (e.checkouts) [ none ↦ none | some sent ↦ some (s.wa_id ∷ sent) ];
      } in
      elim result [
        | none ↦ (record e' { ledger = log_failure e.ledger }, some placement_failed)
        | some order ↦ (
          save e' (record s {
            phase = awaiting_payment;
            tk_ref = some order.tk_ref;
            order_id = some order.order_id;
          }),
          some (recap order.recap),
        )
      ]

  unfoldable pub start_checkout : Engine P → Session → Handled P
  unfolding place truthy
  start_checkout e s = elim (s.cart) [
    | [] ↦ (e, some nothing_to_pay)
    | c ∷ cs ↦ elim (truthy s.address_text) [
      | none ↦ (save e (record s { phase = awaiting_address }), some ask_address)
      | some address ↦ place e s
    ]
  ]

  unfoldable pub on_menu_or_cart : Engine P → Session → String → Handled P
  unfolding start_checkout parse_selection pick add_item render_menu render_cart mentions
  on_menu_or_cart e s low =
      if low === "panier"
      then (e, some (render_cart s.cart))
      else if low === "menu"
      then (e, some (render_menu (or_else s.restaurant_name "resto") (or_else s.menu_list [])))
      else if mentions pay_words low
      then start_checkout e s
      else elim (pick (parse_selection low) (or_else s.menu_list [])) [
        | none ↦ (e, some pick_dish)
        | some (item, qty) ↦
            let cart = add_item item qty s.cart in
            (
              save e (record s { cart = cart; phase = cart_review }),
              some (added qty item.name (render_cart cart)),
            )
      ]

  unfoldable pub on_address : Engine P → Session → String → Handled P
  unfolding place utf16_length
  on_address e s text =
      if ltb (utf16_length text) 6
      then (e, some longer_address)
      else let s' = record s { address_text = some text } in place (save e s') s'

  unfoldable pub on_after_placement : Engine P → Session → String → Handled P
  unfolding show_status start_restaurants mentions
  on_after_placement e s low =
      if mentions status_words low
      then show_status e s
      else if mentions ("nakolia" ∷ "menu" ∷ []) low
      then start_restaurants (save e (empty_session s.wa_id)) (empty_session s.wa_id)
      else (e, some (in_progress s.tk_ref))

  -- `toLowerCase` is a parameter.
  module _ (to_lower : String → String) where
    unfoldable pub on_idle : Engine P → Session → Inbound → String → Handled P
    unfolding show_status start_restaurants route next_step routed
    on_idle e s inbound low =
        let (ledger, decision) = route to_lower e.ledger (routed inbound) RouterPhase.idle in
        let e' = record e { ledger = ledger } in
        elim (next_step decision low) [
          | asks_status ↦ show_status e' s
          | canned reply ↦ (e', some reply)
          | orders ↦ start_restaurants e' s
        ]

    -- The `switch` on the phase.
    unfoldable pub dispatch : Phase → Engine P → Session → Inbound → String → Handled P
    unfolding on_idle on_select_restaurant on_menu_or_cart on_address on_after_placement
    dispatch selecting_restaurant e s inbound text = on_select_restaurant e s (to_lower text)
    dispatch browsing_menu e s inbound text = on_menu_or_cart e s (to_lower text)
    dispatch cart_review e s inbound text = on_menu_or_cart e s (to_lower text)
    dispatch awaiting_address e s inbound text = on_address e s text
    dispatch awaiting_payment e s inbound text = on_after_placement e s (to_lower text)
    dispatch placed e s inbound text = on_after_placement e s (to_lower text)
    dispatch idle e s inbound text = on_idle e s inbound (to_lower text)

    -- `ConversationEngine.handle`
    unfoldable pub handle : Engine P → String → Inbound → Handled P
    unfolding dispatch trim
    handle e wa inbound =
        let s = session_of e.sessions wa in
        let text = trim (or_else inbound.text "") in
        if any (λ w. to_lower text === w) reset_words
        then (record e { sessions = reset_session e.sessions wa }, some reset_done)
        else dispatch s.phase e s inbound text
