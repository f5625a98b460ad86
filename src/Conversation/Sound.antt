-- ===== src/Conversation/Sound.antt =====
-- Every message keeps the sessions well formed, and an order is only placed from a session that is
-- ready for it (backend/gateway/src/conversation.ts).
use nzela.Base.{
  ℕ, ◌≡◌, ◌≢◌, refl, inl, inr, sym, subst, none, some, [], ◌∷◌, String, or_else, any, List-cases,
  truthy, ◌===◌, Bool-cases, Option-cases, ltb,
}
use nzela.Text.{trim, mentions, utf16_length, parse_selection}
use nzela.Router.{route, RouterPhase}
use nzela.Sessions.{
  Phase, idle, selecting_restaurant, browsing_menu, cart_review, awaiting_address, awaiting_payment,
  placed, Session, empty_session, session_of,
}
use nzela.Conversation.{Ports, Inbound, Engine, pick, pay_words, status_words, reset_words}
use nzela.Conversation.Handlers.{
  show_status, start_restaurants, on_select_restaurant, place, start_checkout, on_menu_or_cart,
  on_address, on_after_placement, on_idle, dispatch, handle, save, routed, next_step,
}
use nzela.Conversation.Invariant.{
  HasMenu, HasMenu_same, IsReady, PhaseOk, AllOk, session_of-IsOk, save_session-AllOk,
  reset_session-AllOk, NextStep-cases,
}
use nzela.Conversation.Saved.{no_lines, ready_same, long_text, not_nil, grown_cart}

-- What the ports keep, whatever is read and whatever ready session is placed.
pub record Keeps {P : Type 0} (ports : Ports P) (Q : P → Type 0) : Type 0 where
  pub restaurants : (p : P) (wa : String) → Q p → Q (ports.restaurants p wa).0
  pub menu : (p : P) (id : ℕ) → Q p → Q (ports.menu p id).0
  pub status : (p : P) (wa : String) → Q p → Q (ports.status p wa).0
  pub place : (p : P) (s : Session) → IsReady s → Q p → Q (ports.place p s).0

-- The sessions are well formed, and the ports' state has the property.
abbrev pub IsSound : {P : Type 0} → (P → Type 0) → Engine P → Type 0
IsSound Q e = AllOk e.sessions × Q e.ports

module _ {P : Type 0} (ports : Ports P) (Q : P → Type 0) (keeps : Keeps ports Q) where
  show_status-IsSound :
      (e : Engine P) (s : Session) → IsSound Q e → IsSound Q (show_status ports e s).0
  unfolding show_status
  show_status-IsSound e s (ok, q) =
      let kept = keeps.status e.ports s.wa_id q in
      elim (Option-cases ((ports.status e.ports s.wa_id).1)) [
        | inl none_eq ↦ rw (none_eq, show_status) (ok, kept)
        | inr (none, eq) ↦ rw (eq, show_status) (ok, kept)
        | inr (some t, eq) ↦ rw (eq, show_status) (ok, kept)
      ]

  start_restaurants-IsSound :
      (e : Engine P) (s : Session)
      → s.cart ≡ []
      → IsSound Q e
      → IsSound Q (start_restaurants ports e s).0
  unfolding start_restaurants
  start_restaurants-IsSound e s empty (ok, q) =
      let kept = keeps.restaurants e.ports s.wa_id q in
      elim (Option-cases ((ports.restaurants e.ports s.wa_id).1)) [
        | inl none_eq ↦ rw (none_eq, start_restaurants) (ok, kept)
        | inr ([], eq) ↦ rw (eq, start_restaurants) (ok, kept)
        | inr (r ∷ rs, eq) ↦
            rw (eq, start_restaurants)
              (save_session-AllOk e.sessions _ ok (empty, (_, _, refl)), kept)
      ]

  on_select_restaurant-IsSound :
      (e : Engine P) (s : Session) (low : String)
      → s.cart ≡ []
      → IsSound Q e
      → IsSound Q (on_select_restaurant ports e s low).0
  unfolding on_select_restaurant
  on_select_restaurant-IsSound e s low empty (ok, q) =
      elim (Option-cases (pick (parse_selection low) (or_else s.restaurant_list []))) [
        | inl none_eq ↦ rw (none_eq, on_select_restaurant) (ok, q)
        | inr ((chosen, qty), pick_eq) ↦
            let kept = keeps.menu e.ports chosen.id q in
            elim (Option-cases ((ports.menu e.ports chosen.id).1)) [
              | inl none_eq ↦ rw (pick_eq, none_eq, on_select_restaurant) (ok, kept)
              | inr ([], eq) ↦ rw (pick_eq, eq, on_select_restaurant) (ok, kept)
              | inr (m ∷ ms, eq) ↦
                  rw (pick_eq, eq, on_select_restaurant)
                    (
                      save_session-AllOk e.sessions _ ok
                          (no_lines s chosen.id chosen.name (m ∷ ms) empty),
                      kept,
                    )
            ]
      ]

  place-IsSound :
      (e : Engine P) (s : Session) → IsReady s → IsSound Q e → IsSound Q (place ports e s).0
  unfolding place
  place-IsSound e s ready (ok, q) =
      let kept = keeps.place e.ports s ready q in
      elim (Option-cases ((ports.place e.ports s).1)) [
        | inl none_eq ↦ rw (none_eq, place) (ok, kept)
        | inr (order, eq) ↦
            rw (eq, place)
              (
                save_session-AllOk e.sessions _ ok
                    (ready_same s _ refl refl refl refl ready, (_, refl), (_, refl)),
                kept,
              )
      ]

  start_checkout-IsSound :
      (e : Engine P) (s : Session)
      → HasMenu s
      → IsSound Q e
      → IsSound Q (start_checkout ports e s).0
  unfolding start_checkout
  start_checkout-IsSound e s h (ok, q) = elim (List-cases s.cart) [
    | inl empty ↦ rw (start_checkout, empty) (ok, q)
    | inr (c, cs, eq) ↦
        let full = not_nil s.cart c cs eq in
        elim (Option-cases (truthy s.address_text)) [
          | inl none_eq ↦
              rw (start_checkout, eq, none_eq)
                (save_session-AllOk e.sessions _ ok (HasMenu_same s _ refl refl refl h, full), q)
          | inr (a, a_eq) ↦
              rw (start_checkout, eq, a_eq)
                (place-IsSound e s
                  (record { has_menu = h; not_empty = full; address = a; address_eq = a_eq })
                  (ok, q))
        ]
  ]

  on_menu_or_cart-IsSound :
      (e : Engine P) (s : Session) (low : String)
      → HasMenu s
      → IsSound Q e
      → IsSound Q (on_menu_or_cart ports e s low).0
  unfolding on_menu_or_cart
  on_menu_or_cart-IsSound e s low h (ok, q) = elim (Bool-cases (low === "panier")) [
    | inl b ↦ rw (on_menu_or_cart, b) (ok, q)
    | inr b ↦ elim (Bool-cases (low === "menu")) [
      | inl c ↦ rw (on_menu_or_cart, b, c) (ok, q)
      | inr c ↦ elim (Bool-cases (mentions pay_words low)) [
        | inl d ↦ rw (on_menu_or_cart, b, c, d) (start_checkout-IsSound e s h (ok, q))
        | inr d ↦ elim (Option-cases (pick (parse_selection low) (or_else s.menu_list []))) [
          | inl none_eq ↦ rw (on_menu_or_cart, b, c, d, none_eq) (ok, q)
          | inr ((item, qty), eq) ↦
              rw (on_menu_or_cart, b, c, d, eq)
                (save_session-AllOk e.sessions _ ok (grown_cart s low item qty h eq), q)
        ]
      ]
    ]
  ]

  on_address-IsSound :
      (e : Engine P) (s : Session) (text : String)
      → s.phase ≡ awaiting_address
      → HasMenu s
      → s.cart ≢ []
      → IsSound Q e
      → IsSound Q (on_address ports e s text).0
  unfolding on_address
  on_address-IsSound e s text at h full (ok, q) = elim (Bool-cases (ltb (utf16_length text) 6)) [
    | inl short ↦ rw (on_address, short) (ok, q)
    | inr long ↦
        let h' = HasMenu_same s (record s { address_text = some text }) refl refl refl h in
        rw (on_address, long)
          (place-IsSound _ _
            (record {
              has_menu = h';
              not_empty = full;
              address = text;
              address_eq = long_text text long;
            })
            (
              save_session-AllOk e.sessions _ ok (
                  subst (λ p. PhaseOk p (record s { address_text = some text })) (sym at)
                    (h', full)),
              q,
            ))
  ]

  on_after_placement-IsSound :
      (e : Engine P) (s : Session) (low : String)
      → IsSound Q e
      → IsSound Q (on_after_placement ports e s low).0
  unfolding on_after_placement empty_session
  on_after_placement-IsSound e s low (ok, q) =
      let no_cart : (empty_session s.wa_id).cart ≡ [] = refl in
      elim (Bool-cases (mentions status_words low)) [
        | inl b ↦ rw (on_after_placement, b) (show_status-IsSound e s (ok, q))
        | inr b ↦ elim (Bool-cases (mentions ("nakolia" ∷ "menu" ∷ []) low)) [
          | inl c ↦
              rw (on_after_placement, b, c)
                (start_restaurants-IsSound (save e (empty_session s.wa_id)) (empty_session s.wa_id)
                  no_cart (save_session-AllOk e.sessions (empty_session s.wa_id) ok no_cart, q))
          | inr c ↦ rw (on_after_placement, b, c) (ok, q)
        ]
      ]

  module _ (to_lower : String → String) where
    on_idle-IsSound :
        (e : Engine P) (s : Session) (inbound : Inbound) (low : String)
        → s.cart ≡ []
        → IsSound Q e
        → IsSound Q (on_idle ports to_lower e s inbound low).0
    unfolding on_idle
    on_idle-IsSound e s inbound low empty sound =
        let decided = (route to_lower e.ledger (routed inbound) RouterPhase.idle).1 in
        elim (NextStep-cases (next_step decided low)) [
          | inl b ↦ rw (on_idle, b) (show_status-IsSound _ s sound)
          | inr (inl b) ↦ rw (on_idle, b) (start_restaurants-IsSound _ s empty sound)
          | inr (inr (r, b)) ↦ rw (on_idle, b) sound
        ]

    pub dispatch-IsSound :
        (phase : Phase) (e : Engine P) (s : Session) (inbound : Inbound) (text : String)
        → s.phase ≡ phase
        → PhaseOk phase s
        → IsSound Q e
        → IsSound Q (dispatch ports to_lower phase e s inbound text).0
    unfolding dispatch
    dispatch-IsSound idle e s inbound text at ok h =
        on_idle-IsSound e s inbound (to_lower text) ok h
    dispatch-IsSound selecting_restaurant e s inbound text at (ok, r) h =
        on_select_restaurant-IsSound e s (to_lower text) ok h
    dispatch-IsSound browsing_menu e s inbound text at ok h =
        on_menu_or_cart-IsSound e s (to_lower text) ok h
    dispatch-IsSound cart_review e s inbound text at (ok, full) h =
        on_menu_or_cart-IsSound e s (to_lower text) ok h
    dispatch-IsSound awaiting_address e s inbound text at (ok, full) h =
        on_address-IsSound e s text at ok full h
    dispatch-IsSound awaiting_payment e s inbound text at ok h =
        on_after_placement-IsSound e s (to_lower text) h
    dispatch-IsSound placed e s inbound text at ok h = absurd ok

    -- Every message, of any customer and in any phase, keeps the sessions well formed (each stands
    -- under its customer's id and holds what its phase needs: a menu from which every line of the
    -- cart is drawn with its price and a positive quantity, a cart that is not empty while an address
    -- or a payment is awaited, the references of the order that was placed; and no session is ever in
    -- the phase `placed`). It also keeps every property of the ports that their reads keep and that
    -- `place` keeps on a session with a restaurant, such a cart that is not empty, and an address: so
    -- no other session reaches the order port.
    pub handle-IsSound :
        (e : Engine P) (wa : String) (inbound : Inbound)
        → IsSound Q e
        → IsSound Q (handle ports to_lower e wa inbound).0
    unfolding handle
    handle-IsSound e wa inbound (ok, q) =
        let s = session_of e.sessions wa in
        let text = trim (or_else inbound.text "") in
        elim (Bool-cases (any (λ w. to_lower text === w) reset_words)) [
          | inl b ↦ rw (handle, b) (reset_session-AllOk e.sessions wa ok, q)
          | inr b ↦
              rw (handle, b)
                (dispatch-IsSound s.phase e s inbound text refl (session_of-IsOk e.sessions wa ok).1
                  (ok, q))
        ]
