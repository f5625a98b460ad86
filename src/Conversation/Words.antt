-- ===== src/Conversation/Words.antt =====
-- The words of a conversation that orders, and what the engine reads in them
-- (backend/gateway/src/conversation.ts).
use nzela.Base.{
  ℕ, ◌≡◌, refl, ap, subst, true, false, none, some, List, [], ◌∷◌, String, arith, or_else, any,
  ◌===◌, ===_refl,
}
use nzela.Dict.{lookup, lookup-erase, lookup-insert_self}
use nzela.Text.{
  trim, mentions, parse_selection, trim_start, trim_end, is_space, includes, starts_with, number,
  digits, is_digit, quantity_of, in_range,
}
use nzela.Sessions.{
  Session, Sessions, MenuRow, empty_session, session_of, save_session, reset_session,
}
use nzela.Conversation.{
  Ports, Inbound, Engine, RestaurantOption, PlacedOrder, pick, pay_words, reset_words,
}
use nzela.Conversation.Handlers.{handle}

unfoldable pub typed : String → Inbound
typed text = record { text = some text; button_id = none; is_voice_note = false }

unfoldable pub handle_all :
    {P : Type 0} → Ports P → (String → String) → Engine P → String → List String → Engine P
unfolding handle typed
handle_all ports to_lower e wa [] = e
handle_all ports to_lower e wa (t ∷ ts) =
    handle_all ports to_lower (handle ports to_lower e wa (typed t)).0 wa ts

-- The words that the customer types are in lower case.
pub record LowersWords (to_lower : String → String) : Type 0 where
  pub annuler : to_lower "annuler" ≡ "annuler"
  pub nakolia : to_lower "nakolia" ≡ "nakolia"
  pub one : to_lower "1" ≡ "1"
  pub payer : to_lower "payer" ≡ "payer"

-- A session that has an address and whose cart is one piece of the first dish of its restaurant's menu.
pub record IsFirstDish (s : Session) (id : ℕ) (m : MenuRow) (ms : List MenuRow) : Type 0 where
  pub restaurant : s.restaurant_id ≡ some id
  pub menu : s.menu_list ≡ some (m ∷ ms)
  pub cart :
      s.cart ≡ record { food_id = m.food_id; name = m.name; price = m.price; quantity = 1 } ∷ []
  pub address : String
  pub address_eq : s.address_text ≡ some address

-- Some restaurant is open, one of those known; each of these has a menu on sale with a dish; and an
-- order of one first dish from a menu on sale is accepted.
pub record IsServing {P : Type 0} (ports : Ports P) (Known : ℕ → Type 0)
    (OnSale : ℕ → List MenuRow → Type 0) : Type 0 where
  pub restaurants :
      (p : P) (wa : String)
      → (r : RestaurantOption) × (rs : List RestaurantOption) × ((ports.restaurants p wa).1
          ≡ some (r ∷ rs))
        × Known r.id
  pub menu :
      (p : P) (id : ℕ)
      → Known id
      → (m : MenuRow) × (ms : List MenuRow) × ((ports.menu p id).1 ≡ some (m ∷ ms))
        × OnSale id (m ∷ ms)
  pub place :
      (p : P) (s : Session) (id : ℕ) (m : MenuRow) (ms : List MenuRow)
      → OnSale id (m ∷ ms)
      → IsFirstDish s id m ms
      → (o : PlacedOrder) × ((ports.place p s).1 ≡ some o)

pub trim-words :
    (trim "annuler" ≡ "annuler")
    × (trim "nakolia" ≡ "nakolia")
    × (trim "1" ≡ "1")
    × (trim "payer" ≡ "payer")
unfolding trim trim_start trim_end is_space ◌===◌
trim-words = (refl, refl, refl, refl)

pub not_resets :
    (any (λ w. "nakolia" === w) reset_words ≡ false)
    × (any (λ w. "1" === w) reset_words ≡ false)
    × (any (λ w. "payer" === w) reset_words ≡ false)
unfolding ◌===◌
not_resets = (refl, refl, refl)

pub pick_first :
    {A : Type 0} (x : A) (xs : List A) → pick (parse_selection "1") (x ∷ xs) ≡ some (x, 1)
unfolding pick parse_selection trim trim_start trim_end is_space number digits is_digit quantity_of
    in_range ◌===◌
pick_first x xs = ground arith

pub pay_says :
    (mentions pay_words "1" ≡ false)
    × (mentions pay_words "payer" ≡ true)
    × (("1" === "menu") ≡ false)
    × (("1" === "panier") ≡ false)
    × (("payer" === "menu") ≡ false)
    × (("payer" === "panier") ≡ false)
unfolding mentions includes starts_with ◌===◌
pay_says = (refl, refl, refl, refl, refl, refl)

pub session_of-save :
    (m : Sessions) (wa : String) (s : Session) → s.wa_id ≡ wa → session_of (save_session m s) wa ≡ s
unfolding session_of save_session
session_of-save m wa s id =
    ap (λ o. or_else o (empty_session wa))
      (subst (λ w. lookup w (save_session m s) ≡ some s) id (lookup-insert_self s.wa_id s m))

pub session_of-reset :
    (m : Sessions) (wa : String) → session_of (reset_session m wa) wa ≡ empty_session wa
unfolding session_of reset_session
session_of-reset m wa = rw (lookup-erase wa wa m, ===_refl wa) refl
