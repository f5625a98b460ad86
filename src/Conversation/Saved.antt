-- ===== src/Conversation/Saved.antt =====
-- The sessions that the handlers save are well formed (backend/gateway/src/conversation.ts).
use nzela.Base.{
  ℕ, ◌≡◌, ◌≢◌, refl, inl, inr, sym, subst, ◌∙◌, false, some, List, [], ◌∷◌, String, or_else, All,
  get_elem?, truthy, ◌===◌, ===_iff, Bool-cases, ltb,
}
use nzela.Text.{utf16_length, parse_selection}
use nzela.Sessions.{browsing_menu, cart_review, Session, MenuRow}
use nzela.Conversation.{pick, add_item}
use nzela.Conversation.Invariant.{
  IsLine, HasMenu, HasMenu_same, IsReady, PhaseOk, pick-found, cons-not_nil, add_item-lines,
}

-- A menu is chosen while the cart is empty.
pub no_lines :
    (s : Session) (id : ℕ) (name : String) (menu : List MenuRow)
    → s.cart ≡ []
    → HasMenu (record s {
      restaurant_id = some id;
      restaurant_name = some name;
      menu_list = some menu;
      phase = browsing_menu;
    })
no_lines s id name menu empty = record {
  restaurant = id;
  menu = menu;
  restaurant_eq = refl;
  menu_eq = refl;
  lines = subst (All (IsLine menu)) (sym empty) tt;
}

pub ready_same :
    (s t : Session)
    → t.restaurant_id ≡ s.restaurant_id
    → t.menu_list ≡ s.menu_list
    → t.cart ≡ s.cart
    → t.address_text ≡ s.address_text
    → IsReady s
    → IsReady t
ready_same s t e1 e2 e3 e4 h = record {
  has_menu = HasMenu_same s t e1 e2 e3 h.has_menu;
  not_empty = λ e. h.not_empty (sym e3 ∙ e);
  address = h.address;
  address_eq = subst (λ a. truthy a ≡ some h.address) (sym e4) h.address_eq;
}

pub long_text : (text : String) → ltb (utf16_length text) 6 ≡ false → truthy (some text) ≡ some text
unfolding truthy utf16_length
long_text text e = elim (Bool-cases (text === "")) [
  | inl empty ↦
      let eq = (===_iff text "").0 empty in
      let short = subst (λ t. ltb (utf16_length t) 6 ≡ false) eq e in absurd cc
  | inr other ↦ rw other refl
]

pub not_nil : {A : Type 0} (xs : List A) (y : A) (ys : List A) → xs ≡ y ∷ ys → xs ≢ []
not_nil xs y ys e n = cons-not_nil y ys (sym e ∙ n)

pub grown_cart :
    (s : Session) (low : String) (item : MenuRow) (qty : ℕ)
    → HasMenu s
    → pick (parse_selection low) (or_else s.menu_list []) ≡ some (item, qty)
    → PhaseOk cart_review (record s { cart = add_item item qty s.cart; phase = cart_review })
grown_cart s low item qty h e =
    let ((i, at), pos) = pick-found low (or_else s.menu_list []) item qty e in
    let at' = subst (λ o. get_elem? (or_else o []) i ≡ some item) h.menu_eq at in
    let (lines, full) = add_item-lines h.menu i item qty s.cart at' pos h.lines in
    (
      record {
        restaurant = h.restaurant;
        menu = h.menu;
        restaurant_eq = h.restaurant_eq;
        menu_eq = h.menu_eq;
        lines = lines;
      },
      full,
    )
