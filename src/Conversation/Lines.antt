-- ===== src/Conversation/Lines.antt =====
-- The lines of a cart from a menu are priced as the cart shows them
-- (backend/gateway/src/conversation-stackfood.ts, backend/gateway/src/pricing.ts).
use nzela.Base.{
  ℕ, zero, suc, ◌≤◌, ◌<◌, ◌≡◌, ◌≢◌, refl, sym, ap, ◌∙◌, none, some, List, [], ◌∷◌, arith, length,
  get_elem?, All, map, Option-cases, inl, inr,
}
use nzela.Base.Int.{int_laws}
use nzela.Base.Result.{ok}
use nzela.Num.{Num, nan, inf, neg_inf, fin, whole, ◌+ₙ◌, is_integer, ◌<ₙ◌}
use nzela.Pricing.{
  CartLine, times, count_of, require_positive_int, require_menu_price, price_add_ons, price_line,
  price_lines, make_cart_line, max_line_qty,
}
use nzela.Pricing.Quotes.{price_line_of}
use nzela.Sessions.{MenuRow, CartItem}
use nzela.Conversation.{cart_total}
use nzela.Conversation.Invariant.{IsLine}
use nzela.Conversation.Ordering.{menu_price, book_of, line_of}

-- Two rows of a menu with one id have one price.
abbrev pub IsConsistent : List MenuRow → Type 0
IsConsistent menu =
    (i j : ℕ) (m n : MenuRow)
    → get_elem? menu i ≡ some m
    → get_elem? menu j ≡ some n
    → m.food_id ≡ n.food_id
    → m.price ≡ n.price

-- A line that the pricing takes: at most 50 of a dish whose price is one.
abbrev pub IsPriceable : CartItem → Type 0
IsPriceable c = (c.quantity ≤ max_line_qty) × (require_menu_price c.price ≡ ok c.price)

add-zero : (x : Num) → x +ₙ whole 0 ≡ x
unfolding ◌+ₙ◌
add-zero nan = refl
add-zero inf = refl
add-zero neg_inf = refl
add-zero (fin a) = ap fin (grind int_laws)

whole_quantity :
    (q : ℕ) → 0 < q → q ≤ max_line_qty → require_positive_int (whole q) max_line_qty ≡ ok q
unfolding require_positive_int is_integer count_of ◌<ₙ◌
whole_quantity q h k = ground arith

-- A price in the book stands in a row of the menu, and each row has a price in the book.
menu_price-at :
    (menu : List MenuRow) (id : ℕ) (p : Num)
    → menu_price menu id ≡ some p
    → (j : ℕ) × (m : MenuRow) × (get_elem? menu j ≡ some m) × (m.food_id ≡ id) × (m.price ≡ p)
unfolding menu_price
menu_price-at [] id p e = cc
menu_price-at (m ∷ menu) id p e = elim (Option-cases (menu_price menu id)) [
  | inr (p', found) ↦
      let (j, n, at, same, price) = menu_price-at menu id p' found in
      (suc j, n, at, same, ground arith)
  | inl none_later ↦ (0, m, refl, ground arith, ground arith)
]

menu_price-row :
    (menu : List MenuRow) (i : ℕ) (row : MenuRow)
    → get_elem? menu i ≡ some row
    → menu_price menu row.food_id ≢ none
unfolding menu_price
menu_price-row [] i row e h = cc
menu_price-row (m ∷ menu) zero row e h = ground arith
menu_price-row (m ∷ menu) (suc i) row e h = menu_price-row menu i row e (ground arith)

pub on_menu :
    (menu : List MenuRow) (c : CartItem)
    → IsConsistent menu
    → IsLine menu c
    → menu_price menu c.food_id ≡ some c.price
on_menu menu c same line = elim (Option-cases (menu_price menu c.food_id)) [
  | inl missing ↦
      absurd (menu_price-row menu line.at line.row line.found (rw (← line.same_food) missing))
  | inr (p, found) ↦
      let (j, m, at, id, price) = menu_price-at menu c.food_id p found in
      let one = same j line.at m line.row at line.found (id ∙ line.same_food) in
      found ∙ ap some (sym price ∙ one ∙ sym line.same_price)
]

-- The value of a line, as the cart shows it.
line_priced :
    (menu : List MenuRow) (c : CartItem)
    → IsConsistent menu
    → IsLine menu c
    → IsPriceable c
    → (l : CartLine) × (price_line (line_of c) (book_of (some menu))
        ≡ ok (l, times c.quantity c.price))
unfolding line_of book_of price_add_ons
line_priced menu c same line (few, valid) = (
  make_cart_line (line_of c) c.price [] [],
  price_line_of (line_of c) (book_of (some menu)) _ _ (record {
    qty = c.quantity;
    add_on_fc = whole 0;
    unit = c.price;
    counted = whole_quantity c.quantity line.positive few;
    on_menu = on_menu menu c same line;
    valid_price = valid;
    same_length = refl;
    added = refl;
    line_eq = refl;
    value_eq = sym (add-zero (times c.quantity c.price));
  }),
)

pub lines_priced :
    (menu : List MenuRow) (cart : List CartItem) (acc : Num)
    → IsConsistent menu
    → All (IsLine menu) cart
    → All IsPriceable cart
    → (ls : List CartLine) × (price_lines (map line_of cart) (book_of (some menu)) acc
        ≡ ok (ls, cart_total acc cart))
unfolding price_lines cart_total
lines_priced menu [] acc same lines few = ([], refl)
lines_priced menu (c ∷ cart) acc same (line, lines) (ok_c, few) =
    let (l, priced) = line_priced menu c same line ok_c in
    let (ls, rest) = lines_priced menu cart (acc +ₙ times c.quantity c.price) same lines few in
    (l ∷ ls, rw (priced, rest) refl)

pub length-line_of : (cart : List CartItem) → length (map line_of cart) ≡ length cart
length-line_of [] = refl
length-line_of (c ∷ cart) = ap suc (length-line_of cart)
