-- ===== src/Sessions.antt =====
-- The sessions of the conversations and their two stores (backend/gateway/src/session.ts).
pub mod Agreement
use nzela.Base.{ℕ, Option, none, some, List, [], ◌∷◌, String, or_else}
use nzela.Num.{Num}
use nzela.Dict.{Dict, lookup, insert, erase}
use nzela.Store.{Json, FileKv, kv_set, kv_get, kv_delete}

pub data Phase : Type 0 where
  idle selecting_restaurant browsing_menu cart_review awaiting_address awaiting_payment placed :
      Phase

-- A line of the cart; its quantity is a sum of selections, which are whole numbers.
pub record CartItem : Type 0 where
  pub food_id : ℕ
  pub name : String
  pub price : Num
  pub quantity : ℕ

-- A row of the last list of restaurants, and of the last menu.
pub record RestaurantRow : Type 0 where
  pub id : ℕ
  pub name : String

pub record MenuRow : Type 0 where
  pub food_id : ℕ
  pub name : String
  pub price : Num

pub record Session : Type 0 where
  pub wa_id : String
  pub phase : Phase
  pub restaurant_id : Option ℕ
  pub restaurant_name : Option String
  pub restaurant_list : Option (List RestaurantRow)
  pub menu_list : Option (List MenuRow)
  pub cart : List CartItem
  pub address_text : Option String
  pub tk_ref : Option String
  pub order_id : Option ℕ

unfoldable pub empty_session : String → Session
empty_session wa = record {
  wa_id = wa;
  phase = idle;
  restaurant_id = none;
  restaurant_name = none;
  restaurant_list = none;
  menu_list = none;
  cart = [];
  address_text = none;
  tk_ref = none;
  order_id = none;
}

-- `MemorySessionStore`
abbrev pub Sessions : Type 0
Sessions = Dict Session

unfoldable pub session_of : Sessions → String → Session
session_of m wa = or_else (lookup wa m) (empty_session wa)

unfoldable pub save_session : Sessions → Session → Sessions
save_session m s = insert s.wa_id s m

unfoldable pub reset_session : Sessions → String → Sessions
reset_session m wa = erase wa m

-- `FileSessionStore`
module _ {Raw : Type 0} where
  unfoldable pub file_session_of : FileKv Raw Session → String → Session
  file_session_of kv wa = or_else (kv_get kv wa) (empty_session wa)

module _ {Raw : Type 0} (json : Json Raw Session) where
  unfoldable pub file_save_session : FileKv Raw Session → ℕ → Session → FileKv Raw Session
  file_save_session kv n s = kv_set json kv n s.wa_id s

  unfoldable pub file_reset_session : FileKv Raw Session → ℕ → String → FileKv Raw Session
  file_reset_session kv n wa = kv_delete json kv n wa
