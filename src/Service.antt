-- ===== src/Service.antt =====
-- How the service wires the conversation to the book of open orders (backend/server/src/bootstrap.ts).
pub mod Chain
use nzela.Base.{ℕ, Option, none, some, String, or_else}
use nzela.Num.{Num, whole}
use nzela.Sessions.{Session}
use nzela.Store.{Json, FileKv}
use nzela.Store.Orders.{OpenOrderRecord, add_order}
use nzela.Conversation.{Ports, PlacedOrder}

-- What the ports keep: their own state, and the book.
pub record Service (W Raw : Type 0) : Type 0 where
  pub world : W
  pub book : FileKv Raw OpenOrderRecord

-- The order that was placed, in the book; `nonce` is the random vector of the write and `placed_at`
-- its time.
unfoldable pub record_order :
    {Raw : Type 0}
    → Json Raw OpenOrderRecord
    → FileKv Raw OpenOrderRecord
    → ℕ
    → String
    → String
    → PlacedOrder
    → FileKv Raw OpenOrderRecord
unfolding add_order
record_order json book nonce placed_at wa order =
    add_order json book nonce order.tk_ref (or_else order.total_fc (whole 0)) wa placed_at

module _ {W Raw : Type 0} (json : Json Raw OpenOrderRecord) (base : Ports W) (nonce : W → ℕ)
    (now : W → String) where
  -- `orders.place`
  unfoldable pub place_recorded : Service W Raw → Session → Service W Raw × Option PlacedOrder
  unfolding record_order
  place_recorded v s =
      let (w, placed) = base.place v.world s in
      elim placed [
        | none ↦ (record v { world = w }, none)
        | some order ↦ (
          record { world = w; book = record_order json v.book (nonce w) (now w) s.wa_id order },
          some order,
        )
      ]

  -- The ports that the engine gets.
  unfoldable service_ports : Ports (Service W Raw)
  unfolding place_recorded
  service_ports = record {
    restaurants =
        λ v wa. let (w, found) = base.restaurants v.world wa in (record v { world = w }, found);
    menu = λ v id. let (w, found) = base.menu v.world id in (record v { world = w }, found);
    place = place_recorded;
    status = λ v wa. let (w, found) = base.status v.world wa in (record v { world = w }, found);
  }
