-- ===== src/Store/Orders.antt =====
-- The book of open orders (backend/server/src/open-orders.ts), over the key-value store. The times of
-- an order are texts that the caller gives.
pub mod Reconciliation
pub mod Payments
use nzela.Base.{
  ℕ, ◌≡◌, refl, Bool, true, false, not, Option, none, some, List, [], ◌∷◌, map, String, keep,
  is_some, truthy, if◌then◌else◌,
}
use nzela.Num.{Num}
use nzela.Store.{Json, FileKv, kv_set, kv_get, kv_keys}
use nzela.Payment.{OpenOrder}

pub record OpenOrderRecord : Type 0 where
  pub tk_ref : String
  pub total_fc : Num
  pub wa_id : String
  pub placed_at_iso : String
  pub paid_at_iso : Option String
  pub operator : Option String

unfoldable pub is_open : OpenOrderRecord → Bool
is_open r = not (is_some (truthy r.paid_at_iso))

unfoldable pub as_open_order : OpenOrderRecord → OpenOrder
as_open_order r = record { tk_ref = r.tk_ref; total_fc = r.total_fc; wa_id = r.wa_id }

-- `filter((r) => !!r)` on records that may be missing.
unfoldable pub present : {A : Type 0} → List (Option A) → List A
present [] = []
present (none ∷ l) = present l
present (some a ∷ l) = a ∷ present l

module _ {Raw : Type 0} (json : Json Raw OpenOrderRecord) where
  unfoldable pub add_order :
      FileKv Raw OpenOrderRecord → ℕ → String → Num → String → String → FileKv Raw OpenOrderRecord
  add_order book nonce tk_ref total_fc wa_id placed_at = kv_set json book nonce tk_ref (record {
    tk_ref = tk_ref;
    total_fc = total_fc;
    wa_id = wa_id;
    placed_at_iso = placed_at;
    paid_at_iso = none;
    operator = none;
  })

  -- `now` is the text of the time of payment.
  unfoldable pub mark_paid :
      FileKv Raw OpenOrderRecord → ℕ → String → String → String → FileKv Raw OpenOrderRecord × Bool
  mark_paid book nonce now tk_ref operator = elim (kv_get book tk_ref) [
    | none ↦ (book, false)
    | some r ↦
        if is_open r
        then (
          kv_set json book nonce tk_ref
              (record r { paid_at_iso = some now; operator = some operator }),
          true,
        )
        else (book, false)
  ]

module _ {Raw : Type 0} where
  unfoldable pub open_orders : FileKv Raw OpenOrderRecord → List OpenOrder
  open_orders book = map as_open_order (keep is_open (present (map (kv_get book) (kv_keys book))))

  unfoldable pub wa_id_for : FileKv Raw OpenOrderRecord → String → Option String
  wa_id_for book tk_ref = elim (kv_get book tk_ref) [ none ↦ none | some r ↦ some r.wa_id ]
