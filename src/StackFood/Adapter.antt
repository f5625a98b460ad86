-- ===== src/StackFood/Adapter.antt =====
-- Idempotent order placement (shared/stackfood-client/src/order-adapter.ts), for calls that do not
-- overlap: `inFlight` is empty when one begins. `list` and `post` are the two `fetch`es, of
-- `GET /customer/order/list?offset=1&limit=5` and `POST /customer/order/place`.
pub mod Once
pub mod InFlight
use nzela.Base.{
  ℕ, Bool, true, false, Option, none, some, List, [], ◌∷◌, String, if◌then◌else◌, find, or_else,
}
use nzela.Base.Result.{Result, ok, err}
use nzela.Text.{includes}
use nzela.StackFood.{FetchResult, Failure, Done, request}

pub record CustomerOrderSummary : Type 0 where
  pub id : ℕ
  pub order_note : Option String

pub record PlacementResult : Type 0 where
  pub order_id : ℕ
  pub recovered : Bool

pub data PlacementError : Type 0 where
  note_without_ref : PlacementError
  transport : Failure → PlacementError

-- `o.order_note?.includes(tkRef)`
unfoldable pub carries : String → CustomerOrderSummary → Bool
unfolding includes
carries tk o = elim (o.order_note) [ none ↦ false | some note ↦ includes note tk ]

abbrev found_order : CustomerOrderSummary → PlacementResult
found_order o = record { order_id = o.id; recovered = true }

-- The lookup after a failed POST: the order that landed, or the error.
unfoldable pub landed :
    {W : Type 0}
    → Failure
    → W × Result Failure (Option CustomerOrderSummary)
    → W × Result PlacementError PlacementResult
landed e (w, ok (some o)) = (w, ok (found_order o))
landed e (w, ok none) = (w, err (transport e))
landed e (w, err f) = (w, err (transport e))

module _ {W : Type 0} (list : W → W × FetchResult (List CustomerOrderSummary))
    (post : W → W × FetchResult ℕ) where
  unfoldable pub find_by_tk_ref : W → String → W × Result Failure (Option CustomerOrderSummary)
  unfolding request carries
  find_by_tk_ref w tk =
      let done = request list w in
      elim done.result [
        | err e ↦ (done.world, err e)
        | ok orders ↦ (done.world, ok (find (carries tk) orders))
      ]

  -- After the `POST`, with the `catch` of `placeOnce`: the order may have landed.
  unfoldable pub place_posted :
      W → String → Result Failure ℕ → W × Result PlacementError PlacementResult
  unfolding find_by_tk_ref landed
  place_posted w tk (ok id) = (w, ok (record { order_id = id; recovered = false }))
  place_posted w tk (err e) = landed e (find_by_tk_ref w tk)

  unfoldable pub place_new : W → String → W × Result PlacementError PlacementResult
  unfolding place_posted request
  place_new w tk = let done = request post w in place_posted done.world tk done.result

  -- The rest of `placeOnce`, once the lookup has answered.
  unfoldable pub place_looked_up :
      String
      → W × Result Failure (Option CustomerOrderSummary)
      → W × Result PlacementError PlacementResult
  unfolding place_new
  place_looked_up tk (w, err e) = (w, err (transport e))
  place_looked_up tk (w, ok (some o)) = (w, ok (found_order o))
  place_looked_up tk (w, ok none) = place_new w tk

  unfoldable pub place_once : W → String → W × Result PlacementError PlacementResult
  unfolding find_by_tk_ref place_looked_up
  place_once w tk = place_looked_up tk (find_by_tk_ref w tk)

  -- `placeIdempotent`, with the payload's note.
  unfoldable pub place_idempotent : W → String → String → W × Result PlacementError PlacementResult
  unfolding place_once includes
  place_idempotent w note tk =
      if includes note tk then place_once w tk else (w, err note_without_ref)
