-- ===== src/Kitchen.antt =====
-- The restaurant's side of an order (backend/gateway/src/cuisine-sync.ts): the state machine and
-- its exception ladder. The texts of the events (a reason, a purpose) are left out.
pub mod Ladder
pub mod Runs
use nzela.Base.{
  ℕ, Bool, ◌||◌, if◌then◌else◌, true, false, Option, some, List, [], ◌∷◌, String, or_else,
}
use nzela.Base.Result.{Result, ok, err, ◌>>=◌}
use nzela.Num.{Num, whole}
use nzela.Num.Laws.{amount}
use nzela.Ledger.{
  Actor, cuisine_sync, LedgerEventType, ai, lifecycle, LedgerEvent, Events, write, no_meta,
}

-- $0.008
abbrev pub tts_escalation_cost_usd : Num
tts_escalation_cost_usd = amount 8000

pub data KitchenState : Type 0 where
  awaiting_vendor escalating_voice_call vendor_failed accepted rejected rerouted : KitchenState
  refunded : KitchenState

-- The numbers of minutes and the ids of restaurants are passed on as they come.
pub data KitchenEvent : Type 0 where
  vendor_accepted : Num → KitchenEvent
  vendor_rejected timeout : KitchenEvent
  voice_call_answered : Bool → Option Num → KitchenEvent
  voice_call_unanswered : KitchenEvent
  customer_chose_reroute : ℕ → KitchenEvent
  customer_chose_refund : KitchenEvent

pub record KitchenOrder : Type 0 where
  pub tk_ref : String
  pub state : KitchenState
  pub restaurant_id : ℕ
  pub prep_time_min : Option Num

pub data InvalidKitchenTransition : Type 0 where
  invalid_transition : KitchenState → KitchenEvent → InvalidKitchenTransition

-- The event that a step logs.
unfoldable pub kitchen_log : KitchenOrder → LedgerEventType → Num → LedgerEvent
kitchen_log order kind cost = record {
  kind = kind;
  actor = Actor.agent cuisine_sync;
  cost_usd = cost;
  tk_ref = some order.tk_ref;
  meta = no_meta;
}

unfoldable pub is_awaiting : KitchenState → Bool
is_awaiting awaiting_vendor = true
is_awaiting _ = false

unfoldable pub is_escalating : KitchenState → Bool
is_escalating escalating_voice_call = true
is_escalating _ = false

unfoldable pub is_failed : KitchenState → Bool
is_failed vendor_failed = true
is_failed rejected = true
is_failed _ = false

-- The order in its next state, with the event that the step logs, or the error when the guard fails.
unfoldable pub step_if :
    Bool
    → KitchenOrder
    → KitchenEvent
    → KitchenOrder
    → LedgerEvent
    → Events
    → Result InvalidKitchenTransition (KitchenOrder × Events)
step_if allowed order event next logged ledger =
    if allowed then ok (next, write ledger logged) else err (invalid_transition order.state event)

unfoldable pub apply_kitchen_event :
    KitchenOrder → KitchenEvent → Events → Result InvalidKitchenTransition (KitchenOrder × Events)
apply_kitchen_event order (vendor_accepted minutes) ledger =
    step_if (is_awaiting order.state || is_escalating order.state) order (vendor_accepted minutes)
      (record order { state = accepted; prep_time_min = some minutes })
      (kitchen_log order lifecycle (whole 0)) ledger
apply_kitchen_event order vendor_rejected ledger =
    step_if (is_awaiting order.state) order vendor_rejected (record order { state = rejected })
      (kitchen_log order lifecycle (whole 0)) ledger
apply_kitchen_event order timeout ledger =
    step_if (is_awaiting order.state) order timeout (record order { state = escalating_voice_call })
      (kitchen_log order ai tts_escalation_cost_usd) ledger
apply_kitchen_event order (voice_call_answered takes minutes) ledger =
    step_if (is_escalating order.state) order (voice_call_answered takes minutes)
      (if takes
        then record order { state = accepted; prep_time_min = some (or_else minutes (whole 25)) }
        else record order { state = vendor_failed })
      (kitchen_log order lifecycle (whole 0)) ledger
apply_kitchen_event order voice_call_unanswered ledger =
    step_if (is_escalating order.state) order voice_call_unanswered
      (record order { state = vendor_failed }) (kitchen_log order lifecycle (whole 0)) ledger
apply_kitchen_event order (customer_chose_reroute substitute) ledger =
    step_if (is_failed order.state) order (customer_chose_reroute substitute)
      (record order { state = rerouted; restaurant_id = substitute })
      (kitchen_log order lifecycle (whole 0)) ledger
apply_kitchen_event order customer_chose_refund ledger =
    step_if (is_failed order.state) order customer_chose_refund (record order { state = refunded })
      (kitchen_log order lifecycle (whole 0)) ledger

-- A sequence of events; the first that is refused ends it.
unfoldable pub apply_kitchen_events :
    KitchenOrder
    → List KitchenEvent
    → Events
    → Result InvalidKitchenTransition (KitchenOrder × Events)
apply_kitchen_events order [] ledger = ok (order, ledger)
apply_kitchen_events order (e ∷ es) ledger =
    apply_kitchen_event order e ledger >>= λ s. apply_kitchen_events s.0 es s.1
