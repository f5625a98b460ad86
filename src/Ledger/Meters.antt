-- ===== src/Ledger/Meters.antt =====
-- What an order cost (shared/ledger/src/meters.ts).
use nzela.Base.{ℕ, Bool, true, false, none, some, [], ◌∷◌, String, ◌===◌, length, keep}
use nzela.Num.{Num, whole, ◌+ₙ◌, ◌≤ₙ◌}
use nzela.Ledger.{
  Events, LedgerEvent, LedgerEventType, deterministic, ai, block, budget_exhausted, acu_gated,
  wa_message, lifecycle,
}
use nzela.Ledger.Registry.{
  ai_cost_ceiling_per_order_usd, wa_cost_ceiling_per_order_usd, wa_utility_template_usd,
}

data WaMessageClass : Type 0 where
  customer_service_window utility_template reopened_window : WaMessageClass

unfoldable wa_message_cost_usd : WaMessageClass → Num
wa_message_cost_usd utility_template = wa_utility_template_usd
wa_message_cost_usd _ = whole 0

-- `===` on event types.
unfoldable same_kind : LedgerEventType → LedgerEventType → Bool
same_kind deterministic deterministic = true
same_kind ai ai = true
same_kind block block = true
same_kind budget_exhausted budget_exhausted = true
same_kind acu_gated acu_gated = true
same_kind wa_message wa_message = true
same_kind lifecycle lifecycle = true
same_kind _ _ = false

-- `e.type === k`
unfoldable has_kind : LedgerEventType → LedgerEvent → Bool
unfolding same_kind
has_kind k e = same_kind e.kind k

-- `e.tkRef === tkRef`
unfoldable for_order : String → LedgerEvent → Bool
for_order tk e = elim e.tk_ref [ none ↦ false | some r ↦ r === tk ]

-- `.reduce((s, e) => s + e.costUsd, 0)`
unfoldable pub sum_costs : Num → Events → Num
sum_costs s [] = s
sum_costs s (e ∷ es) = sum_costs (s +ₙ e.cost_usd) es

record OrderCostSummary : Type 0 where
  pub tk_ref : String
  ai_usd : Num
  wa_usd : Num
  ai_calls : ℕ
  deterministic_steps : ℕ
  blocked_llm_calls : ℕ
  within_ai_ceiling : Bool
  within_wa_ceiling : Bool

unfoldable summarize_order_costs : String → Events → OrderCostSummary
unfolding has_kind for_order sum_costs
summarize_order_costs tk events =
    let mine = keep (for_order tk) events in
    let ai_usd = sum_costs (whole 0) (keep (has_kind ai) mine) in
    let wa_usd = sum_costs (whole 0) (keep (has_kind wa_message) mine) in
    record {
      tk_ref = tk;
      ai_usd = ai_usd;
      wa_usd = wa_usd;
      ai_calls = length (keep (has_kind ai) mine);
      deterministic_steps = length (keep (has_kind deterministic) mine);
      blocked_llm_calls = length (keep (has_kind block) mine);
      within_ai_ceiling = ai_usd ≤ₙ ai_cost_ceiling_per_order_usd;
      within_wa_ceiling = wa_usd ≤ₙ wa_cost_ceiling_per_order_usd;
    }
