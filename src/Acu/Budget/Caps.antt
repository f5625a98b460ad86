-- ===== src/Acu/Budget/Caps.antt =====
-- The caps of shared/ledger/src/budget.ts: agents without a budget, the budget of an order, and
-- two calls that overlap.
use nzela.Base.{◌≡◌, refl, ap, ◌⊎◌, true, false, some, String, arith, or_else}
use nzela.Num.{Num, whole, ◌≤ₙ◌, ◌<ₙ◌, ◌+ₙ◌, ◌-ₙ◌, min_num}
use nzela.Num.Laws.{amount}
use nzela.Dict.{lookup, insert, lookup-insert_self}
use nzela.Ledger.{AgentId, router, wewa_dispatch, Actor, budget_exhausted, free_event}
use nzela.Ledger.Registry.{agent_registry}
use nzela.Acu.Budget.{
  BudgetMiddleware, AgentCallContext, Ticket, Outcome, answered, order_key, spent_at, remaining_for,
  gate, begin, finish, run, log_event, meter_order, settle,
}
use nzela.Acu.Budget.Gate.{keeps}

-- The agents of budget 0 (the router and the dispatch of wewas) never reach a model: whatever the
-- invocation would do, a run is the fallback and one free event.
run_zero_budget :
    {A : Type 0} (m : BudgetMiddleware) (agent : AgentId) (ctx : AgentCallContext)
    (invoke : Num → Outcome A) (fallback : A)
    → (agent_registry agent).budget_per_call_usd ≡ amount 0
    → run m agent ctx invoke fallback
      ≡ (log_event m (free_event budget_exhausted (Actor.agent agent) ctx.tk_ref), fallback)
unfolding run begin remaining_for agent_registry ◌≤ₙ◌
run_zero_budget m router ctx invoke fallback e = ground arith
run_zero_budget m wewa_dispatch ctx invoke fallback e = ground arith
run_zero_budget m _ ctx invoke fallback e = absurd (ground arith)

pub remaining_with_cap :
    (m : BudgetMiddleware) (agent : AgentId) (ctx : AgentCallContext) (key : String) (cap : Num)
    → (agent_registry agent).budget_per_order_usd ≡ some cap
    → order_key agent ctx ≡ some key
    → remaining_for m agent ctx
      ≡ min_num (agent_registry agent).budget_per_call_usd (cap -ₙ spent_at m key)
unfolding remaining_for
remaining_with_cap m agent ctx key cap ec ek = ground arith

pub begin_budget :
    (m : BudgetMiddleware) (agent : AgentId) (ctx : AgentCallContext) {m' : BudgetMiddleware}
    {t : Ticket}
    → begin m agent ctx ≡ (m', some t)
    → (t.remaining ≡ remaining_for m agent ctx) × (m'.per_order_spend ≡ m.per_order_spend)
unfolding begin gate
begin_budget m agent ctx e = ground arith

module _ {A : Type 0} (m : BudgetMiddleware) (agent : AgentId) (ctx : AgentCallContext)
    (t : Ticket) where
  pub finish_kept_spend :
      (v : A) (x : Num) (key : String)
      → keeps t (answered v x) ≡ true
      → order_key agent ctx ≡ some key
      → (finish m agent ctx t (answered v x)).0.per_order_spend
        ≡ insert key (spent_at m key +ₙ x) m.per_order_spend
  unfolding finish settle log_event meter_order
  finish_kept_spend v x key k e = ground arith

pub spent_at_same :
    (m m' : BudgetMiddleware) (key : String)
    → m'.per_order_spend ≡ m.per_order_spend
    → spent_at m' key ≡ spent_at m key
unfolding spent_at
spent_at_same m m' key e = ap (λ d. or_else (lookup key d) (whole 0)) e

pub spent_of_insert :
    (m m' : BudgetMiddleware) (key : String) (x : Num)
    → m'.per_order_spend ≡ insert key x m.per_order_spend
    → spent_at m' key ≡ x
unfolding spent_at
spent_of_insert m m' key x e = rw (e, lookup-insert_self) refl

-- What a run does to the spend of an order, which stood at `s`: nothing, or it adds the cost `x` that
-- the call reported for the budget `b`; `b` is above zero, and `x` not above `b`.
abbrev pub IsMetered : {A : Type 0} → (Num → Outcome A) → Num → Num → Num → Type 0
IsMetered {A} invoke b s s' =
    (s' ≡ s)
    ⊎ ((v : A) × (x : Num) × (invoke b ≡ answered v x)
        × ((b ≤ₙ whole 0) ≡ false)
        × ((b <ₙ x) ≡ false)
        × (s' ≡ s +ₙ x))
