-- ===== src/Acu/Budget/Gate.antt =====
-- The ACU gate of shared/ledger/src/budget.ts: what a call holds while it runs, and what it pays.
use nzela.Base.{
  ℕ, ◌+◌, ◌-◌, ◌*◌, ◌/◌, ◌≤◌, ◌≡◌, refl, ◌≢◌, Bool, true, false, none, some, String, arith, or_else,
  ===_iff, not, truthy,
}
use nzela.Num.{Num, scale, is_finite, ◌<ₙ◌, ◌≤ₙ◌}
use nzela.Num.Laws.{amount}
use nzela.Ledger.{AgentId}
use nzela.Acu.{
  usd_per_acu, acu_multiplier, usd_to_acu, balance, refuses, add_hold, reserve, commit, release,
}
use nzela.Acu.Budget.{
  BudgetMiddleware, AgentCallContext, Ticket, Outcome, failed, answered, remaining_for, gate, begin,
  finish, release_hold, meter_order, settle, log_event,
}

-- The ACU price of `n` units of a dollar, in units.
abbrev pub price : ℕ → AgentId → ℕ
price n agent = (n * acu_multiplier agent + (usd_per_acu - 1)) / usd_per_acu * scale

pub usd_to_acu-amount :
    (n : ℕ) (agent : AgentId) → usd_to_acu (amount n) agent ≡ amount (price n agent)
unfolding usd_to_acu
usd_to_acu-amount n agent = refl

pub price_mono : (n m : ℕ) (agent : AgentId) → n ≤ m → price n agent ≤ price m agent
unfolding acu_multiplier
price_mono n m agent h = ground arith

pub usd_to_acu-finite :
    (x : Num) (agent : AgentId) (k : ℕ) → usd_to_acu x agent ≡ amount k → is_finite x ≡ true
unfolding usd_to_acu is_finite
usd_to_acu-finite x agent k h = ground arith

-- The account that a call is billed to.
abbrev pub billed : BudgetMiddleware → AgentCallContext → String → String
billed m ctx default_account = or_else ctx.account default_account

-- What the gate did when it let a call through.
pub record Held (m : BudgetMiddleware) (agent : AgentId) (a : String) (m' : BudgetMiddleware)
    (t : Ticket) : Type 0 where
  pub covered : refuses (balance m.wallet a) (usd_to_acu t.remaining agent) ≡ false
  pub wallet_eq : m'.wallet ≡ add_hold m.wallet a (usd_to_acu t.remaining agent)
  pub spend_eq : m'.per_order_spend ≡ m.per_order_spend
  pub gating_eq : m'.gating ≡ m.gating
  pub account_eq : t.account ≡ some a
  pub reserved_eq : t.reserved ≡ usd_to_acu t.remaining agent

gate-Held :
    (m : BudgetMiddleware) (agent : AgentId) (ctx : AgentCallContext) (d : String) (x : Num)
    {m' : BudgetMiddleware} {t : Ticket}
    → m.gating ≡ some d
    → gate m agent ctx x ≡ (m', some t)
    → (t.remaining ≡ x) × Held m agent (billed m ctx d) m' t
unfolding gate reserve
gate-Held m agent ctx d x g e = ground arith

-- A call that is let through under gating.
pub begin-Held :
    (m : BudgetMiddleware) (agent : AgentId) (ctx : AgentCallContext) (d : String)
    {m' : BudgetMiddleware} {t : Ticket}
    → m.gating ≡ some d
    → begin m agent ctx ≡ (m', some t)
    → (t.remaining ≡ remaining_for m agent ctx)
      × ((t.remaining ≤ₙ amount 0) ≡ false)
      × Held m agent (billed m ctx d) m' t
unfolding begin
begin-Held m agent ctx d {m'} {t} g e =
    ground (arith, gate-Held m agent ctx d (remaining_for m agent ctx) {m' = m'} {t = t})

-- A call that is not let through leaves the wallet and the spends.
pub begin_refused :
    (m : BudgetMiddleware) (agent : AgentId) (ctx : AgentCallContext) {m' : BudgetMiddleware}
    → begin m agent ctx ≡ (m', none)
    → (m'.wallet ≡ m.wallet) × (m'.per_order_spend ≡ m.per_order_spend) × (m'.gating ≡ m.gating)
unfolding begin gate reserve log_event
begin_refused m agent ctx e = ground arith

truthy-some : (a : String) → a ≢ "" → truthy (some a) ≡ some a
unfolding truthy
truthy-some a ne = ground (arith, ===_iff a "")

-- Whether `finish` uses an outcome: no exception, and no spend above the call's budget.
abbrev pub keeps : {A : Type 0} → Ticket → Outcome A → Bool
keeps t failed = false
keeps t (answered v x) = not (t.remaining <ₙ x)

module _ {A : Type 0} (m : BudgetMiddleware) (agent : AgentId) (ctx : AgentCallContext) (t : Ticket)
    (a : String) (account_eq : t.account ≡ some a) (named : a ≢ "") where
  -- What is dropped gives its hold back, and meters nothing.
  pub finish_dropped :
      (o : Outcome A)
      → keeps t o ≡ false
      → ((finish m agent ctx t o).1 ≡ none)
        × ((finish m agent ctx t o).0.wallet ≡ release m.wallet a t.reserved)
        × ((finish m agent ctx t o).0.per_order_spend ≡ m.per_order_spend)
  unfolding finish log_event release_hold
  finish_dropped failed k = ground (arith, truthy-some a named)
  finish_dropped (answered v x) k = ground (arith, truthy-some a named)

  -- What is kept pays out of its hold.
  pub finish_kept :
      (v : A) (x : Num)
      → keeps t (answered v x) ≡ true
      → ((finish m agent ctx t (answered v x)).1 ≡ some v)
        × ((finish m agent ctx t (answered v x)).0.wallet
            ≡ commit m.wallet a t.reserved (usd_to_acu x agent))
        × ((finish m agent ctx t (answered v x)).0.per_order_spend
            ≡ (meter_order m agent ctx x).per_order_spend)
  unfolding finish settle log_event meter_order
  finish_kept v x k = ground (arith, truthy-some a named)
