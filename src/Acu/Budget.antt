-- ===== src/Acu/Budget.antt =====
-- The budget middleware (shared/ledger/src/budget.ts). `run` waits once, for the invocation: what it
-- does before is `begin`, what it does after is `finish`, so that calls can overlap.
pub mod Caps
pub mod Gate
pub mod Payment
pub mod Overlap
use nzela.Base.{Bool, true, false, Option, none, some, List, String, or_else, if◌then◌else◌, truthy}
use nzela.Num.{Num, whole, ◌<ₙ◌, ◌≤ₙ◌, ◌+ₙ◌, ◌-ₙ◌, min_num}
use nzela.Dict.{Dict, lookup, insert}
use nzela.Ledger.{
  AgentId, router, commande, adresse, lipa, cuisine_sync, wewa_dispatch, litige, mama_upsell, seo,
  growth, sentinelle, Actor, LedgerEvent, Events, write, free_event, ai, budget_exhausted,
  acu_gated, gated, debit, no_meta,
}
use nzela.Ledger.Registry.{agent_registry}
use nzela.Acu.{AcuWallet, usd_to_acu, ledger_acu_debit, reserve, commit, release}
use Prim.Native.String.{◌++◌}

pub record AgentCallContext : Type 0 where
  pub tk_ref : Option String
  pub account : Option String

-- `BudgetMiddleware`. `gating` is the default account, when ACU gating is set.
pub record BudgetMiddleware : Type 0 where
  pub per_order_spend : Dict Num
  pub gating : Option String
  pub wallet : AcuWallet
  pub ledger : Events

-- The text of an id, as template literals print it.
unfoldable agent_text : AgentId → String
agent_text router = "router"
agent_text commande = "commande"
agent_text adresse = "adresse"
agent_text lipa = "lipa"
agent_text cuisine_sync = "cuisine-sync"
agent_text wewa_dispatch = "wewa-dispatch"
agent_text litige = "litige"
agent_text mama_upsell = "mama-upsell"
agent_text seo = "seo"
agent_text growth = "growth"
agent_text sentinelle = "sentinelle"

-- `${agent}:${tkRef}`
unfoldable spend_key : AgentId → String → String
unfolding agent_text
spend_key agent tk = agent_text agent ++ (":" ++ tk)

unfoldable pub order_key : AgentId → AgentCallContext → Option String
unfolding truthy spend_key
order_key agent ctx = elim (truthy ctx.tk_ref) [ none ↦ none | some tk ↦ some (spend_key agent tk) ]

unfoldable pub spent_at : BudgetMiddleware → String → Num
spent_at m key = or_else (lookup key m.per_order_spend) (whole 0)

unfoldable spent_on_order : BudgetMiddleware → AgentId → String → Num
unfolding spent_at spend_key
spent_on_order m agent tk = spent_at m (spend_key agent tk)

unfoldable pub remaining_for : BudgetMiddleware → AgentId → AgentCallContext → Num
unfolding order_key spent_at
remaining_for m agent ctx =
    let spec = agent_registry agent in
    elim (order_key agent ctx) [
      | none ↦ spec.budget_per_call_usd
      | some key ↦ elim (spec.budget_per_order_usd) [
        | none ↦ spec.budget_per_call_usd
        | some cap ↦ min_num spec.budget_per_call_usd (cap -ₙ spent_at m key)
      ]
    ]

-- A call that may be made: its budget, and the account and hold that stand for it.
pub record Ticket : Type 0 where
  pub remaining : Num
  pub account : Option String
  pub reserved : Num

unfoldable pub log_event : BudgetMiddleware → LedgerEvent → BudgetMiddleware
log_event m e = record m { ledger = write m.ledger e }

-- The ACU gate.
unfoldable pub gate :
    BudgetMiddleware → AgentId → AgentCallContext → Num → BudgetMiddleware × Option Ticket
gate m agent ctx remaining = elim (m.gating) [
  | none ↦ (m, some (record { remaining = remaining; account = none; reserved = whole 0 }))
  | some default_account ↦
      let account = or_else ctx.account default_account in
      let max_acu = usd_to_acu remaining agent in
      let (wallet, res) = reserve m.wallet account max_acu in
      if res.ok
      then (
        record m { wallet = wallet },
        some (record { remaining = remaining; account = some account; reserved = res.reserved }),
      )
      else (
        log_event (record m { wallet = wallet })
            (record {
              kind = acu_gated;
              actor = Actor.agent agent;
              cost_usd = whole 0;
              tk_ref = ctx.tk_ref;
              meta = gated account max_acu res.balance_after;
            }),
        none,
      )
]

-- Up to the `await`; `none` is the fallback.
unfoldable pub begin :
    BudgetMiddleware → AgentId → AgentCallContext → BudgetMiddleware × Option Ticket
begin m agent ctx =
    let remaining = remaining_for m agent ctx in
    if remaining ≤ₙ whole 0
    then (log_event m (free_event budget_exhausted (Actor.agent agent) ctx.tk_ref), none)
    else gate m agent ctx remaining

-- What `await invoke(remaining)` gives: a value and the spend it reports, or an exception.
pub data Outcome (A : Type 0) : Type 0 where
  failed : Outcome A
  answered : A → Num → Outcome A

-- The account to settle: `this.acu && account`, where an empty text counts as missing.
unfoldable pub release_hold : BudgetMiddleware → Ticket → BudgetMiddleware
unfolding truthy
release_hold m t = elim (truthy t.account) [
  | none ↦ m
  | some account ↦ record m { wallet = release m.wallet account t.reserved }
]

unfoldable pub meter_order : BudgetMiddleware → AgentId → AgentCallContext → Num → BudgetMiddleware
unfolding order_key spent_at
meter_order m agent ctx cost = elim (order_key agent ctx) [
  | none ↦ m
  | some key ↦ record m { per_order_spend = insert key (spent_at m key +ₙ cost) m.per_order_spend }
]

unfoldable pub settle :
    BudgetMiddleware → AgentId → AgentCallContext → Ticket → Num → BudgetMiddleware
settle m agent ctx t cost = elim (truthy t.account) [
  | none ↦ log_event m (record {
    kind = ai;
    actor = Actor.agent agent;
    cost_usd = cost;
    tk_ref = ctx.tk_ref;
    meta = no_meta;
  })
  | some account ↦
      let actual_acu = usd_to_acu cost agent in
      log_event (record m { wallet = commit m.wallet account t.reserved actual_acu })
        (ledger_acu_debit agent account actual_acu ctx.tk_ref)
]

-- After the `await`; `none` is the fallback.
unfoldable pub finish :
    {A : Type 0}
    → BudgetMiddleware
    → AgentId
    → AgentCallContext
    → Ticket
    → Outcome A
    → BudgetMiddleware × Option A
finish m agent ctx t failed = (
  log_event (release_hold m t) (free_event budget_exhausted (Actor.agent agent) ctx.tk_ref),
  none,
)
finish m agent ctx t (answered value cost) =
    if t.remaining <ₙ cost
    then (
      log_event (release_hold m t) (free_event budget_exhausted (Actor.agent agent) ctx.tk_ref),
      none,
    )
    else (settle (meter_order m agent ctx cost) agent ctx t cost, some value)

-- `run`, when no other call overlaps.
unfoldable pub run :
    {A : Type 0}
    → BudgetMiddleware
    → AgentId
    → AgentCallContext
    → (Num → Outcome A)
    → A
    → BudgetMiddleware × A
run m agent ctx invoke fallback =
    let (m', ticket) = begin m agent ctx in
    elim ticket [
      | none ↦ (m', fallback)
      | some t ↦
          let (m'', value) = finish m' agent ctx t (invoke t.remaining) in
          (m'', or_else value fallback)
    ]
