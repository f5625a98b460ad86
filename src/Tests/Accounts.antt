-- ===== src/Tests/Accounts.antt =====
-- The wallet, the budgets and the funding at concrete inputs (shared/ledger/src/acu.ts, budget.ts,
-- funding.ts).
use nzela.Base.{
  ℕ, ◌*◌, ◌≡◌, refl, ◌≢◌, true, false, none, some, List, [], ◌∷◌, String, arith, ◌===◌, ===_iff,
  truthy,
}
use nzela.Num.{
  Num, nan, inf, whole, scale, is_finite, ◌≤ₙ◌, ◌<ₙ◌, ◌=ₙ◌, ◌+ₙ◌, ◌-ₙ◌, negate, min_num, is_nan,
  is_integer,
}
use nzela.Num.Laws.{amount}
use nzela.Base.Int.{◌+ℤ◌, ◌-ℤ◌}
use nzela.Dict.{lookup, has}
use nzela.Ledger.{router, litige}
use nzela.Ledger.Registry.{agent_registry}
use nzela.Acu.{AcuWallet, owned, hold, balance, credit, top_up, reserve, commit, release}
use nzela.Acu.Wallet.{HasAccount}
use nzela.Acu.Soundness.{WalletOp, apply_ops, settle_exact}
use nzela.Acu.Budget.{
  BudgetMiddleware, AgentCallContext, Ticket, Outcome, answered, order_key, spent_at, begin, gate,
  finish, run, remaining_for,
}
use nzela.Acu.Budget.Payment.{Pays, run-Pays}
use nzela.Acu.Soundness.{topping}
use nzela.Acu.Budget.Overlap.{overlap_adds_up, nan_spend_opens}
use nzela.Acu.Funding.{
  Funds, TopUpArgs, done, GrantArgs, granted, fund_acu_top_up, credit_top_up,
  grant_subscription_period, acu_for_usd, acu_units, top_up_key, grant_key,
}
use nzela.Acu.Funding.Once.{FundingCall, apply_calls, top_up_once, top_up-credits}

-- 100 ACU on the house's account.
abbrev house_wallet : AcuWallet
house_wallet = record { balances = ("house", whole 100) ∷ []; held = [] }

house-HasAccount : HasAccount house_wallet "house" (100 * scale) 0
unfolding owned hold lookup ◌===◌
house-HasAccount = record { owned_eq = refl; hold_eq = refl; within = omega arith }

house_named : ◌≢◌ {A = String} "house" ""
unfolding ◌===◌
house_named = ground (arith, ===_iff "house" "")

abbrev house_middleware : BudgetMiddleware
house_middleware = record {
  per_order_spend = [];
  gating = some "house";
  wallet = house_wallet;
  ledger = [];
}

abbrev dispute : AgentCallContext
dispute = record { tk_ref = some "TK-1"; account = none }

-- A model that reports two thousandths of a dollar.
abbrev answer : Num → Outcome ℕ
answer budget = answered 7 (amount 2_000)

house_balance : balance house_wallet "house" ≡ amount (100 * scale)
unfolding balance owned hold lookup ◌===◌ ◌-ₙ◌ ◌+ₙ◌ negate ◌+ℤ◌ ◌-ℤ◌
house_balance = refl

run-Pays_example :
    Pays
      (answer (remaining_for house_middleware litige dispute))
      litige
      "house"
      (100 * scale)
      0
      (run house_middleware litige dispute answer 0)
run-Pays_example =
    run-Pays house_middleware litige dispute answer 0 "house" (100 * scale) refl house_named
      (100 * scale, 0, house-HasAccount) house_balance (λ b. (2_000, refl))

inf_counts : is_nan inf ≡ false
unfolding is_nan
inf_counts = refl

-- A commit of more than was held, and a release of what was never held.
abbrev stray_calls : List WalletOp
stray_calls =
    WalletOp.topping "a" (whole 5)
    ∷ WalletOp.reserving "a" (whole 3)
    ∷ WalletOp.committing "a" (9 * scale) inf inf_counts
    ∷ WalletOp.releasing "a" (4 * scale)
    ∷ []

dispute_key : order_key litige dispute ≡ some "litige:TK-1"
unfolding order_key truthy ◌===◌
dispute_key = refl

unspent : spent_at house_middleware "litige:TK-1" ≡ amount 0
unfolding spent_at lookup
unspent = refl

router_budget : (agent_registry router).budget_per_call_usd ≡ amount 0
unfolding agent_registry
router_budget = refl

settle_exact_example :
    let w' = (reserve house_wallet "house" (whole 30)).0 in
    (balance (release w' "house" (whole 30)) "house" ≡ whole 100)
    × (balance (commit w' "house" (whole 30) (whole 20)) "house" ≡ whole 80)
settle_exact_example =
    settle_exact house_wallet "house" (100 * scale) (30 * scale) (20 * scale)
      (100 * scale, 0, house-HasAccount) house_balance (omega arith) (omega arith) (omega arith)

-- A middleware without gating, and its ticket for a dispute.
abbrev free_middleware : BudgetMiddleware
free_middleware = record house_middleware { gating = none }

abbrev free_ticket : Ticket
free_ticket = record { remaining = amount 10_000; account = none; reserved = whole 0 }

free_begun : begin free_middleware litige dispute ≡ (free_middleware, some free_ticket)
unfolding begin gate remaining_for agent_registry order_key spent_at lookup truthy ◌===◌ ◌≤ₙ◌
    min_num ◌-ₙ◌ ◌+ₙ◌ negate ◌+ℤ◌ ◌-ℤ◌
free_begun = refl

free_unspent : spent_at free_middleware "litige:TK-1" ≡ amount 0
unfolding spent_at lookup
free_unspent = refl

overlap_adds_up_example :
    let (m3, _) =
      finish {A = ℕ} free_middleware litige dispute free_ticket (answered 1 (amount 10_000)) in
    spent_at
      (finish {A = ℕ} m3 litige dispute free_ticket (answered 2 (amount 10_000))).0
      "litige:TK-1"
    ≡ amount 20_000
overlap_adds_up_example =
    overlap_adds_up {A = ℕ} free_middleware free_middleware free_middleware dispute free_ticket
      free_ticket "litige:TK-1" 1 2 10_000 10_000 dispute_key free_unspent free_begun free_begun
      (omega arith) (omega arith)

abbrev house_ticket : Ticket
house_ticket = record { remaining = amount 10_000; account = some "house"; reserved = whole 10 }

large_request : (is_finite (whole 900) ≡ true) × ((whole 900 ≤ₙ amount 0) ≡ false)
unfolding is_finite ◌≤ₙ◌
large_request = (refl, refl)

nan_spend_opens_example :
    let (m', answer) =
      finish {A = ℕ} house_middleware litige dispute house_ticket (answered 7 nan) in
    (answer ≡ some 7)
    × ((reserve (apply_ops m'.wallet (topping "house" (whole 5) ∷ [])) "house" (whole 900)).1.ok
        ≡ true)
nan_spend_opens_example =
    nan_spend_opens {A = ℕ} house_middleware litige dispute house_ticket "house" 7 (whole 900) refl
      house_named large_request.0 large_request.1 (topping "house" (whole 5) ∷ [])

abbrev house_funds : Funds
house_funds = record { wallet = house_wallet; funding = []; audit = [] }

abbrev first_payment : TopUpArgs
first_payment = record { account = "house"; funding_txn_id = "MP1"; usd_paid = amount 2_500 }

abbrev same_payment : TopUpArgs
same_payment = record { account = "b"; funding_txn_id = "MP1"; usd_paid = whole 9 }

first_taken : (fund_acu_top_up house_funds first_payment).1 ≡ done (whole 2) false
unfolding fund_acu_top_up credit_top_up top_up credit ◌===◌ is_finite is_integer ◌≤ₙ◌ ◌<ₙ◌ ◌=ₙ◌ has
    lookup acu_for_usd top_up_key
first_taken = refl

top_up_once_example :
    let s' =
      apply_calls
        (fund_acu_top_up house_funds first_payment).0
        (FundingCall.topping same_payment ∷ []) in
    ((fund_acu_top_up s' same_payment).0 ≡ s')
    × ((acu' : Num) → (fund_acu_top_up s' same_payment).1 ≢ done acu' false)
top_up_once_example =
    top_up_once house_funds first_payment same_payment (whole 2)
      (FundingCall.topping same_payment ∷ []) first_taken refl

abbrev november : GrantArgs
november = record { account = "house"; plan_id = "pro"; period_key = "2026-11" }

november_granted : (grant_subscription_period house_funds november).1 ≡ granted
unfolding grant_subscription_period ◌===◌ has lookup grant_key
november_granted = refl

payment_named : ◌≢◌ {A = String} "MP1" ""
unfolding ◌===◌
payment_named = ground (arith, ===_iff "MP1" "")

fresh_payment : has (top_up_key "MP1") house_funds.funding ≡ false
unfolding has lookup
fresh_payment = refl

-- 0.35 dollars buy 350 ACU, and the division gives one less.
lost_acu : acu_units 350_000 ≡ 349
unfolding acu_units
lost_acu = refl

top_up-credits_example :
    let (s', r) = fund_acu_top_up house_funds first_payment in
    (r ≡ done (whole 2) false) × (balance s'.wallet "house" ≡ whole 102)
unfolding acu_units
top_up-credits_example =
    top_up-credits house_funds first_payment 2_500 (100 * scale) 0 house_named payment_named refl
      (omega arith) fresh_payment house-HasAccount
