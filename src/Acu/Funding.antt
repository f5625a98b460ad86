-- ===== src/Acu/Funding.antt =====
-- Top-ups and subscription periods (shared/ledger/src/funding.ts). A thrown `RangeError` is a result.
pub mod Once
use nzela.Base.{
  ℕ, suc, ◌+◌, ◌-◌, ◌*◌, ◌/◌, Bool, true, false, not, ◌||◌, Option, none, some, String,
  if◌then◌else◌, ◌===◌,
}
use nzela.Base.Int.{pos, negsuc, ◌-ℤ◌}
use nzela.Num.{Num, nan, inf, neg_inf, fin, scale, whole, is_finite, ◌<ₙ◌, ◌≤ₙ◌}
use nzela.Dict.{Dict, has, insert}
use nzela.Ledger.{Actor, LedgerEvent, Events, write, lifecycle, Meta, grant}
use nzela.Num.Double.{quotient_double}
use nzela.Acu.{AcuWallet, top_up}
use Prim.Native.Nat.{◌^◌}
use Prim.Native.String.{◌++◌}

-- `MemoryFundingLedger`: the keys seen.
abbrev FundingLedger : Type 0
FundingLedger = Dict (Unit {0})

-- The double of `n` units of a dollar, in units of 2⁻²⁰⁰.
unfoldable usd_double : ℕ → ℕ
unfolding quotient_double
usd_double n = quotient_double (n * 2 ^ 200) scale

-- The double `USD_PER_ACU`, 0.001, in units of 2⁻⁶⁰.
abbrev usd_per_acu_double : ℕ
usd_per_acu_double = 1_152_921_504_606_847

-- `usdPaid / USD_PER_ACU` for `n` units of a dollar, in units of 2⁻¹⁴⁰: three times a number is
-- rounded to a double, so that 0.35 dollars buy 349 ACU and not 350.
unfoldable acu_double : ℕ → ℕ
unfolding quotient_double usd_double
acu_double n = quotient_double (usd_double n) usd_per_acu_double

-- The whole ACU that `n` units of a dollar buy.
unfoldable pub acu_units : ℕ → ℕ
unfolding acu_double
acu_units n = acu_double n / 2 ^ 140

-- `Math.floor(usdPaid / USD_PER_ACU)`; below 0 it rounds away from 0.
unfoldable pub acu_for_usd : Num → Num
unfolding ◌-ℤ◌ acu_units
acu_for_usd nan = nan
acu_for_usd inf = inf
acu_for_usd neg_inf = neg_inf
acu_for_usd (fin (pos n)) = whole (acu_units n)
acu_for_usd (fin (negsuc n)) =
    fin (pos 0 -ℤ pos ((acu_double (suc n) + (2 ^ 140 - 1)) / 2 ^ 140 * scale))

pub record Funds : Type 0 where
  pub wallet : AcuWallet
  pub funding : FundingLedger
  pub audit : Events

pub data FundingError : Type 0 where
  account_required txn_required bad_amount bad_top_up missing_argument : FundingError

pub data TopUpResult : Type 0 where
  threw : FundingError → TopUpResult
  done : Num → Bool → TopUpResult

pub record TopUpArgs : Type 0 where
  pub account : String
  pub funding_txn_id : String
  pub usd_paid : Num

unfoldable pub top_up_key : String → String
top_up_key txn = "topup:" ++ txn

unfoldable pub top_up_event : TopUpArgs → Num → LedgerEvent
top_up_event args acu = record {
  kind = lifecycle;
  actor = Actor.system;
  cost_usd = whole 0;
  tk_ref = none;
  meta = Meta.top_up args.account acu args.usd_paid args.funding_txn_id;
}

-- The part after the duplicate test: the key is marked before the credit.
unfoldable pub credit_top_up : Funds → TopUpArgs → Num → Funds × TopUpResult
credit_top_up s args acu =
    let marked = insert (top_up_key args.funding_txn_id) tt s.funding in
    if whole 0 <ₙ acu
    then elim (top_up s.wallet args.account acu) [
      | none ↦ (record s { funding = marked }, threw bad_top_up)
      | some wallet ↦ (
        record { wallet = wallet; funding = marked; audit = write s.audit (top_up_event args acu) },
        done acu false,
      )
    ]
    else (
      record s { funding = marked; audit = write s.audit (top_up_event args acu) },
      done acu false,
    )

unfoldable pub fund_acu_top_up : Funds → TopUpArgs → Funds × TopUpResult
fund_acu_top_up s args =
    if args.account === ""
    then (s, threw account_required)
    else if args.funding_txn_id === ""
    then (s, threw txn_required)
    else if not (is_finite args.usd_paid) || args.usd_paid ≤ₙ whole 0
    then (s, threw bad_amount)
    else if has (top_up_key args.funding_txn_id) s.funding
    then (s, done (whole 0) true)
    else credit_top_up s args (acu_for_usd args.usd_paid)

pub data SubscriptionGrant : Type 0 where
  grant_threw : FundingError → SubscriptionGrant
  granted duplicate : SubscriptionGrant

pub record GrantArgs : Type 0 where
  pub account : String
  pub plan_id : String
  pub period_key : String

-- `sub:${account}:${planId}:${periodKey}`
unfoldable pub grant_key : GrantArgs → String
grant_key args = "sub:" ++ (args.account ++ (":" ++ (args.plan_id ++ (":" ++ args.period_key))))

unfoldable pub grant_subscription_period : Funds → GrantArgs → Funds × SubscriptionGrant
grant_subscription_period s args =
    if args.account === "" || (args.plan_id === "" || args.period_key === "")
    then (s, grant_threw missing_argument)
    else if has (grant_key args) s.funding
    then (s, duplicate)
    else (
      record s {
        funding = insert (grant_key args) tt s.funding;
        audit = write s.audit (record {
          kind = lifecycle;
          actor = Actor.system;
          cost_usd = whole 0;
          tk_ref = none;
          meta = grant args.account args.plan_id args.period_key;
        });
      },
      granted,
    )
