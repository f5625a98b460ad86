-- ===== src/Referral.antt =====
-- Rewards for referrals (backend/acquisition/src/referral.ts): the engine, its idempotency guard and
-- the credits it has issued. The two resolvers and the issuer of credits are parameters.
pub mod Rewards
pub mod Once
use nzela.Base.{
  Bool, true, false, not, ◌&&◌, Option, none, some, List, [], ◌∷◌, ◌++◌, String, ◌===◌, or_else,
  truthy, if◌then◌else◌,
}
use nzela.Base.Result.{Result, ok, err, ◌>>=◌, ◌>>◌, throw_if}
use nzela.Num.{Num, whole, ◌<ₙ◌, ◌≤ₙ◌}
use nzela.Dict.{Dict, has, insert}
use nzela.Ledger.{Actor, growth, lifecycle, Events, write, free_event}
use Prim.Native.String.{◌++◌ as str_append}

pub record ReferralConfig : Type 0 where
  pub referrer_reward_fc : Num
  pub referee_reward_fc : Num
  pub max_rewards_per_referrer : Num
  pub min_qualifying_order_fc : Num
  pub reward_requires_settlement : Bool

abbrev pub default_referral : ReferralConfig
default_referral = record {
  referrer_reward_fc = whole 2_000;
  referee_reward_fc = whole 2_000;
  max_rewards_per_referrer = whole 20;
  min_qualifying_order_fc = whole 5_000;
  reward_requires_settlement = true;
}

pub record QualifyingOrder : Type 0 where
  pub wa_id : String
  pub tk_ref : String
  pub amount_fc : Num
  pub paid : Bool
  pub is_first_paid_order : Bool
  pub settled : Option Bool

pub data RefusalReason : Type 0 where
  not_referred not_first_order unpaid below_minimum referrer_cap unknown_referrer : RefusalReason
  self_referral not_settled already_rewarded : RefusalReason

pub data RewardOutcome : Type 0 where
  not_rewarded : RefusalReason → RewardOutcome
  -- the referrer and its reward, the referee and its reward
  rewarded : String → Num → String → Num → RewardOutcome

-- A call of `issueCredit`.
pub record Credit : Type 0 where
  pub wa_id : String
  pub amount_fc : Num
  pub reason : String

-- The engine's state, with the credits that the issuer has accepted.
pub record Referrals : Type 0 where
  pub rewarded_refs : Dict (Unit {0})
  pub credits : List Credit
  pub ledger : Events

-- An error that the issuer throws.
pub data CreditFailure : Type 0 where
  credit_failed : Credit → CreditFailure

-- `resolveCode`, `rewardsEarned`, and whether the issuer accepts one more credit.
pub record ReferralPorts : Type 0 where
  pub resolve_code : String → Option String
  pub rewards_earned : String → Num
  pub issues : List Credit → Credit → Bool

unfoldable pub log_outcome :
    Referrals → RewardOutcome → Referrals × Result CreditFailure RewardOutcome
log_outcome s outcome = (
  record s { ledger = write s.ledger (free_event lifecycle (Actor.agent growth) none) },
  ok outcome,
)

-- The guards of `onOrderPaid`, in their order: the referrer, or why there is no reward.
unfoldable pub known_referrer :
    ReferralConfig → ReferralPorts → QualifyingOrder → Option String → Result RefusalReason String
known_referrer config ports order none = err unknown_referrer
known_referrer config ports order (some referrer) =
    throw_if (referrer === order.wa_id) self_referral
    >> (throw_if (config.max_rewards_per_referrer ≤ₙ ports.rewards_earned referrer) referrer_cap
        >> ok referrer)

unfoldable pub eligible :
    ReferralConfig
    → ReferralPorts
    → Referrals
    → QualifyingOrder
    → Option String
    → Result RefusalReason String
eligible config ports s order none = err not_referred
eligible config ports s order (some code) =
    throw_if (not order.paid) unpaid
    >> (throw_if (not order.is_first_paid_order) not_first_order
        >> (throw_if (order.amount_fc <ₙ config.min_qualifying_order_fc) below_minimum
            >> (throw_if (config.reward_requires_settlement && not (or_else order.settled false))
                  not_settled
                >> (throw_if (has order.tk_ref s.rewarded_refs) already_rewarded
                    >> known_referrer config ports order (truthy (ports.resolve_code code))))))

-- One credit, then the rest of the call.
unfoldable pub issue_credit :
    ReferralPorts
    → Referrals
    → Credit
    → (Referrals → Referrals × Result CreditFailure RewardOutcome)
    → Referrals × Result CreditFailure RewardOutcome
issue_credit ports s c then_do =
    if ports.issues s.credits c
    then then_do (record s { credits = s.credits ++ c ∷ [] })
    else (s, err (credit_failed c))

unfoldable pub referrer_credit : ReferralConfig → QualifyingOrder → String → Credit
referrer_credit config order referrer = record {
  wa_id = referrer;
  amount_fc = config.referrer_reward_fc;
  reason = str_append "parrainage " order.tk_ref;
}

unfoldable pub referee_credit : ReferralConfig → QualifyingOrder → Credit
referee_credit config order = record {
  wa_id = order.wa_id;
  amount_fc = config.referee_reward_fc;
  reason = str_append "bienvenue " order.tk_ref;
}

-- The part of `onOrderPaid` after its guards: the order is marked, then the credits are issued.
unfoldable pub reward :
    ReferralConfig
    → ReferralPorts
    → Referrals
    → QualifyingOrder
    → String
    → Referrals × Result CreditFailure RewardOutcome
reward config ports s order referrer =
    issue_credit ports (record s { rewarded_refs = insert order.tk_ref tt s.rewarded_refs })
      (referrer_credit config order referrer)
      (λ s2. issue_credit ports s2 (referee_credit config order) (λ s3.
        log_outcome s3
          (rewarded referrer config.referrer_reward_fc order.wa_id config.referee_reward_fc)))

unfoldable pub on_order_paid :
    ReferralConfig
    → ReferralPorts
    → Referrals
    → QualifyingOrder
    → Option String
    → Referrals × Result CreditFailure RewardOutcome
on_order_paid config ports s order code = elim (eligible config ports s order (truthy code)) [
  | err reason ↦ log_outcome s (not_rewarded reason)
  | ok referrer ↦ reward config ports s order referrer
]
