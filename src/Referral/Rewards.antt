-- ===== src/Referral/Rewards.antt =====
-- When a referral is rewarded, and what it credits (backend/acquisition/src/referral.ts).
use nzela.Base.{
  ◌≡◌, ◌≢◌, ===_iff, refl, subst, ◌⊎◌, inl, inr, Bool, true, false, not, ◌&&◌, Option, none, some,
  [], ◌∷◌, ◌++◌, String, arith, ◌===◌, or_else, truthy, Bool-cases,
}
use nzela.Base.Result.{Result, ok, err, throw_if_ok, ok_inj}
use nzela.Num.{Num, ◌<ₙ◌, ◌≤ₙ◌}
use nzela.Dict.{has}
use nzela.Referral.{
  ReferralConfig, QualifyingOrder, RefusalReason, RewardOutcome, not_rewarded, rewarded, Referrals,
  ReferralPorts, log_outcome, known_referrer, eligible, referrer_credit, referee_credit, reward,
  on_order_paid,
}

-- What an order, its code and its referrer must be for a reward.
abbrev pub Deserves :
    ReferralConfig → ReferralPorts → Referrals → QualifyingOrder → Option String → String → Type 0
Deserves config ports s order code referrer =
    (order.paid ≡ true)
    × (order.is_first_paid_order ≡ true)
    × ((order.amount_fc <ₙ config.min_qualifying_order_fc) ≡ false)
    × ((config.reward_requires_settlement ≡ false) ⊎ (order.settled ≡ some true))
    × (has order.tk_ref s.rewarded_refs ≡ false)
    × ((c : String) × (code ≡ some c) × (ports.resolve_code c ≡ some referrer))
    × (referrer ≢ "")
    × ((referrer === order.wa_id) ≡ false)
    × ((config.max_rewards_per_referrer ≤ₙ ports.rewards_earned referrer) ≡ false)

known_referrer_ok :
    (config : ReferralConfig) (ports : ReferralPorts) (order : QualifyingOrder)
    (found : Option String) (referrer : String)
    → known_referrer config ports order found ≡ ok referrer
    → (found ≡ some referrer)
      × ((referrer === order.wa_id) ≡ false)
      × ((config.max_rewards_per_referrer ≤ₙ ports.rewards_earned referrer) ≡ false)
unfolding known_referrer
known_referrer_ok config ports order none referrer h = cc
known_referrer_ok config ports order (some r) referrer h =
    let a = throw_if_ok (r === order.wa_id) _ _ h in
    let b = throw_if_ok (config.max_rewards_per_referrer ≤ₙ ports.rewards_earned r) _ _ a.1 in
    subst
      (λ x.
        (some r ≡ some x)
        × ((x === order.wa_id) ≡ false)
        × ((config.max_rewards_per_referrer ≤ₙ ports.rewards_earned x) ≡ false))
      (ok_inj b.1) (refl, a.0, b.0)

truthy-some :
    (found : Option String) (r : String) → truthy found ≡ some r → (found ≡ some r) × (r ≢ "")
unfolding truthy
truthy-some none r h = absurd cc
truthy-some (some x) r h = elim (Bool-cases (x === "")) [
  | inl e ↦ absurd (missing (rw (e, truthy) at h))
  | inr e ↦ let same : some x ≡ some r = rw (e, truthy) at h in (same, λ q. clash e same q)
]
  where
    missing : ◌≡◌ {A = Option String} none (some r) → ⊥
    missing p = cc

    clash : (x === "") ≡ false → ◌≡◌ {A = Option String} (some x) (some r) → r ≡ "" → ⊥
    clash e same q = ground (arith, ===_iff x "")

settles :
    (required : Bool) (settled : Option Bool)
    → (required && not (or_else settled false)) ≡ false
    → (required ≡ false) ⊎ (settled ≡ some true)
settles required settled h = ground arith

pub eligible_ok :
    (config : ReferralConfig) (ports : ReferralPorts) (s : Referrals) (order : QualifyingOrder)
    (code : Option String) (referrer : String)
    → eligible config ports s order code ≡ ok referrer
    → Deserves config ports s order code referrer
unfolding eligible
eligible_ok config ports s order none referrer h = cc
eligible_ok config ports s order (some code) referrer h =
    let a = throw_if_ok (not order.paid) _ _ h in
    let b = throw_if_ok (not order.is_first_paid_order) _ _ a.1 in
    let c = throw_if_ok (order.amount_fc <ₙ config.min_qualifying_order_fc) _ _ b.1 in
    let d =
      throw_if_ok (config.reward_requires_settlement && not (or_else order.settled false)) _ _
        c.1 in
    let e = throw_if_ok (has order.tk_ref s.rewarded_refs) _ _ d.1 in
    let k = known_referrer_ok config ports order (truthy (ports.resolve_code code)) referrer e.1 in
    let (found, named) = truthy-some (ports.resolve_code code) referrer k.0 in
    (
      positive order.paid a.0,
      positive order.is_first_paid_order b.0,
      c.0,
      settles config.reward_requires_settlement order.settled d.0,
      e.0,
      (code, refl, found),
      named,
      k.1,
      k.2,
    )
  where
    positive : (b : Bool) → not b ≡ false → b ≡ true
    positive b p = ground arith

pub result_cases :
    (r : Result RefusalReason String)
    → ((e : RefusalReason) × (r ≡ err e)) ⊎ ((a : String) × (r ≡ ok a))
result_cases (ok a) = inr (a, refl)
result_cases (err e) = inl (e, refl)

module _ (config : ReferralConfig) (ports : ReferralPorts) where
  pub refused_call :
      (s : Referrals) (order : QualifyingOrder) (code : Option String) (e : RefusalReason)
      → eligible config ports s order (truthy code) ≡ err e
      → on_order_paid config ports s order code ≡ log_outcome s (not_rewarded e)
  unfolding on_order_paid
  refused_call s order code e h = cc

  pub eligible_call :
      (s : Referrals) (order : QualifyingOrder) (code : Option String) (r : String)
      → eligible config ports s order (truthy code) ≡ ok r
      → on_order_paid config ports s order code ≡ reward config ports s order r
  unfolding on_order_paid
  eligible_call s order code r h = cc

-- The two credits of a reward, in their order.
abbrev pub Credited :
    ReferralConfig → Referrals → QualifyingOrder → String → Referrals → RewardOutcome → Type 0
Credited config s order referrer t outcome =
    (t.credits
      ≡ (s.credits ++ referrer_credit config order referrer ∷ [])
        ++ referee_credit config order ∷ [])
    × (outcome ≡ rewarded referrer config.referrer_reward_fc order.wa_id config.referee_reward_fc)
