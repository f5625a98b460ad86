-- ===== src/Referral/Once.antt =====
-- An order is credited once (backend/acquisition/src/referral.ts).
use nzela.Base.{
  ◌≡◌, sym, ap, subst, ◌∙◌, ◌⊎◌, inl, inr, true, false, Option, List, [], ◌∷◌, ◌++◌, String, arith,
  ===_refl, truthy, Bool-cases,
}
use nzela.Base.Result.{Result, ok}
use nzela.Dict.{Dict, has, insert, has-insert}
use nzela.Referral.Rewards.{eligible_ok, refused_call, eligible_call, result_cases}
use nzela.Referral.{
  ReferralConfig, QualifyingOrder, RewardOutcome, Credit, Referrals, CreditFailure, ReferralPorts,
  log_outcome, eligible, issue_credit, referrer_credit, referee_credit, reward, on_order_paid,
}

eligible_marked :
    (config : ReferralConfig) (ports : ReferralPorts) (s : Referrals) (order : QualifyingOrder)
    (code : Option String) (referrer : String)
    → has order.tk_ref s.rewarded_refs ≡ true
    → eligible config ports s order code ≡ ok referrer
    → ⊥
eligible_marked config ports s order code referrer m h =
    let d = eligible_ok config ports s order code referrer h in differ (sym m ∙ d.4)
  where
    differ : true ≡ false → ⊥
    differ e = cc

-- What the two credits of a reward leave behind, whether or not the issuer accepts them.
issue-refs :
    (ports : ReferralPorts) (s : Referrals) (c : Credit)
    (then_do : Referrals → Referrals × Result CreditFailure RewardOutcome) (k : String)
    → has k s.rewarded_refs ≡ true
    → ((t : Referrals) → has k t.rewarded_refs ≡ true → has k (then_do t).0.rewarded_refs ≡ true)
    → has k (issue_credit ports s c then_do).0.rewarded_refs ≡ true
unfolding issue_credit
issue-refs ports s c then_do k m rest = elim (Bool-cases (ports.issues s.credits c)) [
  | inl e ↦ rw e (rest (record s { credits = s.credits ++ c ∷ [] }) m)
  | inr e ↦ rw e m
]

reward-refs :
    (config : ReferralConfig) (ports : ReferralPorts) (s : Referrals) (order : QualifyingOrder)
    (referrer : String) (k : String)
    → has k (insert order.tk_ref tt s.rewarded_refs) ≡ true
    → has k (reward config ports s order referrer).0.rewarded_refs ≡ true
unfolding reward log_outcome
reward-refs config ports s order referrer k m =
    issue-refs ports (record s { rewarded_refs = insert order.tk_ref tt s.rewarded_refs })
      (referrer_credit config order referrer) _ k m
      (λ t mt. issue-refs ports t (referee_credit config order) _ k mt (λ u mu. mu))

inserted_same : (k : String) (refs : Dict (Unit {0})) → has k (insert k tt refs) ≡ true
inserted_same k refs = ground (arith, has-insert k k tt refs, ===_refl k)

inserted_kept :
    (j k : String) (refs : Dict (Unit {0})) → has k refs ≡ true → has k (insert j tt refs) ≡ true
inserted_kept j k refs m = ground (arith, has-insert j k tt refs)

module _ (config : ReferralConfig) (ports : ReferralPorts) where
  -- A paid order, with the code that brought its customer.
  unfoldable pub paid_orders : Referrals → List (QualifyingOrder × Option String) → Referrals
  paid_orders s [] = s
  paid_orders s ((order, code) ∷ rest) =
      paid_orders (on_order_paid config ports s order code).0 rest

  call-refs :
      (s : Referrals) (order : QualifyingOrder) (code : Option String) (k : String)
      → has k s.rewarded_refs ≡ true
      → has k (on_order_paid config ports s order code).0.rewarded_refs ≡ true
  unfolding log_outcome
  call-refs s order code k m = elim (result_cases (eligible config ports s order (truthy code))) [
    | inl e ↦
        subst (λ r. has k r.0.rewarded_refs ≡ true)
          (sym (refused_call config ports s order code e.0 e.1)) m
    | inr r ↦
        subst (λ q. has k q.0.rewarded_refs ≡ true)
          (sym (eligible_call config ports s order code r.0 r.1))
          (reward-refs config ports s order r.0 k (inserted_kept order.tk_ref k s.rewarded_refs m))
  ]

  calls-refs :
      (later : List (QualifyingOrder × Option String)) (s : Referrals) (k : String)
      → has k s.rewarded_refs ≡ true
      → has k (paid_orders s later).rewarded_refs ≡ true
  unfolding paid_orders
  calls-refs [] s k m = m
  calls-refs ((order, code) ∷ later) s k m =
      calls-refs later (on_order_paid config ports s order code).0 k (call-refs s order code k m)

  -- An order that is marked gets no more credits.
  marked_call :
      (s : Referrals) (order : QualifyingOrder) (code : Option String)
      → has order.tk_ref s.rewarded_refs ≡ true
      → (on_order_paid config ports s order code).0.credits ≡ s.credits
  unfolding log_outcome
  marked_call s order code m = elim (result_cases (eligible config ports s order (truthy code))) [
    | inl e ↦ ap (λ r. r.0.credits) (refused_call config ports s order code e.0 e.1)
    | inr r ↦ absurd (eligible_marked config ports s order (truthy code) r.0 m r.1)
  ]

  -- A paid order is credited once: either its call issues no credit, or no later call for an order of
  -- that reference issues one, whatever calls come between, also when the issuer failed midway.
  pub credited_once :
      (s : Referrals) (order : QualifyingOrder) (code : Option String)
      → ((on_order_paid config ports s order code).0.credits ≡ s.credits)
        ⊎ ((later : List (QualifyingOrder × Option String))
            → (again : QualifyingOrder) → (code2 : Option String) → again.tk_ref ≡ order.tk_ref
            → let w = paid_orders (on_order_paid config ports s order code).0 later in
              (on_order_paid config ports w again code2).0.credits ≡ w.credits)
  unfolding log_outcome
  credited_once s order code = elim (result_cases (eligible config ports s order (truthy code))) [
    | inl e ↦ inl (ap (λ r. r.0.credits) (refused_call config ports s order code e.0 e.1))
    | inr r ↦ inr (λ later again code2 same.
        marked_call (paid_orders (on_order_paid config ports s order code).0 later) again code2 (
          subst
            (λ k.
              has k (paid_orders (on_order_paid config ports s order code).0 later).rewarded_refs
              ≡ true)
            (sym same)
            (calls-refs later (on_order_paid config ports s order code).0 order.tk_ref
              (marked s order code r.0 r.1))))
  ]
    where
      marked :
          (s : Referrals) (order : QualifyingOrder) (code : Option String) (r : String)
          → eligible config ports s order (truthy code) ≡ ok r
          → has order.tk_ref (on_order_paid config ports s order code).0.rewarded_refs ≡ true
      marked s order code r h =
          subst (λ q. has order.tk_ref q.0.rewarded_refs ≡ true)
            (sym (eligible_call config ports s order code r h))
            (reward-refs config ports s order r order.tk_ref
              (inserted_same order.tk_ref s.rewarded_refs))
