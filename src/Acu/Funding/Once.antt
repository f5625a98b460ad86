-- ===== src/Acu/Funding/Once.antt =====
-- What funding promises (shared/ledger/src/funding.ts): a credit as reported, and one credit for a
-- transaction.
use nzela.Base.{
  ℕ, ◌+◌, ◌-◌, ◌*◌, ◌<◌, ◌≡◌, refl, ap, ◌∙◌, ◌≢◌, inl, inr, Bool, true, false, some, List, [], ◌∷◌,
  String, arith, ===_iff, ===_refl, ltb, Bool-cases,
}
use nzela.Num.{Num, scale, is_finite, is_integer, ◌≤ₙ◌}
use nzela.Num.Laws.{amount, amount-lt, amount-le}
use nzela.Dict.{has, has-insert}
use nzela.Acu.{AcuWallet, balance, credit, top_up}
use nzela.Acu.Wallet.{HasAccount, balance_of_HasAccount, credit_self}
use nzela.Acu.Funding.{
  Funds, TopUpArgs, done, GrantArgs, granted, acu_for_usd, acu_units, top_up_key, credit_top_up,
  fund_acu_top_up, grant_key, grant_subscription_period,
}

-- A call on the funding module.
pub data FundingCall : Type 0 where
  topping : TopUpArgs → FundingCall
  granting : GrantArgs → FundingCall

unfoldable pub apply_call : Funds → FundingCall → Funds
apply_call s (topping args) = (fund_acu_top_up s args).0
apply_call s (granting args) = (grant_subscription_period s args).0

unfoldable pub apply_calls : Funds → List FundingCall → Funds
apply_calls s [] = s
apply_calls s (c ∷ cs) = apply_calls (apply_call s c) cs

-- No call forgets a key.
has-top_up :
    (s : Funds) (args : TopUpArgs) (k : String)
    → has k s.funding ≡ true
    → has k (fund_acu_top_up s args).0.funding ≡ true
unfolding fund_acu_top_up credit_top_up
has-top_up s args k h = ground (arith, has-insert (top_up_key args.funding_txn_id) k tt s.funding)

has-grant :
    (s : Funds) (args : GrantArgs) (k : String)
    → has k s.funding ≡ true
    → has k (grant_subscription_period s args).0.funding ≡ true
unfolding grant_subscription_period
has-grant s args k h = ground (arith, has-insert (grant_key args) k tt s.funding)

has-apply_calls :
    (s : Funds) (cs : List FundingCall) (k : String)
    → has k s.funding ≡ true
    → has k (apply_calls s cs).funding ≡ true
unfolding apply_calls apply_call
has-apply_calls s [] k h = h
has-apply_calls s (topping args ∷ cs) k h =
    has-apply_calls (fund_acu_top_up s args).0 cs k (has-top_up s args k h)
has-apply_calls s (granting args ∷ cs) k h =
    has-apply_calls (grant_subscription_period s args).0 cs k (has-grant s args k h)

marks :
    (s : Funds) (args : TopUpArgs) (acu : Num) (dup : Bool)
    → (fund_acu_top_up s args).1 ≡ done acu dup
    → has (top_up_key args.funding_txn_id) (fund_acu_top_up s args).0.funding ≡ true
unfolding fund_acu_top_up credit_top_up
marks s args acu dup h = ground (
  arith,
  has-insert (top_up_key args.funding_txn_id) (top_up_key args.funding_txn_id) tt s.funding,
  ===_refl (top_up_key args.funding_txn_id),
)

known_key :
    (s : Funds) (args : TopUpArgs)
    → has (top_up_key args.funding_txn_id) s.funding ≡ true
    → ((fund_acu_top_up s args).0 ≡ s)
      × ((acu : Num) → (fund_acu_top_up s args).1 ≡ done acu false → ⊥)
unfolding fund_acu_top_up
known_key s args h = (ground arith, λ acu e. ground arith)

-- A transaction funds once. After a top-up that was taken, and any further calls on the funding
-- module, a top-up with the same transaction id, for whatever account and amount, changes nothing
-- and is not a credit.
pub top_up_once :
    (s : Funds) (args args' : TopUpArgs) (acu : Num) (calls : List FundingCall)
    → (fund_acu_top_up s args).1 ≡ done acu false
    → args'.funding_txn_id ≡ args.funding_txn_id
    → let s' = apply_calls (fund_acu_top_up s args).0 calls in
      ((fund_acu_top_up s' args').0 ≡ s')
      × ((acu' : Num) → (fund_acu_top_up s' args').1 ≢ done acu' false)
top_up_once s args args' acu calls e same =
    known_key _ args'
      (rw same (has-apply_calls (fund_acu_top_up s args).0 calls _ (marks s args acu false e)))

grant_marks :
    (s : Funds) (args : GrantArgs)
    → (grant_subscription_period s args).1 ≡ granted
    → has (grant_key args) (grant_subscription_period s args).0.funding ≡ true
unfolding grant_subscription_period
grant_marks s args e =
    ground
      (arith, has-insert (grant_key args) (grant_key args) tt s.funding, ===_refl (grant_key args))

grant_known :
    (s : Funds) (args : GrantArgs)
    → has (grant_key args) s.funding ≡ true
    → ((grant_subscription_period s args).0 ≡ s) × ((grant_subscription_period s args).1 ≢ granted)
unfolding grant_subscription_period
grant_known s args h = (ground arith, λ e. ground arith)

-- A subscription period is granted once: after a grant and any further calls on the funding module,
-- a grant of the same account, plan and period changes nothing and is no grant.
grant_once :
    (s : Funds) (args : GrantArgs) (calls : List FundingCall)
    → (grant_subscription_period s args).1 ≡ granted
    → let s' = apply_calls (grant_subscription_period s args).0 calls in
      ((grant_subscription_period s' args).0 ≡ s')
      × ((grant_subscription_period s' args).1 ≢ granted)
grant_once s args calls e = grant_known _ args (has-apply_calls _ calls _ (grant_marks s args e))

acu_for_usd-amount : (n : ℕ) → acu_for_usd (amount n) ≡ amount (acu_units n * scale)
unfolding acu_for_usd
acu_for_usd-amount n = refl

whole_is_integer : (n : ℕ) → is_integer (amount (n * scale)) ≡ true
unfolding is_integer
whole_is_integer n = ground arith

whole_top_up :
    (w : AcuWallet) (a : String) (n : ℕ)
    → 0 < n
    → top_up w a (amount (n * scale)) ≡ some (credit w a (amount (n * scale)))
unfolding top_up
whole_top_up w a n p = ground (arith, whole_is_integer n, amount-le (n * scale) 0)

-- The parts of `fund_acu_top_up` for valid arguments and a new transaction.
fresh_top_up :
    (s : Funds) (args : TopUpArgs)
    → args.account ≢ ""
    → args.funding_txn_id ≢ ""
    → is_finite args.usd_paid ≡ true
    → (args.usd_paid ≤ₙ amount 0) ≡ false
    → has (top_up_key args.funding_txn_id) s.funding ≡ false
    → fund_acu_top_up s args ≡ credit_top_up s args (acu_for_usd args.usd_paid)
unfolding fund_acu_top_up
fresh_top_up s args na nt f p fresh =
    ground (arith, ===_iff args.account "", ===_iff args.funding_txn_id "")

credit_exact :
    (s : Funds) (args : TopUpArgs) (q own held : ℕ)
    → HasAccount s.wallet args.account own held
    → let (s', r) = credit_top_up s args (amount (q * scale)) in
      (r ≡ done (amount (q * scale)) false)
      × (balance s'.wallet args.account ≡ amount (own + q * scale - held))
unfolding credit_top_up
credit_exact s args q own held h = elim (Bool-cases (ltb 0 (q * scale))) [
  | inl p ↦ (
    ground (arith, whole_top_up s.wallet args.account q, amount-lt 0 (q * scale)),
    rw (amount-lt 0 (q * scale), p, whole_top_up s.wallet args.account q (ground arith))
        (balance_of_HasAccount _ args.account _ held
          (credit_self s.wallet args.account (q * scale) h)),
  )
  | inr p ↦ (
    rw (amount-lt 0 (q * scale), p),
    rw (amount-lt 0 (q * scale), p)
        (balance_of_HasAccount _ args.account own held h ∙ ap amount (ground arith)),
  )
]

-- A top-up credits what it reports: a new transaction of `n` units of a dollar, on a sound account, is
-- taken, reports the whole ACU that the source's division gives for it, and raises the balance by
-- just that, 0 included.
pub top_up-credits :
    (s : Funds) (args : TopUpArgs) (n own held : ℕ)
    → args.account ≢ ""
    → args.funding_txn_id ≢ ""
    → args.usd_paid ≡ amount n
    → 0 < n
    → has (top_up_key args.funding_txn_id) s.funding ≡ false
    → HasAccount s.wallet args.account own held
    → let (s', r) = fund_acu_top_up s args in
      (r ≡ done (amount (acu_units n * scale)) false)
      × (balance s'.wallet args.account ≡ amount (own + acu_units n * scale - held))
unfolding is_finite
top_up-credits s args n own held na nt en p fresh h =
    let e =
      fresh_top_up s args na nt (rw en) (rw (en, amount-le n 0) (ground arith)) fresh
      ∙ ap (credit_top_up s args) (ap acu_for_usd en ∙ acu_for_usd-amount n) in
    rw e (credit_exact s args (acu_units n) own held h)
