-- ===== src/Acu/Budget/Overlap.antt =====
-- Calls of `run` (shared/ledger/src/budget.ts) that overlap: any schedule of beginnings and endings,
-- two calls for one order, and a spend reported as `NaN`.
use nzela.Base.{
  ℕ, ◌+◌, ◌≤◌, ◌≡◌, refl, ap, ◌∙◌, ◌≢◌, true, false, some, String, arith, List, [], ◌∷◌, Bool-cases,
  inl, inr, ◌===◌, ===_iff,
}
use nzela.Num.{Num, nan, is_nan, is_finite, ◌<ₙ◌, ◌≤ₙ◌, ◌+ₙ◌, max_num, min_num}
use nzela.Num.Laws.{amount, amount-lt, amount-+, amount-sub, amount-min, sub-nan, nan-sub, lt-nan}
use nzela.Dict.{lookup-insert_self, lookup-insert}
use nzela.Acu.Soundness.{WalletOp, topping, reserving, committing, releasing, apply_op, apply_ops}
use nzela.Ledger.{AgentId, litige}
use nzela.Ledger.Registry.{agent_registry}
use nzela.Acu.{
  AcuWallet, balance, owned, hold, refuses, reserve, commit, usd_to_acu, top_up, credit, add_hold,
  release,
}
use nzela.Acu.Wallet.{reserve_granted}
use nzela.Acu.Budget.{
  BudgetMiddleware, AgentCallContext, Ticket, answered, order_key, spent_at, remaining_for, begin,
  finish,
}
use nzela.Acu.Budget.Gate.{keeps, finish_kept}
use nzela.Acu.Budget.Caps.{
  remaining_with_cap, begin_budget, finish_kept_spend, spent_of_insert, spent_at_same,
}

keeps_within_budget :
    {A : Type 0} (t : Ticket) (v : A) (r s : ℕ)
    → t.remaining ≡ amount r
    → s ≤ r
    → keeps t (answered v (amount s)) ≡ true
keeps_within_budget t v r s e le = ground (arith, amount-lt r s)

litige_fresh :
    (m : BudgetMiddleware) (ctx : AgentCallContext) (key : String)
    → order_key litige ctx ≡ some key
    → spent_at m key ≡ amount 0
    → remaining_for m litige ctx ≡ amount 10_000
unfolding agent_registry
litige_fresh m ctx key ek es =
    remaining_with_cap m litige ctx key (amount 10_000) refl ek
    ∙ rw (es, amount-sub 10_000 0 (omega arith)) (amount-min 10_000 10_000)

kept_spend :
    {A : Type 0} (m : BudgetMiddleware) (ctx : AgentCallContext) (t : Ticket) (key : String) (v : A)
    (s x : ℕ)
    → order_key litige ctx ≡ some key
    → spent_at m key ≡ amount s
    → t.remaining ≡ amount 10_000
    → x ≤ 10_000
    → spent_at (finish m litige ctx t (answered v (amount x))).0 key ≡ amount (s + x)
kept_spend m ctx t key v s x ek es et le =
    spent_of_insert m _ key (spent_at m key +ₙ amount x) (
      finish_kept_spend m litige ctx t v (amount x) key (keeps_within_budget t v 10_000 x et le) ek)
    ∙ rw es (amount-+ s x)

keeps_nan : {A : Type 0} (t : Ticket) (v : A) → keeps t (answered v nan) ≡ true
keeps_nan t v = rw (lt-nan t.remaining)

min_max_nan : (r : Num) → min_num (max_num nan (amount 0)) r ≡ nan
unfolding min_num max_num is_nan
min_max_nan r = refl

max-nan : max_num (amount 0) nan ≡ nan
unfolding max_num is_nan
max-nan = refl

committed_nan : (w : AcuWallet) (a : String) (r : Num) → owned (commit w a r nan) a ≡ nan
unfolding commit owned hold
committed_nan w a r = rw (lookup-insert_self, min_max_nan, sub-nan, max-nan) refl

nan-+ : (x : Num) → nan +ₙ x ≡ nan
unfolding ◌+ₙ◌
nan-+ x = refl

-- No call of the wallet, for this account or another, mends a `NaN`.
op-keeps_nan :
    (w : AcuWallet) (op : WalletOp) (a : String) → owned w a ≡ nan → owned (apply_op w op) a ≡ nan
unfolding apply_op owned top_up credit reserve add_hold commit release
op-keeps_nan w (topping b x) a h =
    ground (arith, lookup-insert b a (owned w b +ₙ x) w.balances, ===_iff b a, nan-+ x)
op-keeps_nan w (reserving b x) a h = ground (arith, refuses (balance w b) x)
op-keeps_nan w (committing b r x real) a h = elim (Bool-cases (b === a)) [
  | inl e ↦
      let same = (===_iff b a).0 e in
      rw (lookup-insert, e) (rw (same, h) (ap (λ y. max_num (amount 0) y) (nan-sub _) ∙ max-nan))
  | inr e ↦ rw (lookup-insert, e) h
]
op-keeps_nan w (releasing b r) a h = h

ops-keep_nan :
    (ops : List WalletOp) (w : AcuWallet) (a : String)
    → owned w a ≡ nan
    → owned (apply_ops w ops) a ≡ nan
unfolding apply_ops
ops-keep_nan [] w a h = h
ops-keep_nan (op ∷ ops) w a h = ops-keep_nan ops (apply_op w op) a (op-keeps_nan w op a h)

refuses-nan : (x : Num) → is_finite x ≡ true → (x ≤ₙ amount 0) ≡ false → refuses nan x ≡ false
unfolding refuses ◌<ₙ◌
refuses-nan x f p = ground arith

balance_nan : (w : AcuWallet) (a : String) → owned w a ≡ nan → balance w a ≡ nan
unfolding balance
balance_nan w a e = rw e (nan-sub _)

open_account :
    (w : AcuWallet) (a : String) (x : Num)
    → owned w a ≡ nan
    → is_finite x ≡ true
    → (x ≤ₙ amount 0) ≡ false
    → (reserve w a x).1.ok ≡ true
open_account w a x h f p = (reserve_granted w a x (rw (balance_nan w a h) (refuses-nan x f p))).1

-- The cap of an order does not bind two calls that overlap: a dispute agent that begins twice on a
-- fresh order before either call ends gets its full budget twice, so two spends that each fit the cap
-- of 10000 units are both taken and add up.
pub overlap_adds_up :
    {A : Type 0} (m m₁ m₂ : BudgetMiddleware) (ctx : AgentCallContext) (t₁ t₂ : Ticket)
    (key : String) (v w : A) (x y : ℕ)
    → order_key litige ctx ≡ some key
    → spent_at m key ≡ amount 0
    → begin m litige ctx ≡ (m₁, some t₁)
    → begin m₁ litige ctx ≡ (m₂, some t₂)
    → x ≤ 10_000
    → y ≤ 10_000
    → let (m₃, _) = finish m₂ litige ctx t₁ (answered v (amount x)) in
      spent_at (finish m₃ litige ctx t₂ (answered w (amount y))).0 key ≡ amount (x + y)
overlap_adds_up m m₁ m₂ ctx t₁ t₂ key v w x y ek es e₁ e₂ lx ly =
    let (r₁, same₁) = begin_budget m litige ctx e₁ in
    let (r₂, same₂) = begin_budget m₁ litige ctx e₂ in
    let fresh₁ = spent_at_same m m₁ key same₁ ∙ es in
    let fresh₂ = spent_at_same m₁ m₂ key same₂ ∙ fresh₁ in
    let first = kept_spend m₂ ctx t₁ key v 0 x ek fresh₂ (r₁ ∙ litige_fresh m ctx key ek es) lx in
    kept_spend _ ctx t₂ key w x y ek (first ∙ ap amount (omega arith))
      (r₂ ∙ litige_fresh m₁ ctx key ek fresh₁) ly

-- A spend reported as `NaN` passes both guards and opens the account: the answer is used, and after
-- any further calls of the wallet whose spends are numbers, for this account or others, `reserve`
-- grants every finite request above zero, whatever the account owned.
pub nan_spend_opens :
    {A : Type 0} (m : BudgetMiddleware) (agent : AgentId) (ctx : AgentCallContext) (t : Ticket)
    (a : String) (v : A) (x : Num)
    → t.account ≡ some a
    → a ≢ ""
    → is_finite x ≡ true
    → (x ≤ₙ amount 0) ≡ false
    → (later : List WalletOp)
    → let (m', answer) = finish m agent ctx t (answered v nan) in
      (answer ≡ some v) × ((reserve (apply_ops m'.wallet later) a x).1.ok ≡ true)
unfolding usd_to_acu
nan_spend_opens m agent ctx t a v x et named f p later =
    let (e, ew, _) = finish_kept m agent ctx t a et named v nan (keeps_nan t v) in
    let spent = committed_nan m.wallet a t.reserved in
    let kept = ops-keep_nan later (commit m.wallet a t.reserved nan) a spent in
    (e, rw ew (open_account _ a x kept f p))
