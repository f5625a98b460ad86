-- ===== src/Acu/Budget/Payment.antt =====
-- What one run of the budget middleware costs the account that it is billed to
-- (shared/ledger/src/budget.ts).
use nzela.Base.{
  ℕ, ◌-◌, ◌≤◌, ◌≡◌, refl, sym, ap, ◌∙◌, ◌≢◌, ◌⊎◌, inl, inr, true, false, none, some, String, arith,
  or_else, Option-cases, Bool-cases,
}
use nzela.Num.{Num, ◌≤ₙ◌}
use nzela.Num.Laws.{amount, amount-lt, amount_inj, amount_of_positive}
use nzela.Ledger.{AgentId}
use nzela.Acu.{balance, usd_to_acu, add_hold}
use nzela.Acu.Wallet.{granted_request}
use nzela.Acu.Soundness.{IsSoundAt, settle_hold}
use nzela.Acu.Budget.{
  BudgetMiddleware, AgentCallContext, Ticket, Outcome, failed, answered, remaining_for, begin,
  finish, run,
}
use nzela.Acu.Budget.Gate.{
  price, usd_to_acu-amount, usd_to_acu-finite, price_mono, billed, Held, begin-Held, begin_refused,
  keeps, finish_dropped, finish_kept,
}

module _ {A : Type 0} (m : BudgetMiddleware) (agent : AgentId) (ctx : AgentCallContext)
    (invoke : Num → Outcome A) (fallback : A) where
  pub run_refused :
      (m' : BudgetMiddleware)
      → begin m agent ctx ≡ (m', none)
      → run m agent ctx invoke fallback ≡ (m', fallback)
  unfolding run
  run_refused m' e = ground arith

  pub run_begun :
      (m' : BudgetMiddleware) (t : Ticket)
      → begin m agent ctx ≡ (m', some t)
      → let (m'', v) = finish m' agent ctx t (invoke t.remaining) in
        run m agent ctx invoke fallback ≡ (m'', or_else v fallback)
  unfolding run
  run_begun m' t e = ground arith

-- An invocation that reports its spend as a finite number that is not negative.
abbrev Reports : {A : Type 0} → Outcome A → Type 0
Reports failed = Unit
Reports (answered v x) = (s : ℕ) × (x ≡ amount s)

-- What a run did: it used the fallback and cost nothing, or it used the answer to `invoke` and the
-- account paid the price of the reported spend.
abbrev pub Pays :
    {A : Type 0} → Outcome A → AgentId → String → ℕ → A → BudgetMiddleware × A → Type 0
Pays {A} o agent a n fallback (m', v) =
    ((v ≡ fallback) × (balance m'.wallet a ≡ amount n))
    ⊎ ((s : ℕ) × (o ≡ answered v (amount s))
        × (price s agent ≤ n)
        × (balance m'.wallet a ≡ amount (n - price s agent)))

keeps-le :
    {A : Type 0} (t : Ticket) (v : A) (r s : ℕ)
    → t.remaining ≡ amount r
    → keeps t (answered v (amount s)) ≡ true
    → s ≤ r
keeps-le t v r s e k = ground (arith, amount-lt r s)

-- What a hold stands for: a budget, its price, and a balance that covers it.
Held-price :
    (m : BudgetMiddleware) (agent : AgentId) (a : String) (m' : BudgetMiddleware) (t : Ticket)
    (n : ℕ)
    → Held m agent a m' t
    → (t.remaining ≤ₙ amount 0) ≡ false
    → balance m.wallet a ≡ amount n
    → (r : ℕ) × (t.remaining ≡ amount r)
      × (t.reserved ≡ amount (price r agent))
      × (m'.wallet ≡ add_hold m.wallet a (amount (price r agent)))
      × (price r agent ≤ n)
Held-price m agent a m' t n h p b =
    let (k, ek, _, le) = granted_request n (usd_to_acu t.remaining agent) (rw (← b) h.covered) in
    let (r, er, _) = amount_of_positive t.remaining (usd_to_acu-finite t.remaining agent k ek) p in
    let e : usd_to_acu t.remaining agent ≡ amount (price r agent) =
      ap (λ x. usd_to_acu x agent) er ∙ usd_to_acu-amount r agent in
    let kr : k ≡ price r agent = amount_inj _ _ (sym ek ∙ e) in
    (r, er, h.reserved_eq ∙ e, h.wallet_eq ∙ ap (add_hold m.wallet a) e, rw (← kr) le)

module _ {A : Type 0} (m : BudgetMiddleware) (agent : AgentId) (ctx : AgentCallContext) (a : String)
    (m' : BudgetMiddleware) (t : Ticket) (n r : ℕ) (fallback : A) (named : a ≢ "")
    (sound : IsSoundAt m.wallet a) (has : balance m.wallet a ≡ amount n)
    (account_eq : t.account ≡ some a) (budget_eq : t.remaining ≡ amount r)
    (reserved_eq : t.reserved ≡ amount (price r agent))
    (wallet_eq : m'.wallet ≡ add_hold m.wallet a (amount (price r agent)))
    (fits : price r agent ≤ n) where
  dropped-Pays :
      (o : Outcome A)
      → keeps t o ≡ false
      → let (m'', v) = finish m' agent ctx t o in
        Pays o agent a n fallback (m'', or_else v fallback)
  dropped-Pays o k =
      let (e, ew, _) = finish_dropped m' agent ctx t a account_eq named o k in
      inl (
        ap (λ v. or_else v fallback) e,
        rw (ew, wallet_eq, reserved_eq)
            ((settle_hold m.wallet a n (price r agent) 0 sound has fits (omega arith)).0),
      )

  kept-Pays :
      (v : A) (s : ℕ)
      → keeps t (answered v (amount s)) ≡ true
      → let (m'', w) = finish m' agent ctx t (answered v (amount s)) in
        Pays (answered v (amount s)) agent a n fallback (m'', or_else w fallback)
  kept-Pays v s k =
      let (e, ew, _) = finish_kept m' agent ctx t a account_eq named v (amount s) k in
      let le = price_mono s r agent (keeps-le t v r s budget_eq k) in
      inr (
        s,
        rw e,
        omega (arith, le),
        rw (ew, wallet_eq, reserved_eq, usd_to_acu-amount s agent)
            ((settle_hold m.wallet a n (price r agent) (price s agent) sound has fits le).1),
      )

  finish-Pays :
      (o : Outcome A)
      → Reports o
      → let (m'', v) = finish m' agent ctx t o in
        Pays o agent a n fallback (m'', or_else v fallback)
  finish-Pays failed rep = dropped-Pays failed refl
  finish-Pays (answered v x) (s, e) = elim (Bool-cases (keeps t (answered v x))) [
    | inl k ↦ rw e (kept-Pays v s (rw e at k))
    | inr k ↦ dropped-Pays (answered v x) k
  ]

-- `(p.0, some t)` for a pair whose second part is known.
pub pair_eq : {A B : Type 0} (p : A × B) (b : B) → p.1 ≡ b → p ≡ (p.0, b)
pair_eq p b e i = (p.0, e i)

-- No AI for free, and no charge without AI. With gating set, on a sound account of non-empty name: a
-- run returns the fallback and the balance is what it was, or it returns the answer that the
-- invocation gave and the balance is less by the price of the spend that it reported, which the
-- balance covered. The reported spends are finite and not negative.
pub run-Pays :
    {A : Type 0} (m : BudgetMiddleware) (agent : AgentId) (ctx : AgentCallContext)
    (invoke : Num → Outcome A) (fallback : A) (d : String) (n : ℕ)
    → m.gating ≡ some d
    → billed m ctx d ≢ ""
    → IsSoundAt m.wallet (billed m ctx d)
    → balance m.wallet (billed m ctx d) ≡ amount n
    → ((b : Num) → Reports (invoke b))
    → Pays
        (invoke (remaining_for m agent ctx))
        agent
        (billed m ctx d)
        n
        fallback
        (run m agent ctx invoke fallback)
run-Pays m agent ctx invoke fallback d n g named sound has rep =
    elim (Option-cases (begin m agent ctx).1) [
      | inl e ↦
          let p = pair_eq (begin m agent ctx) none e in
          rw (run_refused m agent ctx invoke fallback _ p)
            (inl (refl, rw ((begin_refused m agent ctx p).0) has))
      | inr (t, e) ↦
          let m' = (begin m agent ctx).0 in
          let p = pair_eq (begin m agent ctx) (some t) e in
          let (er, above, h) = begin-Held m agent ctx d g p in
          let (r, eb, ev, ew, fits) = Held-price m agent (billed m ctx d) m' t n h above has in
          rw (run_begun m agent ctx invoke fallback m' t p, ← er)
            (finish-Pays m agent ctx (billed m ctx d) m' t n r fallback named sound has h.account_eq
              eb ev ew fits (invoke t.remaining) (rep t.remaining))
    ]
