-- ===== src/Acu/Soundness.antt =====
-- Every sequence of wallet operations keeps every account sound (shared/ledger/src/acu.ts).
use nzela.Base.{
  ℕ, ◌+◌, ◌-◌, ◌≤◌, ◌<◌, ◌≡◌, ◌⊎◌, inl, inr, true, false, List, [], ◌∷◌, String, arith, ap, sym,
  ◌∙◌, or_else, Bool-cases,
}
use nzela.Num.{Num, is_nan}
use nzela.Num.Laws.{amount, amount_inj, covered_spend-amount}
use nzela.Acu.{AcuWallet, balance, top_up, refuses, add_hold, reserve, commit, release}
use nzela.Acu.Wallet.{
  HasAccount, balance-add_hold, refuses-lt, refuses_not, balance_of_HasAccount, release_self,
  commit_self, add_hold_self, granted_request, reserve_granted, reserve_refused,
}

abbrev pub IsSoundAt : AcuWallet → String → Type 0
IsSoundAt w a = (own : ℕ) × (reserved : ℕ) × HasAccount w a own reserved

abbrev pub IsSound : AcuWallet → Type 0
IsSound w = (a : String) → IsSoundAt w a

-- `new InMemoryAcuWallet()`
abbrev pub empty_wallet : AcuWallet
empty_wallet = record { balances = []; held = [] }

-- A call on the wallet. A caller hands back a reservation's amount, and a spend that is no `NaN`.
pub data WalletOp : Type 0 where
  topping : String → Num → WalletOp
  reserving : String → Num → WalletOp
  committing : String → ℕ → (x : Num) → is_nan x ≡ false → WalletOp
  releasing : String → ℕ → WalletOp

-- A `topUp` that throws leaves the wallet.
unfoldable pub apply_op : AcuWallet → WalletOp → AcuWallet
apply_op w (topping a x) = or_else (top_up w a x) w
apply_op w (reserving a x) = (reserve w a x).0
apply_op w (committing a r x _) = commit w a (amount r) x
apply_op w (releasing a r) = release w a (amount r)

unfoldable pub apply_ops : AcuWallet → List WalletOp → AcuWallet
unfolding apply_op
apply_ops w [] = w
apply_ops w (op ∷ ops) = apply_ops (apply_op w op) ops

-- On a sound account, `reserve` grants exactly the requests that are finite, above zero and within
-- the balance: what it grants leaves the balance, and what it refuses changes nothing.
reserve_exact :
    (w : AcuWallet) (a : String) (x : Num)
    → IsSoundAt w a
    → let (w', res) = reserve w a x in
      ((n : ℕ) × (m : ℕ) × (balance w a ≡ amount n)
        × (x ≡ amount m)
        × (0 < m)
        × (m ≤ n)
        × (res.ok ≡ true)
        × (res.reserved ≡ x)
        × (balance w' a ≡ amount (n - m)))
      ⊎ ((res.ok ≡ false)
          × (w' ≡ w)
          × ((n m : ℕ) → balance w a ≡ amount n → x ≡ amount m → 0 < m → n < m))
reserve_exact w a x (own, held, h) = elim (Bool-cases (refuses (balance w a) x)) [
  | inl r ↦ inr (
    (reserve_refused w a x r).1,
    (reserve_refused w a x r).0,
    λ n m e em p. refuses-lt n m (rw (e, em) at r) p,
  )
  | inr r ↦
      let (m, em, p, le) =
        granted_request (own - held) x (rw (balance_of_HasAccount w a own held h) at r) in
      let (ew, ok, res) = reserve_granted w a x r in
      inl (
        own - held,
        m,
        balance_of_HasAccount w a own held h,
        em,
        p,
        le,
        ok,
        res,
        rw (ew, em) (balance-add_hold w a m h le p),
      )
]

-- A hold that is released gives the balance back; one that is committed takes the spend.
pub settle_hold :
    (w : AcuWallet) (a : String) (n m s : ℕ)
    → IsSoundAt w a
    → balance w a ≡ amount n
    → m ≤ n
    → s ≤ m
    → let w' = add_hold w a (amount m) in
      (balance (release w' a (amount m)) a ≡ amount n)
      × (balance (commit w' a (amount m) (amount s)) a ≡ amount (n - s))
settle_hold w a n m s (own, held, h) e le ls =
    let n_eq : n ≡ own - held = amount_inj _ _ (sym e ∙ balance_of_HasAccount w a own held h) in
    let g = add_hold_self w a m (omega (arith, h.within)) h in
    let v = add_hold w a (amount m) in
    let back = release_self v a m g in
    let spent = commit_self v a m s (amount s) (covered_spend-amount m s ls) ls g in
    (
      balance_of_HasAccount _ a own (held + m - m) back ∙ ap amount (omega arith),
      balance_of_HasAccount _ a (own - s) (held + m - m) spent ∙ ap amount (omega arith),
    )

-- On a sound account with the balance for it, a reservation that is released gives the balance
-- back, and one that is committed at a spend within it takes that spend and no more.
pub settle_exact :
    (w : AcuWallet) (a : String) (n m s : ℕ)
    → IsSoundAt w a
    → balance w a ≡ amount n
    → 0 < m
    → m ≤ n
    → s ≤ m
    → let w' = (reserve w a (amount m)).0 in
      (balance (release w' a (amount m)) a ≡ amount n)
      × (balance (commit w' a (amount m) (amount s)) a ≡ amount (n - s))
settle_exact w a n m s sound e p le ls =
    let r : refuses (balance w a) (amount m) ≡ false = rw e (refuses_not n m p le) in
    rw ((reserve_granted w a (amount m) r).0) (settle_hold w a n m s sound e le ls)
