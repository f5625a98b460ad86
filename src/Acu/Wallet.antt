-- ===== src/Acu/Wallet.antt =====
-- The wallet of shared/ledger/src/acu.ts: what is held never exceeds what is owned.
use nzela.Base.{
  ℕ, ◌+◌, ◌-◌, ◌≤◌, ◌<◌, ◌≡◌, ◌≢◌, true, false, some, String, arith, ap, ◌∙◌, ◌||◌, ltb, leb,
}
use nzela.Num.{Num, is_finite, is_integer, ◌≤ₙ◌, max_num, min_num}
use nzela.Num.Laws.{
  amount, amount-+, amount-sub, amount-lt, amount-le, clamp-sub, amount_of_positive,
}
use nzela.Dict.{lookup-insert_self, lookup-insert_ne}
use nzela.Acu.{
  AcuWallet, owned, hold, balance, credit, top_up, refuses, add_hold, reserve, commit, release,
}

-- An account that owns `own` units, of which `reserved` are on hold.
pub record HasAccount (w : AcuWallet) (a : String) (own reserved : ℕ) : Type 0 where
  pub owned_eq : owned w a ≡ amount own
  pub hold_eq : hold w a ≡ amount reserved
  pub within : reserved ≤ own

pub balance_of_HasAccount :
    (w : AcuWallet) (a : String) (own reserved : ℕ)
    → HasAccount w a own reserved
    → balance w a ≡ amount (own - reserved)
unfolding balance
balance_of_HasAccount w a own reserved h =
    rw (h.owned_eq, h.hold_eq) (amount-sub own reserved h.within)

-- What an operation on account `a` leaves of account `b`.
pub release_other :
    (w : AcuWallet) (a b : String) (r : Num) {own held : ℕ}
    → a ≢ b
    → HasAccount w b own held
    → HasAccount (release w a r) b own held
unfolding release owned hold
release_other w a b r ne h = record {
  owned_eq = h.owned_eq;
  hold_eq = rw (lookup-insert_ne a b _ w.held ne) h.hold_eq;
  within = h.within;
}

pub release_self :
    (w : AcuWallet) (a : String) (r : ℕ) {own held : ℕ}
    → HasAccount w a own held
    → HasAccount (release w a (amount r)) a own (held - r)
unfolding release owned hold
release_self w a r {own} {held} h = record {
  owned_eq = h.owned_eq;
  hold_eq = rw (lookup-insert_self, h.hold_eq) (clamp-sub held r);
  within = omega (arith, h.within);
}

pub commit_other :
    (w : AcuWallet) (a b : String) (r x : Num) {own held : ℕ}
    → a ≢ b
    → HasAccount w b own held
    → HasAccount (commit w a r x) b own held
unfolding commit owned hold
commit_other w a b r x ne h = record {
  owned_eq = rw (lookup-insert_ne a b _ w.balances ne) h.owned_eq;
  hold_eq = rw (lookup-insert_ne a b _ w.held ne) h.hold_eq;
  within = h.within;
}

pub commit_self :
    (w : AcuWallet) (a : String) (r s : ℕ) (x : Num) {own held : ℕ}
    → min_num (max_num x (amount 0)) (max_num (amount r) (amount 0)) ≡ amount s
    → s ≤ r
    → HasAccount w a own held
    → HasAccount (commit w a (amount r) x) a (own - s) (held - r)
unfolding commit owned hold
commit_self w a r s x {own} {held} e le h = record {
  owned_eq = rw (lookup-insert_self, h.owned_eq, e) (clamp-sub own s);
  hold_eq = rw (lookup-insert_self, h.hold_eq) (clamp-sub held r);
  within = omega (arith, h.within);
}

pub add_hold_other :
    (w : AcuWallet) (a b : String) (m : Num) {own held : ℕ}
    → a ≢ b
    → HasAccount w b own held
    → HasAccount (add_hold w a m) b own held
unfolding add_hold owned hold
add_hold_other w a b m ne h = record {
  owned_eq = h.owned_eq;
  hold_eq = rw (lookup-insert_ne a b _ w.held ne) h.hold_eq;
  within = h.within;
}

pub add_hold_self :
    (w : AcuWallet) (a : String) (m : ℕ) {own held : ℕ}
    → held + m ≤ own
    → HasAccount w a own held
    → HasAccount (add_hold w a (amount m)) a own (held + m)
unfolding add_hold owned hold
add_hold_self w a m {own} {held} le h = record {
  owned_eq = h.owned_eq;
  hold_eq = rw (lookup-insert_self, h.hold_eq) (amount-+ held m);
  within = le;
}

-- On amounts, the guard of `reserve` is the comparison with the available balance.
refuses-amount : (n m : ℕ) → refuses (amount n) (amount m) ≡ (leb m 0 || ltb n m)
unfolding refuses is_finite
refuses-amount n m = rw (amount-le m 0, amount-lt n m)

refuses-parts :
    (n : ℕ) (x : Num)
    → refuses (amount n) x ≡ false
    → (is_finite x ≡ true) × ((x ≤ₙ amount 0) ≡ false)
unfolding refuses
refuses-parts n x h = ground arith

refuses-le : (n m : ℕ) → refuses (amount n) (amount m) ≡ false → m ≤ n
refuses-le n m h = ground (arith, refuses-amount n m)

pub refuses-lt : (n m : ℕ) → refuses (amount n) (amount m) ≡ true → 0 < m → n < m
refuses-lt n m h p = ground (arith, refuses-amount n m)

pub refuses_not : (n m : ℕ) → 0 < m → m ≤ n → refuses (amount n) (amount m) ≡ false
refuses_not n m p le = ground (arith, refuses-amount n m)

-- A request that passes the guard is an amount above zero that the balance covers.
pub granted_request :
    (n : ℕ) (x : Num) → refuses (amount n) x ≡ false → (m : ℕ) × (x ≡ amount m) × (0 < m) × (m ≤ n)
granted_request n x h =
    let (f, p) = refuses-parts n x h in
    let (m, e, pos_m) = amount_of_positive x f p in (m, e, pos_m, refuses-le n m (rw e at h))

pub reserve_granted :
    (w : AcuWallet) (a : String) (x : Num)
    → refuses (balance w a) x ≡ false
    → ((reserve w a x).0 ≡ add_hold w a x)
      × ((reserve w a x).1.ok ≡ true)
      × ((reserve w a x).1.reserved ≡ x)
unfolding reserve
reserve_granted w a x h = ground arith

pub reserve_refused :
    (w : AcuWallet) (a : String) (x : Num)
    → refuses (balance w a) x ≡ true
    → ((reserve w a x).0 ≡ w) × ((reserve w a x).1.ok ≡ false)
unfolding reserve
reserve_refused w a x h = ground arith

top_up-parts :
    (w : AcuWallet) (a : String) (x : Num) {w' : AcuWallet}
    → top_up w a x ≡ some w'
    → (is_integer x ≡ true) × ((x ≤ₙ amount 0) ≡ false) × (credit w a x ≡ w')
unfolding top_up
top_up-parts w a x h = ground arith

integer_is_finite : (x : Num) → is_integer x ≡ true → is_finite x ≡ true
unfolding is_integer is_finite
integer_is_finite x h = ground arith

-- A top-up that is taken credits an amount above zero.
pub top_up_granted :
    (w : AcuWallet) (a : String) (x : Num) {w' : AcuWallet}
    → top_up w a x ≡ some w'
    → (m : ℕ) × (x ≡ amount m) × (0 < m) × (credit w a x ≡ w')
top_up_granted w a x h =
    let (i, p, e) = top_up-parts w a x h in
    let (m, em, pos_m) = amount_of_positive x (integer_is_finite x i) p in (m, em, pos_m, e)

pub credit_other :
    (w : AcuWallet) (a b : String) (x : Num) {own held : ℕ}
    → a ≢ b
    → HasAccount w b own held
    → HasAccount (credit w a x) b own held
unfolding credit owned hold
credit_other w a b x ne h = record {
  owned_eq = rw (lookup-insert_ne a b _ w.balances ne) h.owned_eq;
  hold_eq = h.hold_eq;
  within = h.within;
}

pub credit_self :
    (w : AcuWallet) (a : String) (m : ℕ) {own held : ℕ}
    → HasAccount w a own held
    → HasAccount (credit w a (amount m)) a (own + m) held
unfolding credit owned hold
credit_self w a m {own} {held} h = record {
  owned_eq = rw (lookup-insert_self, h.owned_eq) (amount-+ own m);
  hold_eq = h.hold_eq;
  within = omega (arith, h.within);
}

pub balance-add_hold :
    (w : AcuWallet) (a : String) (m : ℕ) {own held : ℕ}
    → HasAccount w a own held
    → m ≤ own - held
    → 0 < m
    → balance (add_hold w a (amount m)) a ≡ amount (own - held - m)
balance-add_hold w a m {own} {held} h le p =
    balance_of_HasAccount (add_hold w a (amount m)) a own (held + m)
      (add_hold_self w a m (omega (arith, h.within)) h)
    ∙ ap amount (omega arith)
