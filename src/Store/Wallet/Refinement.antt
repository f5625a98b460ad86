-- ===== src/Store/Wallet/Refinement.antt =====
-- The wallet on a file implements the wallet in memory (shared/ledger/src/persistence.ts, acu.ts).
use nzela.Base.{
  ℕ, ◌≡◌, refl, sym, ap, subst, ◌∙◌, Option, none, some, String, arith, not, ◌||◌, List, [], ◌∷◌,
  inl, inr, Bool-cases,
}
use nzela.Num.{Num, whole, is_integer, ◌≤ₙ◌, ◌+ₙ◌, ◌-ₙ◌, max_num, min_num}
use nzela.Dict.{insert, lookup-insert}
use nzela.Acu.{
  AcuWallet, AcuReservation, owned, hold, balance, credit, top_up, refuses, add_hold, reserve,
  commit, release,
}
use nzela.Store.{Json, FileKv, kv_set}
use nzela.Store.Wallet.Keys.{bal-set_bal, held-set_held, bal-set_held, held-set_bal}
use nzela.Store.Wallet.{
  bal_key, held_key, file_bal, file_held, file_balance, file_top_up, file_hold, file_reserve,
  file_release, file_commit,
}

-- The two wallets agree on every account.
pub record Simulates {Raw : Type 0} (w : AcuWallet) (kv : FileKv Raw Num) : Type 0 where
  pub same_bal : (a : String) → file_bal kv a ≡ owned w a
  pub same_held : (a : String) → file_held kv a ≡ hold w a

-- A call of a wallet, with the random vectors that its writes on a file use.
pub data WalletCall : Type 0 where
  topping balancing : ℕ → String → Num → WalletCall
  reserving releasing : ℕ → String → Num → WalletCall
  committing : ℕ → ℕ → String → Num → Num → WalletCall

-- What a caller sees of a call.
pub data Answer : Type 0 where
  thrown done : Answer
  told : Num → Answer
  granted : AcuReservation → Answer

unfoldable pub topped : {W : Type 0} → W → Option W → W × Answer
topped w none = (w, thrown)
topped w (some w2) = (w2, done)

unfoldable pub memory_call : AcuWallet → WalletCall → AcuWallet × Answer
memory_call w (topping n a x) = topped w (top_up w a x)
memory_call w (balancing n a x) = (w, told (balance w a))
memory_call w (reserving n a x) = ((reserve w a x).0, granted (reserve w a x).1)
memory_call w (committing n n2 a r x) = (commit w a r x, done)
memory_call w (releasing n a r) = (release w a r, done)

unfoldable pub memory_answers : AcuWallet → List WalletCall → List Answer
memory_answers w [] = []
memory_answers w (c ∷ calls) = (memory_call w c).1 ∷ memory_answers (memory_call w c).0 calls

unfoldable pub file_call :
    {Raw : Type 0} → Json Raw Num → FileKv Raw Num → WalletCall → FileKv Raw Num × Answer
file_call json kv (topping n a x) = topped kv (file_top_up json kv n a x)
file_call json kv (balancing n a x) = (kv, told (file_balance kv a))
file_call json kv (reserving n a x) =
    ((file_reserve json kv n a x).0, granted (file_reserve json kv n a x).1)
file_call json kv (committing n n2 a r x) = (file_commit json kv n n2 a r x, done)
file_call json kv (releasing n a r) = (file_release json kv n a r, done)

unfoldable pub file_answers :
    {Raw : Type 0} → Json Raw Num → FileKv Raw Num → List WalletCall → List Answer
file_answers json kv [] = []
file_answers json kv (c ∷ calls) =
    (file_call json kv c).1 ∷ file_answers json (file_call json kv c).0 calls

module _ {Raw : Type 0} (json : Json Raw Num) where
  set_bal-Simulates :
      (w : AcuWallet) (kv : FileKv Raw Num) (n : ℕ) (a : String) (x : Num)
      → Simulates w kv
      → Simulates (record w { balances = insert a x w.balances }) (kv_set json kv n (bal_key a) x)
  unfolding owned hold
  set_bal-Simulates w kv n a x s = record {
    same_bal = λ b.
        ground (arith, bal-set_bal json kv n a b x, s.same_bal b, lookup-insert a b x w.balances);
    same_held = λ b. held-set_bal json kv n a b x ∙ s.same_held b;
  }

  set_held-Simulates :
      (w : AcuWallet) (kv : FileKv Raw Num) (n : ℕ) (a : String) (x : Num)
      → Simulates w kv
      → Simulates (record w { held = insert a x w.held }) (kv_set json kv n (held_key a) x)
  unfolding owned hold
  set_held-Simulates w kv n a x s = record {
    same_bal = λ b. bal-set_held json kv n a b x ∙ s.same_bal b;
    same_held = λ b.
        ground (arith, held-set_held json kv n a b x, s.same_held b, lookup-insert a b x w.held);
  }

  same_balance :
      (w : AcuWallet) (kv : FileKv Raw Num) (a : String)
      → Simulates w kv
      → file_balance kv a ≡ balance w a
  unfolding file_balance balance
  same_balance w kv a s = rw (s.same_bal a, s.same_held a) refl

  -- One call of both wallets: they answer alike, and agree afterwards.
  abbrev Agrees : AcuWallet × Answer → FileKv Raw Num × Answer → Type 0
  Agrees r q = (q.1 ≡ r.1) × Simulates r.0 q.0

  topping-Agrees :
      (w : AcuWallet) (kv : FileKv Raw Num) (n : ℕ) (a : String) (x : Num)
      → Simulates w kv
      → Agrees (topped w (top_up w a x)) (topped kv (file_top_up json kv n a x))
  unfolding topped top_up file_top_up credit
  topping-Agrees w kv n a x s = elim (Bool-cases (not (is_integer x) || x ≤ₙ whole 0)) [
    | inl e ↦ rw e (refl, s)
    | inr e ↦ rw (e, s.same_bal a) (refl, set_bal-Simulates w kv n a (owned w a +ₙ x) s)
  ]

  hold-Simulates :
      (w : AcuWallet) (kv : FileKv Raw Num) (n : ℕ) (a : String) (x : Num)
      → Simulates w kv
      → Simulates (add_hold w a x) (file_hold json kv n a x)
  unfolding add_hold file_hold
  hold-Simulates w kv n a x s = rw (s.same_held a) (set_held-Simulates w kv n a (hold w a +ₙ x) s)

  reserving-Agrees :
      (w : AcuWallet) (kv : FileKv Raw Num) (n : ℕ) (a : String) (x : Num)
      → Simulates w kv
      → ((file_reserve json kv n a x).1 ≡ (reserve w a x).1)
        × Simulates (reserve w a x).0 (file_reserve json kv n a x).0
  unfolding reserve file_reserve
  reserving-Agrees w kv n a x s = elim (Bool-cases (refuses (balance w a) x)) [
    | inl e ↦ rw (same_balance w kv a s, e) (refl, s)
    | inr e ↦
        let t = hold-Simulates w kv n a x s in
        rw (same_balance w kv a s, e, same_balance (add_hold w a x) (file_hold json kv n a x) a t)
          (refl, t)
  ]

  release-Simulates :
      (w : AcuWallet) (kv : FileKv Raw Num) (n : ℕ) (a : String) (r : Num)
      → Simulates w kv
      → Simulates (release w a r) (file_release json kv n a r)
  unfolding release file_release
  release-Simulates w kv n a r s =
      rw (s.same_held a) (set_held-Simulates w kv n a (max_num (whole 0) (hold w a -ₙ r)) s)

  commit-Simulates :
      (w : AcuWallet) (kv : FileKv Raw Num) (n n2 : ℕ) (a : String) (r x : Num)
      → Simulates w kv
      → Simulates (commit w a r x) (file_commit json kv n n2 a r x)
  unfolding commit file_commit release file_release owned hold
  commit-Simulates w kv n n2 a r x s =
      let spend = min_num (max_num x (whole 0)) (max_num r (whole 0)) in
      let held = file_release json kv n a r in
      let t = release-Simulates w kv n a r s in
      subst
        (λ b.
          Simulates (commit w a r x)
            (kv_set json held n2 (bal_key a) (max_num (whole 0) (b -ₙ spend))))
        (sym (t.same_bal a))
        (set_bal-Simulates (release w a r) held n2 a (max_num (whole 0) (owned w a -ₙ spend)) t)

  call-Agrees :
      (w : AcuWallet) (kv : FileKv Raw Num) (c : WalletCall)
      → Simulates w kv
      → Agrees (memory_call w c) (file_call json kv c)
  unfolding memory_call file_call
  call-Agrees w kv (topping n a x) s = topping-Agrees w kv n a x s
  call-Agrees w kv (balancing n a x) s = (ap told (same_balance w kv a s), s)
  call-Agrees w kv (reserving n a x) s =
      let g = reserving-Agrees w kv n a x s in (ap granted g.0, g.1)
  call-Agrees w kv (committing n n2 a r x) s = (refl, commit-Simulates w kv n n2 a r x s)
  call-Agrees w kv (releasing n a r) s = (refl, release-Simulates w kv n a r s)

  -- The wallet on a file answers every sequence of calls as the wallet in memory does, `NaN` and
  -- refused calls included, when the two agree on every account at the start.
  pub file_wallet_refines :
      (calls : List WalletCall) (w : AcuWallet) (kv : FileKv Raw Num)
      → Simulates w kv
      → file_answers json kv calls ≡ memory_answers w calls
  unfolding file_answers memory_answers
  file_wallet_refines [] w kv s = refl
  file_wallet_refines (c ∷ calls) w kv s =
      let a = call-Agrees w kv c s in
      rw (a.0, file_wallet_refines calls (memory_call w c).0 (file_call json kv c).0 a.1) refl
