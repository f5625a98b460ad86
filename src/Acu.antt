-- ===== src/Acu.antt =====
-- ACU metering and the wallet in memory (shared/ledger/src/acu.ts). `none` as a new wallet is the
-- `RangeError` of `topUp`.
pub mod Wallet
pub mod Soundness
pub mod Budget
pub mod Funding
use nzela.Base.{
  ℕ, suc, ◌+◌, ◌-◌, ◌*◌, ◌/◌, Bool, true, false, ◌||◌, Option, none, some, String, not, or_else,
  if◌then◌else◌,
}
use nzela.Base.Int.{pos, negsuc, ◌-ℤ◌}
use nzela.Num.{
  Num, nan, inf, neg_inf, fin, scale, whole, is_finite, is_integer, ◌<ₙ◌, ◌≤ₙ◌, ◌+ₙ◌, ◌-ₙ◌, max_num,
  min_num,
}
use nzela.Dict.{Dict, lookup, insert}
use nzela.Ledger.{AgentId, seo, growth, Actor, LedgerEvent, ai, debit}

-- Dollars, in units, that one ACU costs.
abbrev pub usd_per_acu : ℕ
usd_per_acu = 1_000

abbrev resale_multiplier : ℕ
resale_multiplier = 3

unfoldable pub acu_multiplier : AgentId → ℕ
acu_multiplier seo = resale_multiplier
acu_multiplier growth = resale_multiplier
acu_multiplier _ = 1

-- `Math.ceil((usd / USD_PER_ACU) * acuMultiplier(agent))`
unfoldable pub usd_to_acu : Num → AgentId → Num
unfolding ◌-ℤ◌ acu_multiplier
usd_to_acu nan a = nan
usd_to_acu inf a = inf
usd_to_acu neg_inf a = neg_inf
usd_to_acu (fin (pos n)) a = whole ((n * acu_multiplier a + (usd_per_acu - 1)) / usd_per_acu)
usd_to_acu (fin (negsuc n)) a = fin (pos 0 -ℤ pos (suc n * acu_multiplier a / usd_per_acu * scale))

-- `acu * USD_PER_ACU`
unfoldable acu_to_usd : Num → Num
unfolding ◌-ℤ◌
acu_to_usd nan = nan
acu_to_usd inf = inf
acu_to_usd neg_inf = neg_inf
acu_to_usd (fin (pos n)) = fin (pos (n * usd_per_acu / scale))
acu_to_usd (fin (negsuc n)) = fin (pos 0 -ℤ pos (suc n * usd_per_acu / scale))

pub record AcuReservation : Type 0 where
  pub ok : Bool
  pub reserved : Num
  pub balance_after : Num

-- `InMemoryAcuWallet`
pub record AcuWallet : Type 0 where
  pub balances : Dict Num
  pub held : Dict Num

unfoldable pub owned : AcuWallet → String → Num
owned w account = or_else (lookup account w.balances) (whole 0)

unfoldable pub hold : AcuWallet → String → Num
hold w account = or_else (lookup account w.held) (whole 0)

unfoldable pub balance : AcuWallet → String → Num
unfolding owned hold
balance w account = owned w account -ₙ hold w account

unfoldable pub credit : AcuWallet → String → Num → AcuWallet
unfolding owned
credit w account acu = record w { balances = insert account (owned w account +ₙ acu) w.balances }

unfoldable pub top_up : AcuWallet → String → Num → Option AcuWallet
unfolding credit
top_up w account acu =
    if not (is_integer acu) || acu ≤ₙ whole 0 then none else some (credit w account acu)

-- The guard of `reserve`.
unfoldable pub refuses : Num → Num → Bool
refuses available max_acu = not (is_finite max_acu) || max_acu ≤ₙ whole 0 || available <ₙ max_acu

unfoldable pub add_hold : AcuWallet → String → Num → AcuWallet
unfolding hold
add_hold w account acu = record w { held = insert account (hold w account +ₙ acu) w.held }

unfoldable pub reserve : AcuWallet → String → Num → AcuWallet × AcuReservation
unfolding add_hold balance refuses
reserve w account max_acu =
    if refuses (balance w account) max_acu
    then (w, record { ok = false; reserved = whole 0; balance_after = balance w account })
    else (
      add_hold w account max_acu,
      record {
        ok = true;
        reserved = max_acu;
        balance_after = balance (add_hold w account max_acu) account;
      },
    )

unfoldable pub commit : AcuWallet → String → Num → Num → AcuWallet
unfolding owned hold
commit w account reserved actual =
    let spend = min_num (max_num actual (whole 0)) (max_num reserved (whole 0)) in
    record {
      balances = insert account (max_num (whole 0) (owned w account -ₙ spend)) w.balances;
      held = insert account (max_num (whole 0) (hold w account -ₙ reserved)) w.held;
    }

unfoldable pub release : AcuWallet → String → Num → AcuWallet
unfolding hold
release w account reserved = record w {
  held = insert account (max_num (whole 0) (hold w account -ₙ reserved)) w.held;
}

-- The event of `ledgerAcuDebit`; each ACU is 1000 units of a dollar.
unfoldable pub ledger_acu_debit : AgentId → String → Num → Option String → LedgerEvent
unfolding acu_to_usd
ledger_acu_debit agent account acu tk_ref = record {
  kind = ai;
  actor = Actor.agent agent;
  cost_usd = acu_to_usd acu;
  tk_ref = tk_ref;
  meta = debit account acu;
}
