-- ===== src/Store/Wallet.antt =====
-- The wallet and the idempotency keys on a file (shared/ledger/src/persistence.ts).
pub mod Keys
pub mod Refinement
use nzela.Base.{ℕ, Bool, true, false, not, ◌||◌, Option, none, some, String, or_else, if◌then◌else◌}
use nzela.Num.{Num, whole, is_integer, ◌≤ₙ◌, ◌+ₙ◌, ◌-ₙ◌, max_num, min_num}
use nzela.Acu.{AcuReservation, refuses}
use nzela.Store.{Json, FileKv, kv_set, kv_get, kv_has}
use Prim.Native.String.{◌++◌ as str_append}

unfoldable pub bal_key : String → String
bal_key a = str_append "bal:" a

unfoldable pub held_key : String → String
held_key a = str_append "held:" a

module _ {Raw : Type 0} where
  unfoldable pub file_bal : FileKv Raw Num → String → Num
  file_bal kv a = or_else (kv_get kv (bal_key a)) (whole 0)

  unfoldable pub file_held : FileKv Raw Num → String → Num
  file_held kv a = or_else (kv_get kv (held_key a)) (whole 0)

  unfoldable pub file_balance : FileKv Raw Num → String → Num
  file_balance kv a = file_bal kv a -ₙ file_held kv a

  -- `FileFundingLedger`
  unfoldable pub funded : {V : Type 0} → FileKv Raw V → String → Bool
  funded kv key = kv_has kv (str_append "f:" key)

module _ {Raw : Type 0} (json : Json Raw Num) where
  unfoldable add_funded : FileKv Raw Num → ℕ → String → FileKv Raw Num
  add_funded kv n key = kv_set json kv n (str_append "f:" key) (whole 1)

  unfoldable pub file_top_up : FileKv Raw Num → ℕ → String → Num → Option (FileKv Raw Num)
  file_top_up kv n a acu =
      if not (is_integer acu) || acu ≤ₙ whole 0
      then none
      else some (kv_set json kv n (bal_key a) (file_bal kv a +ₙ acu))

  unfoldable pub file_hold : FileKv Raw Num → ℕ → String → Num → FileKv Raw Num
  file_hold kv n a max_acu = kv_set json kv n (held_key a) (file_held kv a +ₙ max_acu)

  unfoldable pub file_reserve : FileKv Raw Num → ℕ → String → Num → FileKv Raw Num × AcuReservation
  file_reserve kv n a max_acu =
      if refuses (file_balance kv a) max_acu
      then (kv, record { ok = false; reserved = whole 0; balance_after = file_balance kv a })
      else (
        file_hold kv n a max_acu,
        record {
          ok = true;
          reserved = max_acu;
          balance_after = file_balance (file_hold kv n a max_acu) a;
        },
      )

  unfoldable pub file_release : FileKv Raw Num → ℕ → String → Num → FileKv Raw Num
  file_release kv n a reserved =
      kv_set json kv n (held_key a) (max_num (whole 0) (file_held kv a -ₙ reserved))

  -- The two writes of `commit`: the hold's, then the balance's, each with its random vector.
  unfoldable pub file_commit : FileKv Raw Num → ℕ → ℕ → String → Num → Num → FileKv Raw Num
  file_commit kv n n2 a reserved actual =
      let spend = min_num (max_num actual (whole 0)) (max_num reserved (whole 0)) in
      let w = kv_set json kv n (held_key a) (max_num (whole 0) (file_held kv a -ₙ reserved)) in
      kv_set json w n2 (bal_key a) (max_num (whole 0) (file_bal w a -ₙ spend))
