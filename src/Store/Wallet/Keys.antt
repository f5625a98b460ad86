-- ===== src/Store/Wallet/Keys.antt =====
-- What one write of the wallet on a file changes (shared/ledger/src/persistence.ts).
use nzela.Base.{ℕ, ◌≡◌, sym, ap, ◌∙◌, String, arith, ◌===◌, ===_iff, or_else, if◌then◌else◌}
use nzela.Num.{Num, whole}
use nzela.Dict.{lookup-insert}
use nzela.Store.{Json, FileKv, kv_set, kv_get, flush}
use nzela.Store.Wallet.{bal_key, held_key, file_bal, file_held}
use Prim.Native.String.{◌++◌ as str_append}
use Prim.Native.Char.{code}
use text.Mathlib.TextLemmas.{append_cancel_left, cons-append, head-eq_of_cons-eq}

-- Keys of two accounts differ where the accounts do, and no balance is kept under a hold's key.
bal_key_iff : (a b : String) → (bal_key a === bal_key b) ≡ (a === b)
unfolding bal_key
bal_key_iff a b = ground (
  arith,
  ===_iff (str_append "bal:" a) (str_append "bal:" b),
  ===_iff a b,
  append_cancel_left "bal:" a b,
)

held_key_iff : (a b : String) → (held_key a === held_key b) ≡ (a === b)
unfolding held_key
held_key_iff a b = ground (
  arith,
  ===_iff (str_append "held:" a) (str_append "held:" b),
  ===_iff a b,
  append_cancel_left "held:" a b,
)

bal_not_held : (a b : String) → bal_key a ≡ held_key b → ⊥
unfolding bal_key held_key
bal_not_held a b h =
    letters
      (ap code (head-eq_of_cons-eq (sym (cons-append "b" "al:" a) ∙ h ∙ cons-append "h" "eld:" b)))
  where
    letters : code "b" ≡ code "h" → ⊥
    letters e = omega arith

module _ {Raw : Type 0} (json : Json Raw Num) where
  get-set :
      (kv : FileKv Raw Num) (n : ℕ) (j k : String) (x : Num)
      → or_else (kv_get (kv_set json kv n j x) k) (whole 0)
        ≡ (if j === k then x else or_else (kv_get kv k) (whole 0))
  unfolding kv_get kv_set flush
  get-set kv n j k x = ground (arith, lookup-insert j k x kv.cache)

  pub bal-set_bal :
      (kv : FileKv Raw Num) (n : ℕ) (a b : String) (x : Num)
      → file_bal (kv_set json kv n (bal_key a) x) b ≡ (if a === b then x else file_bal kv b)
  unfolding file_bal
  bal-set_bal kv n a b x = ground (arith, get-set kv n (bal_key a) (bal_key b) x, bal_key_iff a b)

  pub held-set_held :
      (kv : FileKv Raw Num) (n : ℕ) (a b : String) (x : Num)
      → file_held (kv_set json kv n (held_key a) x) b ≡ (if a === b then x else file_held kv b)
  unfolding file_held
  held-set_held kv n a b x =
      ground (arith, get-set kv n (held_key a) (held_key b) x, held_key_iff a b)

  pub bal-set_held :
      (kv : FileKv Raw Num) (n : ℕ) (a b : String) (x : Num)
      → file_bal (kv_set json kv n (held_key a) x) b ≡ file_bal kv b
  unfolding file_bal
  bal-set_held kv n a b x = ground (
    arith,
    get-set kv n (held_key a) (bal_key b) x,
    ===_iff (held_key a) (bal_key b),
    bal_not_held b a,
  )

  pub held-set_bal :
      (kv : FileKv Raw Num) (n : ℕ) (a b : String) (x : Num)
      → file_held (kv_set json kv n (bal_key a) x) b ≡ file_held kv b
  unfolding file_held
  held-set_bal kv n a b x = ground (
    arith,
    get-set kv n (bal_key a) (held_key b) x,
    ===_iff (bal_key a) (held_key b),
    bal_not_held a b,
  )
