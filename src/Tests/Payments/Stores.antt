-- ===== src/Tests/Payments/Stores.antt =====
-- The file stores at concrete inputs, on a file that is either a dictionary or a sealed file
-- (shared/persistence/src/filekv.ts, shared/ledger/src/persistence.ts, backend/server/src/open-orders.ts).
use nzela.Base.{
  ℕ, ◌+◌, ◌*◌, ◌≡◌, refl, Bool, true, false, Option, none, some, List, [], ◌∷◌, String, ◌===◌,
  ===_iff, arith, truthy, find,
}
use nzela.Base.Result.{ok, err}
use nzela.Num.{Num, whole, scale, is_finite, ◌≤ₙ◌, ◌<ₙ◌, ◌=ₙ◌, ◌+ₙ◌, ◌-ₙ◌, negate}
use nzela.Base.Int.{◌+ℤ◌, ◌-ℤ◌}
use nzela.Dict.{Dict, lookup, has}
use nzela.Acu.{owned, hold}
use nzela.Acu.Soundness.{empty_wallet}
use nzela.Payment.{
  mpesa, ParsedPayment, OpenOrder, amount_ok, has_ref, payment_keys, key_of, ref_key, txn_key,
  content_key, operator_text, is_used,
}
use nzela.Conversation.{Ports, PlacedOrder}
use nzela.Service.{Service, place_recorded}
use nzela.Service.Chain.{place_recorded-paid}
use nzela.Payment.Ingest.{Ingest, payment_verified, replay_rejected, handle_payment}
use nzela.Payment.Settlement.{IsDue, handle_payment-settles}
use nzela.Sessions.{Session, empty_session, session_of, file_session_of}
use nzela.Sessions.Agreement.{
  SessionOp, saving, resetting, memory_ops, file_ops, file_sessions_agree,
}
use nzela.Store.{
  Json, Cipher, FileKv, looks_encrypted, parse_object, load_plain, load_text, load, open_store,
  kv_get, kv_set, cannot_decrypt,
}
use nzela.Store.Durability.{
  JsonLaws, CipherLaws, KvOp, set_key, delete_key, apply_kv_ops, restart_lem, wrong_key_lem,
}
use nzela.Store.Orders.{OpenOrderRecord, is_open, as_open_order, add_order, mark_paid, open_orders}
use nzela.Store.Orders.Reconciliation.{IsKeyed, open_of}
use nzela.Store.Orders.Payments.{place_then_pay}
use nzela.Store.Wallet.{file_bal, file_held}
use nzela.Store.Wallet.Refinement.{
  Simulates, WalletCall, topping, balancing, reserving, committing, memory_answers, file_answers,
  file_wallet_refines,
}

data File (V : Type 0) : Type 0 where
  plain : Dict V → File V
  locked : ℕ → File V → File V

abbrev object_of : {V : Type 0} → File V → Option (Dict V)
object_of (plain m) = some m
object_of (locked n f) = none

abbrev is_locked : {V : Type 0} → File V → Bool
is_locked (plain m) = false
is_locked (locked n f) = true

abbrev unlock : {V : Type 0} → File V → Option (File V)
unlock (plain m) = none
unlock (locked n f) = some f

abbrev file_json : (V : Type 0) → Json (File V) V
file_json V = record {
  Value = File V;
  is_blank = λ f. false;
  json_parse = some;
  as_object = object_of;
  is_envelope = is_locked;
  stringify = plain;
}

abbrev file_cipher : (V : Type 0) → Cipher (File V)
file_cipher V = record { encrypt = locked; decrypt = unlock }

file_json-JsonLaws : (V : Type 0) → JsonLaws (file_json V)
unfolding parse_object
file_json-JsonLaws V = record { stringify_read = λ m. refl; stringify_not_blank = λ m. refl }

file_cipher-CipherLaws : (V : Type 0) → CipherLaws (file_json V) (file_cipher V)
unfolding looks_encrypted
file_cipher-CipherLaws V = record {
  opened = λ n s. refl;
  envelope = λ n s. refl;
  envelope_not_blank = λ n s. refl;
}

-- An old file in plain text, opened with a key.
abbrev old_store : FileKv (File ℕ) ℕ
old_store = record {
  cache = ("a", 1) ∷ [];
  cipher = some (file_cipher ℕ);
  disk = some (plain (("a", 1) ∷ []));
}

old_opened :
    open_store (file_json ℕ) (some (file_cipher ℕ)) (some (plain (("a", 1) ∷ []))) ≡ ok old_store
unfolding open_store load load_text load_plain looks_encrypted parse_object
old_opened = refl

abbrev some_writes : List (KvOp ℕ)
some_writes = set_key 5 "b" 2 ∷ delete_key 6 "a" ∷ []

restart_lem_example :
    open_store
      (file_json ℕ)
      (some (file_cipher ℕ))
      (apply_kv_ops (file_json ℕ) old_store some_writes).disk
    ≡ ok (apply_kv_ops (file_json ℕ) old_store some_writes)
restart_lem_example =
    restart_lem (file_json ℕ) (file_json-JsonLaws ℕ) (some (file_cipher ℕ))
      (some (plain (("a", 1) ∷ []))) old_store some_writes (file_cipher-CipherLaws ℕ) old_opened

-- A key that opens nothing of the first one's.
abbrev other_cipher : Cipher (File ℕ)
other_cipher = record { encrypt = λ n f. f; decrypt = λ f. none }

wrong_key_lem_example :
    open_store
      (file_json ℕ)
      (some other_cipher)
      (apply_kv_ops (file_json ℕ) (kv_set (file_json ℕ) old_store 4 "c" 3) some_writes).disk
    ≡ err cannot_decrypt
wrong_key_lem_example =
    wrong_key_lem (file_json ℕ) (file_cipher ℕ) other_cipher old_store 4 "c" 3 some_writes
      (file_cipher-CipherLaws ℕ) (λ m s. refl) refl

abbrev Book : Type 0
Book = FileKv (File OpenOrderRecord) OpenOrderRecord

abbrev no_orders : Book
no_orders = record { cache = []; cipher = none; disk = none }

no_orders-IsKeyed : IsKeyed no_orders
unfolding kv_get lookup
no_orders-IsKeyed k r h = cc

abbrev noon : String
noon = "2026-11-26T12:00:00.000Z"

noon_named : truthy (some noon) ≡ some noon
unfolding truthy ◌===◌
noon_named = refl

place_then_pay_example :
    let b1 = add_order (file_json OpenOrderRecord) no_orders 1 "TK-1" (whole 9_000) "243" noon in
    let paid = mark_paid (file_json OpenOrderRecord) b1 2 noon "TK-1" "mpesa" in
    (find (has_ref "TK-1") (open_orders b1)
      ≡ some (record { tk_ref = "TK-1"; total_fc = whole 9_000; wa_id = "243" }))
    × (paid.1 ≡ true)
    × (find (has_ref "TK-1") (open_orders paid.0) ≡ none)
    × (mark_paid (file_json OpenOrderRecord) paid.0 3 noon "TK-1" "orange" ≡ (paid.0, false))
place_then_pay_example =
    place_then_pay (file_json OpenOrderRecord) no_orders 1 2 3 "TK-1" (whole 9_000) "243" noon noon
      "mpesa" noon "orange" no_orders-IsKeyed noon_named

-- A book with one order.
abbrev one_record : OpenOrderRecord
one_record = record {
  tk_ref = "TK-1";
  total_fc = whole 9_000;
  wa_id = "243";
  placed_at_iso = noon;
  paid_at_iso = none;
  operator = none;
}

abbrev one_order : Book
one_order = record { cache = ("TK-1", one_record) ∷ []; cipher = none; disk = none }

one_order-IsKeyed : IsKeyed one_order
unfolding kv_get lookup
one_order-IsKeyed k r h = ground (arith, ===_iff "TK-1" k)

-- The SMS that pays it.
abbrev paying_sms : ParsedPayment
paying_sms = record {
  operator = mpesa;
  amount_fc = whole 9_000;
  transaction_id = some "MP1";
  payer = none;
  tk_ref = some "TK-1";
  dedup_hash = some "h";
}

abbrev awaited : OpenOrder
awaited = record { tk_ref = "TK-1"; total_fc = whole 9_000; wa_id = "243" }

abbrev awaiting : Ingest (File OpenOrderRecord)
awaiting = record {
  verifier = record { index = []; ledger = [] };
  book = one_order;
  told = [];
  purchases = [];
}

paying_sms-IsDue : IsDue awaiting paying_sms awaited
unfolding truthy kv_get lookup open_of is_open as_open_order is_finite amount_ok payment_keys key_of
    ref_key txn_key content_key operator_text is_used has ◌===◌ ◌≤ₙ◌ ◌<ₙ◌ ◌=ₙ◌ ◌-ₙ◌ ◌+ₙ◌ negate ◌+ℤ◌
    ◌-ℤ◌
paying_sms-IsDue = record {
  named = refl;
  is_open = refl;
  valid = refl;
  clears = refl;
  fresh = refl;
}

handle_payment-settles_example :
    let first = handle_payment (file_json OpenOrderRecord) awaiting 1 noon paying_sms in
    let second = handle_payment (file_json OpenOrderRecord) first.0 2 noon paying_sms in
    (first.1 ≡ payment_verified "TK-1" (whole 9_000))
    × (find (has_ref "TK-1") (open_orders first.0.book) ≡ none)
    × (second.1 ≡ replay_rejected)
    × (second.0.book ≡ first.0.book)
handle_payment-settles_example =
    handle_payment-settles (file_json OpenOrderRecord) awaiting paying_sms awaited 1 2 noon noon
      one_order-IsKeyed noon_named paying_sms-IsDue

-- A port that places every order at 9000 FC, and the service on it.
abbrev till : Ports ℕ
till = record {
  restaurants = λ w wa. (w, none);
  menu = λ w id. (w, none);
  place = λ w s. (
    w + 1,
    some (record {
      tk_ref = "TK-1";
      order_id = 501;
      recap = "merci";
      total_fc = some (whole 9_000);
    }),
  );
  status = λ w wa. (w, none);
}

abbrev opened : Service ℕ (File OpenOrderRecord)
opened = record { world = 0; book = no_orders }

abbrev ordered : Service ℕ (File OpenOrderRecord) × Option PlacedOrder
ordered =
    place_recorded (file_json OpenOrderRecord) till (λ w. w) (λ w. noon) opened
      (empty_session "243")

abbrev its_order : PlacedOrder
its_order = record {
  tk_ref = "TK-1";
  order_id = 501;
  recap = "merci";
  total_fc = some (whole 9_000);
}

abbrev listening : Ingest (File OpenOrderRecord)
listening = record {
  verifier = record { index = []; ledger = [] };
  book = ordered.0.book;
  told = [];
  purchases = [];
}

ordered_once : ordered.1 ≡ some its_order
unfolding place_recorded
ordered_once = refl

sms_names :
    (truthy paying_sms.tk_ref ≡ some "TK-1")
    × (find (is_used listening.verifier.index) (payment_keys paying_sms) ≡ none)
unfolding truthy payment_keys key_of ref_key txn_key content_key operator_text is_used has lookup
    ◌===◌
sms_names = (refl, refl)

place_recorded-paid_example :
    let first = handle_payment (file_json OpenOrderRecord) listening 1 noon paying_sms in
    let second = handle_payment (file_json OpenOrderRecord) first.0 2 noon paying_sms in
    (first.1 ≡ payment_verified "TK-1" (whole 9_000))
    × (find (has_ref "TK-1") (open_orders first.0.book) ≡ none)
    × (second.1 ≡ replay_rejected)
    × (second.0.book ≡ first.0.book)
place_recorded-paid_example =
    place_recorded-paid (file_json OpenOrderRecord) till (λ w. w) (λ w. noon) opened
      (empty_session "243") its_order (9_000 * scale) listening paying_sms 1 2 noon noon
      no_orders-IsKeyed ordered_once refl (omega arith) refl sms_names.0 refl sms_names.1 noon_named

abbrev no_balances : FileKv (File Num) Num
no_balances = record { cache = []; cipher = none; disk = none }

no_balances-Simulates : Simulates empty_wallet no_balances
unfolding file_bal file_held owned hold kv_get lookup
no_balances-Simulates = record { same_bal = λ a. refl; same_held = λ a. refl }

abbrev some_calls : List WalletCall
some_calls =
    topping 1 "a" (whole 5)
    ∷ reserving 2 "a" (whole 3)
    ∷ committing 3 4 "a" (whole 3) (whole 9)
    ∷ balancing 5 "a" (whole 0)
    ∷ []

file_wallet_refines_example :
    file_answers (file_json Num) no_balances some_calls ≡ memory_answers empty_wallet some_calls
file_wallet_refines_example =
    file_wallet_refines (file_json Num) some_calls empty_wallet no_balances no_balances-Simulates

abbrev no_sessions : FileKv (File Session) Session
no_sessions = record { cache = []; cipher = none; disk = none }

abbrev some_session_ops : List SessionOp
some_session_ops = saving 1 (empty_session "243") ∷ resetting 2 "243" ∷ []

file_sessions_agree_example :
    file_session_of (file_ops (file_json Session) no_sessions some_session_ops) "243"
    ≡ session_of (memory_ops [] some_session_ops) "243"
file_sessions_agree_example =
    file_sessions_agree (file_json Session) some_session_ops [] no_sessions (λ k. refl) "243"
