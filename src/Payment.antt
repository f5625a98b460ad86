-- ===== src/Payment.antt =====
-- Payments against open orders (backend/lipa-ingest/src/matcher.ts) and the replay index
-- (backend/lipa-ingest/src/replay.ts). Dates are left out; `needsEscalation` takes milliseconds.
pub mod Matching
pub mod Clearing
pub mod Ingest
pub mod Settlement
pub mod Replays
use nzela.Base.{
  ℕ, ◌-◌, ◌+◌, ◌*◌, Bool, true, false, not, ◌&&◌, ◌||◌, Option, none, some, List, [], ◌∷◌, ◌++◌,
  String, if◌then◌else◌, ◌===◌, truthy, keep, find, leb,
}
use nzela.Num.{Num, whole, is_finite, ◌<ₙ◌, ◌≤ₙ◌, ◌-ₙ◌, negate}
use nzela.Num.Laws.{amount}
use nzela.Dict.{Dict, has, insert}
use nzela.Ledger.{Actor, lipa, LedgerEvent, Events, write, ai, block, no_meta, free_event}
use Prim.Native.String.{◌++◌ as str_append}

abbrev match_escalation_ms : ℕ
match_escalation_ms = 3 * 60_000

pub data MobileMoneyOperator : Type 0 where
  mpesa orange airtel africell : MobileMoneyOperator

pub record ParsedPayment : Type 0 where
  pub operator : MobileMoneyOperator
  pub amount_fc : Num
  pub transaction_id : Option String
  pub payer : Option String
  pub tk_ref : Option String
  pub dedup_hash : Option String

pub record OpenOrder : Type 0 where
  pub tk_ref : String
  pub total_fc : Num
  pub wa_id : String

pub data MismatchReason : Type 0 where
  no_ref unknown_ref amount_mismatch underpaid invalid_amount : MismatchReason

pub data MatchResult : Type 0 where
  matched : OpenOrder → Bool → MatchResult
  unmatched : MismatchReason → MatchResult

pub record MatchTolerance : Type 0 where
  pub underpay_fc : Num
  pub overpay_fc : Num

abbrev pub default_tolerance : MatchTolerance
default_tolerance = record { underpay_fc = whole 0; overpay_fc = whole 100 }

unfoldable pub amount_ok : Num → Num → MatchTolerance → Bool
amount_ok due paid t =
    let diff = paid -ₙ due in negate t.underpay_fc ≤ₙ diff && diff ≤ₙ t.overpay_fc

-- The event that the matcher logs.
unfoldable pub match_event : Option String → LedgerEvent
match_event tk_ref = record {
  kind = ai;
  actor = Actor.agent lipa;
  cost_usd = amount 200;
  tk_ref = tk_ref;
  meta = no_meta;
}

unfoldable pub clears : ParsedPayment → MatchTolerance → OpenOrder → Bool
clears payment t o = amount_ok o.total_fc payment.amount_fc t

-- The candidates by amount: a single one is the match.
unfoldable pub match_single : List OpenOrder → Events → MatchResult × Events
match_single [] ledger = (unmatched no_ref, write ledger (match_event none))
match_single (o ∷ []) ledger = (matched o false, write ledger (match_event (some o.tk_ref)))
match_single (o ∷ p ∷ rest) ledger = (unmatched no_ref, write ledger (match_event none))

unfoldable pub match_by_amount :
    ParsedPayment → List OpenOrder → Events → MatchTolerance → MatchResult × Events
match_by_amount payment open_orders ledger t =
    match_single (keep (clears payment t) open_orders) ledger

unfoldable pub has_ref : String → OpenOrder → Bool
has_ref r o = o.tk_ref === r

unfoldable pub match_by_ref :
    ParsedPayment → String → List OpenOrder → Events → MatchTolerance → MatchResult × Events
match_by_ref payment r open_orders ledger t = elim (find (has_ref r) open_orders) [
  | none ↦ (unmatched unknown_ref, write ledger (match_event none))
  | some order ↦
      if amount_ok order.total_fc payment.amount_fc t
      then (matched order true, write ledger (match_event (some order.tk_ref)))
      else (
        unmatched (if payment.amount_fc <ₙ order.total_fc then underpaid else amount_mismatch),
        write ledger (match_event (some order.tk_ref)),
      )
]

unfoldable pub match_payment :
    ParsedPayment → List OpenOrder → Events → MatchTolerance → MatchResult × Events
match_payment payment open_orders ledger t =
    if not (is_finite payment.amount_fc) || payment.amount_fc ≤ₙ whole 0
    then (unmatched invalid_amount, write ledger (match_event payment.tk_ref))
    else elim (truthy payment.tk_ref) [
      | none ↦ match_by_amount payment open_orders ledger t
      | some r ↦ match_by_ref payment r open_orders ledger t
    ]

-- `receivedAt` and `now` in milliseconds, `now` not before `receivedAt`.
unfoldable needs_escalation : ℕ → ℕ → Bool
needs_escalation received_at now = leb match_escalation_ms (now - received_at)

-- `MemoryReplayIndex`
abbrev pub ReplayIndex : Type 0
ReplayIndex = Dict (Unit {0})

unfoldable pub operator_text : MobileMoneyOperator → String
operator_text mpesa = "mpesa"
operator_text orange = "orange"
operator_text airtel = "airtel"
operator_text africell = "africell"

unfoldable pub ref_key : String → String
ref_key r = str_append "ref:" r

unfoldable pub txn_key : MobileMoneyOperator → String → String
txn_key op txn = str_append "txn:" (str_append (operator_text op) (str_append ":" txn))

unfoldable pub content_key : String → String
content_key h = str_append "content:" h

-- The key of an optional part, when the part is there.
unfoldable pub key_of : (String → String) → Option String → List String
key_of f o = elim (truthy o) [ none ↦ [] | some s ↦ f s ∷ [] ]

unfoldable pub payment_keys : ParsedPayment → List String
payment_keys p =
    key_of ref_key p.tk_ref
    ++ (key_of (txn_key p.operator) p.transaction_id ++ key_of content_key p.dedup_hash)

unfoldable pub add_keys : List String → ReplayIndex → ReplayIndex
add_keys [] index = index
add_keys (k ∷ ks) index = add_keys ks (insert k tt index)

unfoldable pub is_used : ReplayIndex → String → Bool
is_used index k = has k index

pub data VerifiedMatch : Type 0 where
  verified : OpenOrder → Bool → VerifiedMatch
  replayed : VerifiedMatch
  refused : MismatchReason → VerifiedMatch

pub record Verifier : Type 0 where
  pub index : ReplayIndex
  pub ledger : Events

-- The part of `verifyPayment` after the replay test.
unfoldable pub burn : Verifier → List String → MatchResult × Events → Verifier × VerifiedMatch
burn v keys (matched order exact, ledger) = (
  record { index = add_keys (keys ++ ref_key order.tk_ref ∷ []) v.index; ledger = ledger },
  verified order exact,
)
burn v keys (unmatched reason, ledger) = (record v { ledger = ledger }, refused reason)

unfoldable pub verify_payment :
    Verifier → ParsedPayment → List OpenOrder → MatchTolerance → Verifier × VerifiedMatch
verify_payment v payment open_orders t = elim (find (is_used v.index) (payment_keys payment)) [
  | some k ↦ (
    record v { ledger = write v.ledger (free_event block (Actor.agent lipa) payment.tk_ref) },
    replayed,
  )
  | none ↦ burn v (payment_keys payment) (match_payment payment open_orders v.ledger t)
]
