-- ===== src/Tests/Payments.antt =====
-- Payments, the file stores and referrals at concrete inputs (backend/lipa-ingest/src,
-- shared/persistence/src/filekv.ts, backend/server/src/open-orders.ts, backend/acquisition/src).
mod Stores
use nzela.Base.{
  ℕ, ◌*◌, ◌≡◌, refl, ◌⊎◌, Bool, true, false, not, Option, none, some, List, [], ◌∷◌, ◌++◌, String,
  arith, ◌===◌, truthy, find,
}
use nzela.Base.Result.{Result, err}
use nzela.Num.{Num, whole, is_finite, ◌≤ₙ◌, ◌<ₙ◌, ◌=ₙ◌, ◌+ₙ◌, ◌-ₙ◌, negate}
use nzela.Base.Int.{◌+ℤ◌, ◌-ℤ◌}
use nzela.Dict.{has, lookup, insert}
use nzela.Ledger.{Events, write}
use nzela.Payment.{
  mpesa, ParsedPayment, OpenOrder, matched, MatchTolerance, default_tolerance, amount_ok,
  match_event, clears, match_single, match_by_amount, has_ref, match_by_ref, match_payment, ref_key,
  txn_key, content_key, key_of, payment_keys, add_keys, is_used, verified, replayed, Verifier, burn,
  verify_payment, operator_text,
}
use nzela.Payment.Clearing.{IsCleared}
use nzela.Payment.Matching.{match_payment_lem, default-amount_ok}
use nzela.Payment.Replays.{Attempt, attempts, verify_payment_lem, verified_once}
use nzela.Referral.{
  default_referral, QualifyingOrder, RewardOutcome, Credit, Referrals, ReferralPorts,
  referrer_credit, referee_credit, on_order_paid,
}
use nzela.Referral.Once.{paid_orders, credited_once}
use mathlib.Core.List.{Memᴰ}

abbrev tk_order : OpenOrder
tk_order = record { tk_ref = "TK-1"; total_fc = whole 20_000; wa_id = "243" }

abbrev payment : ParsedPayment
payment = record {
  operator = mpesa;
  amount_fc = whole 20_050;
  transaction_id = some "MP9";
  payer = none;
  tk_ref = none;
  dedup_hash = some "h1";
}

-- The same text, sent again with the reference typed in.
abbrev forwarded : ParsedPayment
forwarded = record payment { tk_ref = some "TK-2"; transaction_id = none }

payment_matches :
    (match_payment payment (tk_order ∷ []) [] default_tolerance).0 ≡ matched tk_order false
unfolding match_payment match_by_amount match_single clears amount_ok is_finite ◌≤ₙ◌ ◌<ₙ◌ ◌=ₙ◌ ◌-ₙ◌
    ◌+ₙ◌ negate ◌+ℤ◌ ◌-ℤ◌ truthy ◌===◌
payment_matches = refl

payment_fits :
    (is_finite (whole 20_050) ≡ true)
    × (amount_ok (whole 20_000) (whole 20_050) default_tolerance ≡ true)
unfolding amount_ok is_finite ◌≤ₙ◌ ◌<ₙ◌ ◌=ₙ◌ ◌-ₙ◌ ◌+ₙ◌ negate ◌+ℤ◌ ◌-ℤ◌
payment_fits = (refl, refl)

abbrev verifier : Verifier
verifier = record { index = []; ledger = [] }

payment_verified :
    (verify_payment verifier payment (tk_order ∷ []) default_tolerance).1 ≡ verified tk_order false
unfolding verify_payment burn payment_keys key_of is_used has lookup txn_key content_key
    match_payment match_by_amount match_single clears amount_ok is_finite ◌≤ₙ◌ ◌<ₙ◌ ◌=ₙ◌ ◌-ₙ◌ ◌+ₙ◌
    negate ◌+ℤ◌ ◌-ℤ◌ truthy ◌===◌
payment_verified = refl

verify_payment_lem_example :
    (find (is_used []) (payment_keys payment) ≡ none)
    × IsCleared payment (tk_order ∷ []) default_tolerance tk_order false
verify_payment_lem_example =
    verify_payment_lem verifier payment (tk_order ∷ []) default_tolerance tk_order false
      payment_verified

content_burned : Memᴰ "content:h1" (payment_keys payment ++ ref_key "TK-1" ∷ [])
unfolding payment_keys key_of content_key txn_key truthy ◌===◌
content_burned = Memᴰ.tail (Memᴰ.head refl)

content_carried : Memᴰ "content:h1" (payment_keys forwarded)
unfolding payment_keys key_of content_key ref_key truthy ◌===◌
content_carried = Memᴰ.tail (Memᴰ.head refl)

abbrev other_attempt : Attempt
other_attempt = record {
  payment = forwarded;
  open_orders = tk_order ∷ [];
  tolerance = default_tolerance;
}

verified_once_example :
    let w =
      attempts
        (verify_payment verifier payment (tk_order ∷ []) default_tolerance).0
        (other_attempt ∷ []) in
    ((verify_payment w forwarded (tk_order ∷ []) default_tolerance).1 ≡ replayed)
    × ((verify_payment w forwarded (tk_order ∷ []) default_tolerance).0.index ≡ w.index)
verified_once_example =
    verified_once verifier payment (tk_order ∷ []) default_tolerance tk_order false payment_verified
      (other_attempt ∷ []) forwarded (tk_order ∷ []) default_tolerance "content:h1" content_burned
      content_carried

abbrev ports : ReferralPorts
ports = record {
  resolve_code = λ code. some "referrer";
  rewards_earned = λ wa. whole 3;
  issues = λ done c. true;
}

abbrev first_order : QualifyingOrder
first_order = record {
  wa_id = "243";
  tk_ref = "TK-1";
  amount_fc = whole 9_000;
  paid = true;
  is_first_paid_order = true;
  settled = some true;
}

abbrev no_referrals : Referrals
no_referrals = record { rewarded_refs = []; credits = []; ledger = [] }

credited_once_example :
    ((on_order_paid default_referral ports no_referrals first_order (some "TK1234A")).0.credits
      ≡ [])
    ⊎ ((later : List (QualifyingOrder × Option String))
        → (again : QualifyingOrder) → (code2 : Option String) → again.tk_ref ≡ "TK-1"
        → let w =
            paid_orders default_referral ports
              (on_order_paid default_referral ports no_referrals first_order (some "TK1234A")).0
              later in
          (on_order_paid default_referral ports w again code2).0.credits ≡ w.credits)
credited_once_example =
    credited_once default_referral ports no_referrals first_order (some "TK1234A")
