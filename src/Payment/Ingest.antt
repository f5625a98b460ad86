-- ===== src/Payment/Ingest.antt =====
-- The endpoint of the forwarded SMS (backend/lipa-ingest/src/server.ts), wired to the book of open
-- orders (backend/server/src/bootstrap.ts). The parser of the SMS is a parameter, and a request is its
-- token and its `body` and `from`; `sendText` and the analytics never throw.
use nzela.Base.{
  ℕ, Bool, false, not, Option, none, some, List, ◌∷◌, String, if◌then◌else◌, or_else, truthy, ◌===◌,
}
use nzela.Num.{Num}
use nzela.Ledger.{write, free_event, LedgerEventType, lipa, Actor}
use nzela.Store.{Json, FileKv}
use nzela.Store.Orders.{OpenOrderRecord, mark_paid, open_orders, wa_id_for}
use nzela.Payment.{
  ParsedPayment, MismatchReason, default_tolerance, Verifier, VerifiedMatch, verified, replayed,
  refused, verify_payment, operator_text,
}

record Sms : Type 0 where
  sender : Option String
  body : Option String

pub data Verdict : Type 0 where
  bad_token body_required ignored replay_rejected : Verdict
  -- reference and amount
  payment_verified : String → Num → Verdict
  unmatched_payment : MismatchReason → Verdict

-- The endpoint, the book behind it, the customers who were told, and the references of the
-- `Purchase` events.
pub record Ingest (Raw : Type 0) : Type 0 where
  pub verifier : Verifier
  pub book : FileKv Raw OpenOrderRecord
  pub told : List (String × String)
  pub purchases : List String

-- `tokenOk`: two texts are equal when their bytes are.
unfoldable token_ok : Option String → String → Bool
token_ok none expected = false
token_ok (some provided) expected = provided === expected

module _ {Raw : Type 0} (json : Json Raw OpenOrderRecord) where
  -- `onVerified`: the order is marked as paid, and its customer told.
  unfoldable pub on_verified : Ingest Raw → ℕ → String → String → String → Ingest Raw
  unfolding mark_paid wa_id_for truthy
  on_verified s nonce now tk operator =
      let book = (mark_paid json s.book nonce now tk operator).0 in
      elim (truthy (wa_id_for book tk)) [
        | none ↦ record s { book = book }
        | some wa ↦ record s { book = book; told = (wa, tk) ∷ s.told }
      ]

  unfoldable pub settle_verdict :
      Ingest Raw → ℕ → String → ParsedPayment → VerifiedMatch → Ingest Raw × Verdict
  unfolding on_verified
  settle_verdict s nonce now p (verified order exact) =
      let s' = on_verified s nonce now order.tk_ref (operator_text p.operator) in
      (
        record s' { purchases = order.tk_ref ∷ s'.purchases },
        payment_verified order.tk_ref p.amount_fc,
      )
  settle_verdict s nonce now p replayed = (s, replay_rejected)
  settle_verdict s nonce now p (refused reason) = (s, unmatched_payment reason)

  unfoldable pub handle_payment : Ingest Raw → ℕ → String → ParsedPayment → Ingest Raw × Verdict
  unfolding verify_payment settle_verdict open_orders
  handle_payment s nonce now p =
      let (v, result) = verify_payment s.verifier p (open_orders s.book) default_tolerance in
      settle_verdict (record s { verifier = v }) nonce now p result

  -- `POST /lipa/sms`
  unfoldable handle_sms :
      (String → String → Option ParsedPayment)
      → String
      → Ingest Raw
      → ℕ
      → String
      → Option String
      → Sms
      → Ingest Raw × Verdict
  unfolding token_ok truthy handle_payment
  handle_sms parse expected s nonce now token sms =
      if not (token_ok token expected) then (s, bad_token) else elim (truthy sms.body) [
        | none ↦ (s, body_required)
        | some body ↦ elim (parse body (or_else sms.sender "")) [
          | none ↦
              let v = s.verifier in
              (
                record s {
                  verifier = record v {
                    ledger =
                        write v.ledger
                          (free_event LedgerEventType.deterministic (Actor.agent lipa) none);
                  };
                },
                ignored,
              )
          | some p ↦ handle_payment s nonce now p
        ]
      ]
