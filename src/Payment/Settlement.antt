-- ===== src/Payment/Settlement.antt =====
-- From an order that awaits its payment to the SMS that pays it, and its repetition
-- (backend/lipa-ingest/src/server.ts, backend/server/src/bootstrap.ts).
use nzela.Base.{
  ℕ, ◌≡◌, refl, sym, ap, subst, ◌∙◌, Bool, true, false, not, ◌||◌, none, some, List, [], ◌∷◌, ◌++◌,
  String, if◌then◌else◌, arith, ===_refl, find, truthy,
}
use nzela.Num.{whole, is_finite, ◌≤ₙ◌}
use nzela.Ledger.{Events, write}
use nzela.Store.{Json}
use nzela.Store.Orders.{OpenOrderRecord, mark_paid, open_orders}
use nzela.Store.Orders.Reconciliation.{IsKeyed, open_at, find-open_orders}
use nzela.Store.Orders.Payments.{mark_paid_lem}
use nzela.Payment.{
  ParsedPayment, OpenOrder, matched, MatchTolerance, default_tolerance, amount_ok, has_ref,
  match_event, match_by_ref, match_payment, ref_key, key_of, payment_keys, is_used, verified,
  replayed, burn, verify_payment, operator_text,
}
use nzela.Payment.Replays.{verify_fresh, verified_once, attempts}
use nzela.Payment.Ingest.{
  Ingest, payment_verified, replay_rejected, on_verified, settle_verdict, handle_payment,
}
use mathlib.Core.List.{Memᴰ}

-- A payment that names an open order and clears it.
pub record IsDue {Raw : Type 0} (s : Ingest Raw) (p : ParsedPayment) (o : OpenOrder) : Type 0 where
  pub named : truthy p.tk_ref ≡ some o.tk_ref
  pub is_open : open_at s.book o.tk_ref ≡ some o
  pub valid : (not (is_finite p.amount_fc) || p.amount_fc ≤ₙ whole 0) ≡ false
  pub clears : amount_ok o.total_fc p.amount_fc default_tolerance ≡ true
  pub fresh : find (is_used s.verifier.index) (payment_keys p) ≡ none

match_named :
    (p : ParsedPayment) (orders : List OpenOrder) (ledger : Events) (t : MatchTolerance)
    (o : OpenOrder)
    → (not (is_finite p.amount_fc) || p.amount_fc ≤ₙ whole 0) ≡ false
    → truthy p.tk_ref ≡ some o.tk_ref
    → find (has_ref o.tk_ref) orders ≡ some o
    → amount_ok o.total_fc p.amount_fc t ≡ true
    → match_payment p orders ledger t ≡ (matched o true, write ledger (match_event (some o.tk_ref)))
unfolding match_payment match_by_ref
match_named p orders ledger t o valid named found clears = ground arith

named_key :
    (p : ParsedPayment) (tk : String) (more : List String)
    → truthy p.tk_ref ≡ some tk
    → Memᴰ (ref_key tk) (payment_keys p ++ more)
unfolding payment_keys key_of
named_key p tk more e = rw (payment_keys, key_of, e) (Memᴰ.head refl)

named_key_own :
    (p : ParsedPayment) (tk : String)
    → truthy p.tk_ref ≡ some tk
    → Memᴰ (ref_key tk) (payment_keys p)
unfolding payment_keys key_of
named_key_own p tk e = rw (payment_keys, key_of, e) (Memᴰ.head refl)

module _ {Raw : Type 0} (json : Json Raw OpenOrderRecord) where
  book-on_verified :
      (s : Ingest Raw) (n : ℕ) (now tk operator : String)
      → (on_verified json s n now tk operator).book ≡ (mark_paid json s.book n now tk operator).0
  unfolding on_verified
  book-on_verified s n now tk operator = ground arith

  verifier-on_verified :
      (s : Ingest Raw) (n : ℕ) (now tk operator : String)
      → (on_verified json s n now tk operator).verifier ≡ s.verifier
  unfolding on_verified
  verifier-on_verified s n now tk operator = ground arith

  due_verified :
      (s : Ingest Raw) (p : ParsedPayment) (o : OpenOrder)
      → IsKeyed s.book
      → IsDue s p o
      → (verify_payment s.verifier p (open_orders s.book) default_tolerance).1 ≡ verified o true
  unfolding burn
  due_verified s p o keyed due =
      let found = find-open_orders s.book o.tk_ref keyed ∙ due.is_open in
      let m =
        match_named p (open_orders s.book) s.verifier.ledger default_tolerance o due.valid due.named
          found due.clears in
      rw (verify_fresh s.verifier p (open_orders s.book) default_tolerance due.fresh, m) refl

  verified-handle :
      (s : Ingest Raw) (p : ParsedPayment) (o : OpenOrder) (exact : Bool) (n : ℕ) (now : String)
      → (verify_payment s.verifier p (open_orders s.book) default_tolerance).1 ≡ verified o exact
      → handle_payment json s n now p
        ≡ settle_verdict json
            (record s {
              verifier = (verify_payment s.verifier p (open_orders s.book) default_tolerance).0;
            })
            n
            now
            p
            (verified o exact)
  unfolding handle_payment
  verified-handle s p o exact n now e = rw (handle_payment, e) refl

  replayed-handle :
      (s : Ingest Raw) (p : ParsedPayment) (n : ℕ) (now : String)
      → (verify_payment s.verifier p (open_orders s.book) default_tolerance).1 ≡ replayed
      → handle_payment json s n now p ≡ (
        record s {
          verifier = (verify_payment s.verifier p (open_orders s.book) default_tolerance).0;
        },
        replay_rejected,
      )
  unfolding handle_payment settle_verdict
  replayed-handle s p n now e = rw (handle_payment, e) refl

  -- An SMS that names an open order, clears it and carries no used code is verified for that order:
  -- the order is then no longer offered for payment. When the same SMS comes again it is rejected as a
  -- replay, and the book stays as it is. The book's records stand under their references, and the
  -- time is not empty.
  pub handle_payment-settles :
      (s : Ingest Raw) (p : ParsedPayment) (o : OpenOrder) (n n2 : ℕ) (now now2 : String)
      → IsKeyed s.book
      → truthy (some now) ≡ some now
      → IsDue s p o
      → let first = handle_payment json s n now p in
        let second = handle_payment json first.0 n2 now2 p in
        (first.1 ≡ payment_verified o.tk_ref p.amount_fc)
        × (find (has_ref o.tk_ref) (open_orders first.0.book) ≡ none)
        × (second.1 ≡ replay_rejected)
        × (second.0.book ≡ first.0.book)
  unfolding settle_verdict attempts
  handle_payment-settles s p o n n2 now now2 keyed timed due =
      let v = (verify_payment s.verifier p (open_orders s.book) default_tolerance).0 in
      let is_verified = due_verified s p o keyed due in
      let s1 : Ingest Raw = record s { verifier = v } in
      let told = on_verified json s1 n now o.tk_ref (operator_text p.operator) in
      let closes =
        mark_paid_lem json s.book n now o.tk_ref (operator_text p.operator) keyed timed in
      let again =
        verified_once s.verifier p (open_orders s.book) default_tolerance o true is_verified [] p
          (open_orders told.book) default_tolerance (ref_key o.tk_ref)
          (named_key p o.tk_ref _ due.named) (named_key_own p o.tk_ref due.named) in
      let e : told.verifier ≡ v =
        verifier-on_verified s1 n now o.tk_ref (operator_text p.operator) in
      let b = book-on_verified s1 n now o.tk_ref (operator_text p.operator) in
      let next = record told { purchases = o.tk_ref ∷ told.purchases } in
      let replay =
        subst (λ w. (verify_payment w p (open_orders told.book) default_tolerance).1 ≡ replayed)
          (sym e) again.0 in
      let first_eq = verified-handle s p o true n now is_verified in
      let second_eq = replayed-handle next p n2 now2 replay in
      let gone =
        find-open_orders (mark_paid json s.book n now o.tk_ref (operator_text p.operator)).0
          o.tk_ref closes.2
        ∙ closes.1 o.tk_ref
        ∙ ap (λ c. if c then none else open_at s.book o.tk_ref) (===_refl o.tk_ref) in
      subst
        (λ first.
          (first.1 ≡ payment_verified o.tk_ref p.amount_fc)
          × (find (has_ref o.tk_ref) (open_orders first.0.book) ≡ none)
          × ((handle_payment json first.0 n2 now2 p).1 ≡ replay_rejected)
          × ((handle_payment json first.0 n2 now2 p).0.book ≡ first.0.book))
        (sym first_eq)
        (
          refl,
          subst (λ k. find (has_ref o.tk_ref) (open_orders k) ≡ none) (sym b) gone,
          ap (λ r. r.1) second_eq,
          ap (λ r. r.0.book) second_eq,
        )
