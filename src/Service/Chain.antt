-- ===== src/Service/Chain.antt =====
-- From the order that the engine places to the SMS that pays it (backend/server/src/bootstrap.ts).
use nzela.Base.{
  ℕ, ◌<◌, ◌≡◌, sym, ap, subst, ◌∙◌, true, false, not, ◌||◌, none, some, String, arith, ===_refl,
  find, truthy, or_else, inl, inr, Option-cases,
}
use nzela.Base.Int.{◌+ℤ◌, ◌-ℤ◌}
use nzela.Num.{whole, is_finite, ◌≤ₙ◌, ◌<ₙ◌, ◌=ₙ◌, ◌-ₙ◌, ◌+ₙ◌, negate}
use nzela.Num.Laws.{amount}
use nzela.Sessions.{Session}
use nzela.Store.{Json}
use nzela.Store.Orders.{OpenOrderRecord, add_order, open_orders}
use nzela.Store.Orders.Reconciliation.{IsKeyed, open_at}
use nzela.Store.Orders.Payments.{add_order-IsKeyed, add_order-open_at}
use nzela.Payment.{
  ParsedPayment, OpenOrder, default_tolerance, amount_ok, has_ref, payment_keys, is_used,
}
use nzela.Payment.Ingest.{Ingest, payment_verified, replay_rejected, handle_payment}
use nzela.Payment.Settlement.{handle_payment-settles}
use nzela.Conversation.{Ports, PlacedOrder}
use nzela.Service.{Service, record_order, place_recorded}

exact_amount_ok :
    (n : ℕ)
    → 0 < n
    → (amount_ok (amount n) (amount n) default_tolerance ≡ true)
      × ((not (is_finite (amount n)) || amount n ≤ₙ whole 0) ≡ false)
unfolding amount_ok is_finite ◌≤ₙ◌ ◌<ₙ◌ ◌=ₙ◌ ◌-ₙ◌ ◌+ₙ◌ negate ◌+ℤ◌ ◌-ℤ◌
exact_amount_ok n h = (ground arith, ground arith)

module _ {W Raw : Type 0} (json : Json Raw OpenOrderRecord) (base : Ports W) (nonce : W → ℕ)
    (now : W → String) where
  recorded :
      (v : Service W Raw) (s : Session) (o : PlacedOrder)
      → (place_recorded json base nonce now v s).1 ≡ some o
      → (n : ℕ) × (at : String) × ((place_recorded json base nonce now v s).0.book
          ≡ add_order json v.book n o.tk_ref (or_else o.total_fc (whole 0)) s.wa_id at)
  unfolding place_recorded record_order
  recorded v s o h = elim (Option-cases (base.place v.world s).1) [
    | inl e ↦ let e' : none ≡ some o = rw (place_recorded, e) at h in absurd cc
    | inr (p, e) ↦
        let e' : some p ≡ some o = rw (place_recorded, e) at h in
        let same : p ≡ o = cc in
        (
          nonce (base.place v.world s).0,
          now (base.place v.world s).0,
          rw (place_recorded, e)
              (ap
                (λ (q : PlacedOrder).
                  add_order json v.book (nonce (base.place v.world s).0) q.tk_ref
                    (or_else q.total_fc (whole 0)) s.wa_id (now (base.place v.world s).0))
                same),
        )
  ]

  due_order : Session → PlacedOrder → ℕ → OpenOrder
  due_order s o n = record { tk_ref = o.tk_ref; total_fc = amount n; wa_id = s.wa_id }

  recorded_open :
      (v : Service W Raw) (s : Session) (o : PlacedOrder) (n : ℕ)
      → IsKeyed v.book
      → (place_recorded json base nonce now v s).1 ≡ some o
      → o.total_fc ≡ some (amount n)
      → IsKeyed (place_recorded json base nonce now v s).0.book
        × (open_at (place_recorded json base nonce now v s).0.book o.tk_ref
            ≡ some (due_order s o n))
  unfolding due_order
  recorded_open v s o n keyed placed total =
      let (k, at, e) = recorded v s o placed in
      let book = add_order json v.book k o.tk_ref (or_else o.total_fc (whole 0)) s.wa_id at in
      let there =
        add_order-open_at json v.book k o.tk_ref o.tk_ref (or_else o.total_fc (whole 0)) s.wa_id
          at in
      (
        subst (λ b. IsKeyed b) (sym e)
            (add_order-IsKeyed json v.book k o.tk_ref (or_else o.total_fc (whole 0)) s.wa_id at
              keyed),
        subst (λ b. open_at b o.tk_ref ≡ some (due_order s o n)) (sym e)
            (there
              ∙ rw (===_refl o.tk_ref) (
                  ap
                    (λ t. some (record {
                      tk_ref = o.tk_ref;
                      total_fc = or_else t (whole 0);
                      wa_id = s.wa_id;
                    }))
                    total)),
      )

  -- When the engine's port has placed an order at a total that is positive, an SMS that names the order,
  -- pays exactly this total and carries no used code is verified for it; the order is then no longer
  -- offered for payment, and the same SMS again is rejected as a replay and leaves the book as it is.
  -- The book's records stand under their references, and the time of the payment is not empty.
  pub place_recorded-paid :
      (v : Service W Raw) (s : Session) (o : PlacedOrder) (n : ℕ) (x : Ingest Raw)
      (p : ParsedPayment) (n1 n2 : ℕ) (now1 now2 : String)
      → IsKeyed v.book
      → (place_recorded json base nonce now v s).1 ≡ some o
      → o.total_fc ≡ some (amount n)
      → 0 < n
      → x.book ≡ (place_recorded json base nonce now v s).0.book
      → truthy p.tk_ref ≡ some o.tk_ref
      → p.amount_fc ≡ amount n
      → find (is_used x.verifier.index) (payment_keys p) ≡ none
      → truthy (some now1) ≡ some now1
      → let first = handle_payment json x n1 now1 p in
        let second = handle_payment json first.0 n2 now2 p in
        (first.1 ≡ payment_verified o.tk_ref p.amount_fc)
        × (find (has_ref o.tk_ref) (open_orders first.0.book) ≡ none)
        × (second.1 ≡ replay_rejected)
        × (second.0.book ≡ first.0.book)
  unfolding due_order
  place_recorded-paid v s o n x p n1 n2 now1 now2 keyed placed total positive same named exact fresh
        timed =
      let (keyed', open') = recorded_open v s o n keyed placed total in
      let (fits, valid) = exact_amount_ok n positive in
      handle_payment-settles json x p (due_order s o n) n1 n2 now1 now2
        (subst (λ b. IsKeyed b) (sym same) keyed') timed
        (record {
          named = named;
          is_open = subst (λ b. open_at b o.tk_ref ≡ some (due_order s o n)) (sym same) open';
          valid = subst (λ a. (not (is_finite a) || a ≤ₙ whole 0) ≡ false) (sym exact) valid;
          clears = subst (λ a. amount_ok (amount n) a default_tolerance ≡ true) (sym exact) fits;
          fresh = fresh;
        })
