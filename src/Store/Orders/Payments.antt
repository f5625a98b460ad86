-- ===== src/Store/Orders/Payments.antt =====
-- How the book of open orders changes when an order is placed and paid
-- (backend/server/src/open-orders.ts).
use nzela.Base.{
  ℕ, ◌≡◌, refl, sym, ap, subst, ◌∙◌, Bool, true, false, none, some, String, arith, ◌===◌, ===_iff,
  ===_refl, find, is_some, truthy, if◌then◌else◌, inl, inr, Bool-cases, Option-cases,
}
use nzela.Num.{Num}
use nzela.Dict.{lookup-insert}
use nzela.Store.{Json, FileKv, kv_set, kv_get, flush}
use nzela.Store.Orders.{OpenOrderRecord, is_open, as_open_order, add_order, mark_paid, open_orders}
use nzela.Store.Orders.Reconciliation.{IsKeyed, open_of, open_at, find-open_orders}
use nzela.Payment.{has_ref}

open_found : (r : OpenOrderRecord) → is_open r ≡ true → true ≡ is_some (open_of (some r))
unfolding open_of
open_found r o = rw o refl

not_open : (r : OpenOrderRecord) → is_open r ≡ false → open_of (some r) ≡ none
unfolding open_of
not_open r c = rw c refl

module _ {Raw : Type 0} (json : Json Raw OpenOrderRecord) where
  kv_get-kv_set :
      (book : FileKv Raw OpenOrderRecord) (n : ℕ) (j k : String) (r : OpenOrderRecord)
      → kv_get (kv_set json book n j r) k ≡ (if j === k then some r else kv_get book k)
  unfolding kv_get kv_set flush
  kv_get-kv_set book n j k r = lookup-insert j k r book.cache

  set-IsKeyed :
      (book : FileKv Raw OpenOrderRecord) (n : ℕ) (j : String) (r : OpenOrderRecord)
      → IsKeyed book
      → r.tk_ref ≡ j
      → IsKeyed (kv_set json book n j r)
  set-IsKeyed book n j r keyed own k s h = elim (Bool-cases (j === k)) [
    | inl e ↦ here (rw e at (sym (kv_get-kv_set book n j k r) ∙ h)) ((===_iff j k).0 e)
    | inr e ↦ keyed k s (rw e at (sym (kv_get-kv_set book n j k r) ∙ h))
  ]
    where
      here : some r ≡ some s → j ≡ k → s.tk_ref ≡ k
      here p q = cc

  set-open_at :
      (book : FileKv Raw OpenOrderRecord) (n : ℕ) (j k : String) (r : OpenOrderRecord)
      → open_at (kv_set json book n j r) k ≡ (if j === k then open_of (some r) else open_at book k)
  set-open_at book n j k r = elim (Bool-cases (j === k)) [
    | inl e ↦ rw (kv_get-kv_set book n j k r, e) refl
    | inr e ↦ rw (kv_get-kv_set book n j k r, e) refl
  ]

  paid_record : String → String → OpenOrderRecord → OpenOrderRecord
  paid_record now operator r = record r { paid_at_iso = some now; operator = some operator }

  paid_closed :
      (now operator : String) (r : OpenOrderRecord)
      → truthy (some now) ≡ some now
      → open_of (some (paid_record now operator r)) ≡ none
  unfolding open_of is_open paid_record
  paid_closed now operator r t = rw t refl

  -- What one call of `markPaid` does: it tells whether the order was open, closes it, and leaves the
  -- other orders and the form of the book as they are.
  abbrev Closes : FileKv Raw OpenOrderRecord → String → FileKv Raw OpenOrderRecord × Bool → Type 0
  Closes book tk r =
      (r.1 ≡ is_some (open_at book tk))
      × ((k : String) → open_at r.0 k ≡ (if tk === k then none else open_at book k))
      × IsKeyed r.0

  unchanged :
      (book : FileKv Raw OpenOrderRecord) (tk : String)
      → IsKeyed book
      → open_at book tk ≡ none
      → Closes book tk (book, false)
  unchanged book tk keyed h = (
    rw h refl,
    λ k. elim (Bool-cases (tk === k)) [
      | inl e ↦ rw (e, ← (===_iff tk k).0 e) h
      | inr e ↦ rw e refl
    ],
    keyed,
  )

  refused_call :
      (book : FileKv Raw OpenOrderRecord) (n : ℕ) (now tk operator : String)
      → open_at book tk ≡ none
      → mark_paid json book n now tk operator ≡ (book, false)
  unfolding mark_paid open_of
  refused_call book n now tk operator h = ground arith

  accepted_call :
      (book : FileKv Raw OpenOrderRecord) (n : ℕ) (now tk operator : String) (r : OpenOrderRecord)
      → kv_get book tk ≡ some r
      → is_open r ≡ true
      → mark_paid json book n now tk operator
        ≡ (kv_set json book n tk (paid_record now operator r), true)
  unfolding mark_paid paid_record
  accepted_call book n now tk operator r e o = ground arith

  accepted-Closes :
      (book : FileKv Raw OpenOrderRecord) (n : ℕ) (now tk operator : String) (r : OpenOrderRecord)
      → IsKeyed book
      → truthy (some now) ≡ some now
      → kv_get book tk ≡ some r
      → is_open r ≡ true
      → Closes book tk (kv_set json book n tk (paid_record now operator r), true)
  unfolding paid_record
  accepted-Closes book n now tk operator r keyed t e o = (
    rw e (open_found r o),
    λ k.
        set-open_at book n tk k (paid_record now operator r)
        ∙ ap (λ v. if tk === k then v else open_at book k) (paid_closed now operator r t),
    set-IsKeyed book n tk (paid_record now operator r) keyed (keyed tk r e),
  )

  -- `markPaid` tells whether the order was open, closes it if it was, and leaves the other orders as
  -- they are: in a book whose records stand under their references, at a time that is not empty.
  pub mark_paid_lem :
      (book : FileKv Raw OpenOrderRecord) (n : ℕ) (now tk operator : String)
      → IsKeyed book
      → truthy (some now) ≡ some now
      → Closes book tk (mark_paid json book n now tk operator)
  unfolding open_of
  mark_paid_lem book n now tk operator keyed t = elim (Option-cases (kv_get book tk)) [
    | inl e ↦ refuse (rw e refl)
    | inr r ↦ elim (Bool-cases (is_open r.0)) [
      | inl o ↦
          subst (Closes book tk) (sym (accepted_call book n now tk operator r.0 r.1 o))
            (accepted-Closes book n now tk operator r.0 keyed t r.1 o)
      | inr c ↦ refuse (ap open_of r.1 ∙ not_open r.0 c)
    ]
  ]
    where
      refuse : open_at book tk ≡ none → Closes book tk (mark_paid json book n now tk operator)
      refuse h =
          subst (Closes book tk) (sym (refused_call book n now tk operator h))
            (unchanged book tk keyed h)

  pub add_order-IsKeyed :
      (book : FileKv Raw OpenOrderRecord) (n : ℕ) (tk : String) (total : Num) (wa placed : String)
      → IsKeyed book
      → IsKeyed (add_order json book n tk total wa placed)
  unfolding add_order
  add_order-IsKeyed book n tk total wa placed keyed = set-IsKeyed book n tk _ keyed refl

  pub add_order-open_at :
      (book : FileKv Raw OpenOrderRecord) (n : ℕ) (tk k : String) (total : Num) (wa placed : String)
      → open_at (add_order json book n tk total wa placed) k ≡ (
          if tk === k
          then some (record { tk_ref = tk; total_fc = total; wa_id = wa })
          else open_at book k)
  unfolding add_order open_of is_open truthy as_open_order
  add_order-open_at book n tk k total wa placed = set-open_at book n tk k _

  -- An order that is placed is what the matcher finds under its reference; the first call of
  -- `markPaid` answers true and the matcher finds it no more; a second call answers false and changes
  -- nothing. The book's records stand under their references, and the time is not empty.
  pub place_then_pay :
      (book : FileKv Raw OpenOrderRecord) (n n2 n3 : ℕ) (tk : String) (total : Num)
      (wa placed now operator now3 operator3 : String)
      → IsKeyed book
      → truthy (some now) ≡ some now
      → let b1 = add_order json book n tk total wa placed in
        let paid = mark_paid json b1 n2 now tk operator in
        (find (has_ref tk) (open_orders b1)
          ≡ some (record { tk_ref = tk; total_fc = total; wa_id = wa }))
        × (paid.1 ≡ true)
        × (find (has_ref tk) (open_orders paid.0) ≡ none)
        × (mark_paid json paid.0 n3 now3 tk operator3 ≡ (paid.0, false))
  place_then_pay book n n2 n3 tk total wa placed now operator now3 operator3 keyed t =
      let b1 = add_order json book n tk total wa placed in
      let keyed1 = add_order-IsKeyed book n tk total wa placed keyed in
      let there =
        add_order-open_at book n tk tk total wa placed
        ∙ ap
            (λ b.
              if b
              then some (record { tk_ref = tk; total_fc = total; wa_id = wa })
              else open_at book tk)
            (===_refl tk) in
      let paid = mark_paid json b1 n2 now tk operator in
      let k = mark_paid_lem b1 n2 now tk operator keyed1 t in
      let gone = k.1 tk ∙ ap (λ b. if b then none else open_at b1 tk) (===_refl tk) in
      (
        find-open_orders b1 tk keyed1 ∙ there,
        k.0 ∙ ap is_some there,
        find-open_orders paid.0 tk k.2 ∙ gone,
        refused_call paid.0 n3 now3 tk operator3 gone,
      )
