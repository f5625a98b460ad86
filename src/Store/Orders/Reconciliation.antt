-- ===== src/Store/Orders/Reconciliation.antt =====
-- How the book of open orders serves the matcher (backend/server/src/open-orders.ts).
use nzela.Base.{
  ◌≡◌, refl, ap, ◌∙◌, Bool, true, false, Option, none, some, List, [], ◌∷◌, map, String, arith,
  ◌===◌, ===_iff, find, any, keep, if◌then◌else◌, inl, inr, Bool-cases,
}
use nzela.Dict.{Dict, lookup, has}
use nzela.Store.{FileKv, kv_get, kv_keys}
use nzela.Store.Orders.{OpenOrderRecord, is_open, as_open_order, present, open_orders}
use nzela.Payment.{OpenOrder, has_ref}

-- Each record stands under its own reference.
abbrev pub IsKeyed : {Raw : Type 0} → FileKv Raw OpenOrderRecord → Type 0
IsKeyed book = (k : String) (r : OpenOrderRecord) → kv_get book k ≡ some r → r.tk_ref ≡ k

-- The open order under a reference, by one look into the book.
unfoldable pub open_of : Option OpenOrderRecord → Option OpenOrder
open_of none = none
open_of (some r) = if is_open r then some (as_open_order r) else none

abbrev pub open_at : {Raw : Type 0} → FileKv Raw OpenOrderRecord → String → Option OpenOrder
open_at book k = open_of (kv_get book k)

-- What the records give the matcher, in their order.
abbrev offered : List (Option OpenOrderRecord) → List OpenOrder
offered l = map as_open_order (keep is_open (present l))

-- `rest`, unless the first order has the reference.
abbrev seen : String → Option OpenOrder → Option OpenOrder → Option OpenOrder
seen k none rest = rest
seen k (some o) rest = if has_ref k o then some o else rest

find-cons :
    {A : Type 0} (p : A → Bool) (x : A) (xs : List A)
    → find p (x ∷ xs) ≡ (if p x then some x else find p xs)
find-cons p x xs = elim (Bool-cases (p x)) [ inl e ↦ rw (e, find) refl | inr e ↦ rw (e, find) refl ]

find-offered_cons :
    (k : String) (v : Option OpenOrderRecord) (l : List (Option OpenOrderRecord))
    → find (has_ref k) (offered (v ∷ l)) ≡ seen k (open_of v) (find (has_ref k) (offered l))
unfolding present open_of
find-offered_cons k none l = refl
find-offered_cons k (some r) l = elim (Bool-cases (is_open r)) [
  | inl e ↦ rw (e, keep) (find-cons (has_ref k) (as_open_order r) (offered l))
  | inr e ↦ rw (e, keep) refl
]

has_ref_own : (k : String) (o : OpenOrder) → o.tk_ref ≡ k → has_ref k o ≡ true
unfolding has_ref
has_ref_own k o e = (===_iff o.tk_ref k).1 e

has_ref_other :
    (k j : String) (o : OpenOrder) → (j === k) ≡ false → o.tk_ref ≡ j → has_ref k o ≡ false
unfolding has_ref
has_ref_other k j o n e = rw e n

seen_own :
    (k : String) (v : Option OpenOrder) (c : Bool)
    → ((o : OpenOrder) → v ≡ some o → o.tk_ref ≡ k)
    → seen k v (if c then v else none) ≡ v
seen_own k none true h = refl
seen_own k none false h = refl
seen_own k (some o) c h = rw (has_ref_own k o (h o refl)) refl

seen_other :
    (k j : String) (v rest : Option OpenOrder)
    → (j === k) ≡ false
    → ((o : OpenOrder) → v ≡ some o → o.tk_ref ≡ j)
    → seen k v rest ≡ rest
seen_other k j none rest n h = refl
seen_other k j (some o) rest n h = rw (has_ref_other k j o n (h o refl)) refl

open_of-ref :
    (j : String) (v : Option OpenOrderRecord) (o : OpenOrder)
    → ((r : OpenOrderRecord) → v ≡ some r → r.tk_ref ≡ j)
    → open_of v ≡ some o
    → o.tk_ref ≡ j
unfolding open_of as_open_order
open_of-ref j none o keyed h = cc
open_of-ref j (some r) o keyed h = let own = keyed r refl in ground arith

module _ {Raw : Type 0} (book : FileKv Raw OpenOrderRecord) (keyed : IsKeyed book) where
  open_at-ref : (j : String) (o : OpenOrder) → open_at book j ≡ some o → o.tk_ref ≡ j
  open_at-ref j o h = open_of-ref j (kv_get book j) o (keyed j) h

  find-offered :
      (k : String) (ks : List String)
      → find (has_ref k) (offered (map (kv_get book) ks))
        ≡ (if any (λ j. j === k) ks then open_at book k else none)
  unfolding present
  find-offered k [] = refl
  find-offered k (j ∷ ks) =
      find-offered_cons k (kv_get book j) (map (kv_get book) ks)
      ∙ ap (seen k (open_at book j)) (find-offered k ks)
      ∙ elim (Bool-cases (j === k)) [
        | inl e ↦ rw (e, (===_iff j k).0 e) (seen_own k (open_at book k) _ (open_at-ref k))
        | inr c ↦ rw c (seen_other k j (open_at book j) _ c (open_at-ref j))
      ]

any-has : {V : Type 0} (m : Dict V) (k : String) → any (λ j. j === k) (map (λ e. e.0) m) ≡ has k m
unfolding has lookup
any-has [] k = refl
any-has ((j, v) ∷ m) k = ground (arith, any-has m k)

has-none : {V : Type 0} (m : Dict V) (k : String) → has k m ≡ false → lookup k m ≡ none
unfolding has
has-none m k h = ground arith

module _ {Raw : Type 0} where
  -- The matcher's search for a reference among the open orders finds what stands under it in the
  -- book, when that is unpaid, and nothing otherwise.
  pub find-open_orders :
      (book : FileKv Raw OpenOrderRecord) (k : String)
      → IsKeyed book
      → find (has_ref k) (open_orders book) ≡ open_at book k
  unfolding open_orders kv_keys kv_get open_of
  find-open_orders book k keyed =
      find-offered book keyed k (map (λ e. e.0) book.cache)
      ∙ ap (λ b. if b then open_at book k else none) (any-has book.cache k)
      ∙ elim (Bool-cases (has k book.cache)) [
        | inl e ↦ rw e refl
        | inr e ↦ rw (e, has-none book.cache k e) refl
      ]
