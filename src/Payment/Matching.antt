-- ===== src/Payment/Matching.antt =====
-- What a match promises (backend/lipa-ingest/src/matcher.ts).
use nzela.Base.{
  ◌≡◌, refl, sym, ap, subst, ◌∙◌, inl, inr, Bool, true, false, not, ◌||◌, none, some, List, [], ◌∷◌,
  String, arith, ===_iff, truthy, keep, find, Bool-cases, Option-cases,
}
use nzela.Base.Int.{◌+ℤ◌, ◌-ℤ◌}
use nzela.Num.{Num, nan, inf, neg_inf, fin, whole, is_finite, ◌≤ₙ◌, ◌+ₙ◌, ◌-ₙ◌, negate}
use nzela.Ledger.{Events}
use nzela.Payment.{
  ParsedPayment, OpenOrder, MatchResult, matched, invalid_amount, MatchTolerance, default_tolerance,
  amount_ok, clears, match_single, match_by_amount, has_ref, match_by_ref, match_payment,
}

-- The two ways to a match.
abbrev Matches : ParsedPayment → List OpenOrder → MatchTolerance → OpenOrder → Bool → Type 0
Matches payment orders t o true =
    (truthy payment.tk_ref ≡ some o.tk_ref) × (find (has_ref o.tk_ref) orders ≡ some o)
Matches payment orders t o false =
    (truthy payment.tk_ref ≡ none) × (keep (clears payment t) orders ≡ o ∷ [])

match_single_one :
    (l : List OpenOrder) (ledger : Events) (o : OpenOrder) (exact : Bool)
    → (match_single l ledger).0 ≡ matched o exact
    → (exact ≡ false) × (l ≡ o ∷ [])
unfolding match_single
match_single_one [] ledger o exact h = cc
match_single_one (p ∷ []) ledger o exact h = (cc, cc)
match_single_one (p ∷ q ∷ l) ledger o exact h = cc

find_holds : {A : Type 0} (p : A → Bool) (xs : List A) (x : A) → find p xs ≡ some x → p x ≡ true
find_holds p [] x h = cc
find_holds p (y ∷ ys) x h = elim (Bool-cases (p y)) [
  | inl e ↦ here (rw (e, find) at h) e
  | inr e ↦ find_holds p ys x (rw (e, find) at h)
]
  where
    here : some y ≡ some x → p y ≡ true → p x ≡ true
    here s e = cc

keep_holds :
    {A : Type 0} (p : A → Bool) (xs : List A) (x : A) (rest : List A)
    → keep p xs ≡ x ∷ rest
    → p x ≡ true
keep_holds p [] x rest h = cc
keep_holds p (y ∷ ys) x rest h = elim (Bool-cases (p y)) [
  | inl e ↦ here (rw (e, keep) at h) e
  | inr e ↦ keep_holds p ys x rest (rw (e, keep) at h)
]
  where
    here : y ∷ keep p ys ≡ x ∷ rest → p y ≡ true → p x ≡ true
    here s e = cc

by_ref_match :
    (payment : ParsedPayment) (r : String) (orders : List OpenOrder) (ledger : Events)
    (t : MatchTolerance) (o : OpenOrder) (exact : Bool)
    → (match_by_ref payment r orders ledger t).0 ≡ matched o exact
    → (exact ≡ true)
      × (find (has_ref r) orders ≡ some o)
      × (amount_ok o.total_fc payment.amount_fc t ≡ true)
unfolding match_by_ref
by_ref_match payment r orders ledger t o exact h = ground arith

-- What is shown of a match: Matches, and the amount.
abbrev pub IsMatch : ParsedPayment → List OpenOrder → MatchTolerance → OpenOrder → Bool → Type 0
IsMatch payment orders t o exact =
    (is_finite payment.amount_fc ≡ true)
    × ((payment.amount_fc ≤ₙ whole 0) ≡ false)
    × (amount_ok o.total_fc payment.amount_fc t ≡ true)
    × Matches payment orders t o exact

guard_open :
    (a : Num)
    → (not (is_finite a) || a ≤ₙ whole 0) ≡ false
    → (is_finite a ≡ true) × ((a ≤ₙ whole 0) ≡ false)
guard_open a h = ground arith

from_amount :
    (payment : ParsedPayment) (orders : List OpenOrder) (ledger : Events) (t : MatchTolerance)
    (o : OpenOrder) (exact : Bool)
    → truthy payment.tk_ref ≡ none
    → (match_by_amount payment orders ledger t).0 ≡ matched o exact
    → (amount_ok o.total_fc payment.amount_fc t ≡ true) × Matches payment orders t o exact
unfolding match_by_amount clears
from_amount payment orders ledger t o exact e h =
    let one = match_single_one (keep (clears payment t) orders) ledger o exact h in
    let ok = keep_holds (clears payment t) orders o [] one.1 in
    (ok, subst (Matches payment orders t o) (sym one.0) (e, one.1))

from_ref :
    (payment : ParsedPayment) (r : String) (orders : List OpenOrder) (ledger : Events)
    (t : MatchTolerance) (o : OpenOrder) (exact : Bool)
    → truthy payment.tk_ref ≡ some r
    → (match_by_ref payment r orders ledger t).0 ≡ matched o exact
    → (amount_ok o.total_fc payment.amount_fc t ≡ true) × Matches payment orders t o exact
unfolding has_ref
from_ref payment r orders ledger t o exact e h =
    let found = by_ref_match payment r orders ledger t o exact h in
    let same = (===_iff o.tk_ref r).0 (find_holds (has_ref r) orders o found.1) in
    (
      found.2,
      subst (Matches payment orders t o) (sym found.0)
          (e ∙ ap some (sym same), ap (λ k. find (has_ref k) orders) same ∙ found.1),
    )

-- A match is the order that the payment names, or the only open order that it clears; it clears the
-- order within the tolerance, and its amount is finite and above zero.
pub match_payment_lem :
    (payment : ParsedPayment) (orders : List OpenOrder) (ledger : Events) (t : MatchTolerance)
    (o : OpenOrder) (exact : Bool)
    → (match_payment payment orders ledger t).0 ≡ matched o exact
    → IsMatch payment orders t o exact
unfolding match_payment
match_payment_lem payment orders ledger t o exact h =
    elim (Bool-cases (not (is_finite payment.amount_fc) || payment.amount_fc ≤ₙ whole 0)) [
      | inl e ↦ closed (rw e at h)
      | inr e ↦
          let g = guard_open payment.amount_fc e in
          elim (Option-cases (truthy payment.tk_ref)) [
            | inl n ↦ both g (from_amount payment orders ledger t o exact n (rw (e, n) at h))
            | inr s ↦ both g (from_ref payment s.0 orders ledger t o exact s.1 (rw (e, s.1) at h))
          ]
    ]
  where
    closed :
        MatchResult.unmatched invalid_amount ≡ matched o exact → IsMatch payment orders t o exact
    closed u = cc

    both :
        (is_finite payment.amount_fc ≡ true) × ((payment.amount_fc ≤ₙ whole 0) ≡ false)
        → (amount_ok o.total_fc payment.amount_fc t ≡ true) × Matches payment orders t o exact
        → IsMatch payment orders t o exact
    both g m = (g.0, g.1, m.0, m.1)

-- Under the default tolerance a match is never underpaid: the amount is the total or up to 100 FC
-- above it, and both are finite.
pub default-amount_ok :
    (due paid : Num)
    → is_finite paid ≡ true
    → amount_ok due paid default_tolerance ≡ true
    → (is_finite due ≡ true) × ((due ≤ₙ paid) ≡ true) × ((paid ≤ₙ due +ₙ whole 100) ≡ true)
unfolding amount_ok ◌≤ₙ◌ ◌-ₙ◌ ◌+ₙ◌ negate is_finite ◌+ℤ◌ ◌-ℤ◌
default-amount_ok (fin d) (fin a) f h = (refl, ground arith, ground arith)
default-amount_ok nan (fin a) f h = cc
default-amount_ok inf (fin a) f h = cc
default-amount_ok neg_inf (fin a) f h = cc
default-amount_ok due nan f h = cc
default-amount_ok due inf f h = cc
default-amount_ok due neg_inf f h = cc
