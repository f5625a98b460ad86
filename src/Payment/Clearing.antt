-- ===== src/Payment/Clearing.antt =====
-- What a match means for the money (backend/lipa-ingest/src/matcher.ts).
use nzela.Base.{
  ◌≡◌, subst, inl, inr, Bool, true, false, ◌===◌, some, none, List, [], ◌∷◌, arith, truthy, keep,
  find, All, Bool-cases,
}
use nzela.Num.{Num, whole, is_finite, ◌≤ₙ◌, ◌-ₙ◌, negate}
use nzela.Payment.{ParsedPayment, OpenOrder, MatchTolerance, amount_ok, clears, has_ref}
use nzela.Payment.Matching.{IsMatch}
use mathlib.Core.List.{Mem, mem-cons_self, mem-cons_of_mem}

-- What was paid less what was due lies between the two tolerances, both included.
abbrev Clears : Num → Num → MatchTolerance → Type 0
Clears due paid t =
    ((negate t.underpay_fc ≤ₙ (paid -ₙ due)) ≡ true) × (((paid -ₙ due) ≤ₙ t.overpay_fc) ≡ true)

amount_ok-Clears :
    (due paid : Num) (t : MatchTolerance) → amount_ok due paid t ≡ true → Clears due paid t
unfolding amount_ok
amount_ok-Clears due paid t h = ground arith

Clears-amount_ok :
    (due paid : Num) (t : MatchTolerance) → Clears due paid t → amount_ok due paid t ≡ true
unfolding amount_ok
Clears-amount_ok due paid t (low, high) = ground arith

-- The order that a payment names, or the only one of the open orders that it clears.
abbrev IsTheOne : ParsedPayment → List OpenOrder → MatchTolerance → OpenOrder → Bool → Type 0
IsTheOne payment orders t o true =
    (truthy payment.tk_ref ≡ some o.tk_ref) × (find (λ q. q.tk_ref === o.tk_ref) orders ≡ some o)
IsTheOne payment orders t o false =
    (truthy payment.tk_ref ≡ none)
    × Mem o orders
    × All (λ q. Clears q.total_fc payment.amount_fc t → q ≡ o) orders

abbrev pub IsCleared : ParsedPayment → List OpenOrder → MatchTolerance → OpenOrder → Bool → Type 0
IsCleared payment orders t o exact =
    (is_finite payment.amount_fc ≡ true)
    × ((payment.amount_fc ≤ₙ whole 0) ≡ false)
    × Clears o.total_fc payment.amount_fc t
    × IsTheOne payment orders t o exact

keep_nil : {A : Type 0} (p : A → Bool) (xs : List A) → keep p xs ≡ [] → All (λ x. p x ≡ true → ⊥) xs
keep_nil p [] h = tt
keep_nil p (x ∷ xs) h = elim (Bool-cases (p x)) [
  | inl e ↦ absurd (kept (rw (e, keep) at h))
  | inr e ↦ (λ t. clash e t, keep_nil p xs (rw (e, keep) at h))
]
  where
    kept : x ∷ keep p xs ≡ [] → ⊥
    kept q = cc

    clash : p x ≡ false → p x ≡ true → ⊥
    clash e t = cc

all_imp :
    {A : Type 0} {P Q : A → Type 0} (f : (x : A) → P x → Q x) (xs : List A) → All P xs → All Q xs
all_imp f [] a = tt
all_imp f (x ∷ xs) a = (f x a.0, all_imp f xs a.1)

-- The only element that a filter keeps.
keep_only :
    {A : Type 0} (p : A → Bool) (xs : List A) (o : A)
    → keep p xs ≡ o ∷ []
    → Mem o xs × All (λ x. p x ≡ true → x ≡ o) xs
keep_only p [] o h = absurd cc
keep_only p (x ∷ xs) o h = elim (Bool-cases (p x)) [
  | inl e ↦
      let q : x ∷ keep p xs ≡ o ∷ [] = rw (e, keep) at h in
      let same : x ≡ o = cc in
      let rest : keep p xs ≡ [] = cc in
      (
        subst (λ y. Mem y (x ∷ xs)) same mem-cons_self,
        ((λ t. same), all_imp (λ y no yes. absurd (no yes)) xs (keep_nil p xs rest)),
      )
  | inr e ↦
      let (m, only) = keep_only p xs o (rw (e, keep) at h) in
      (mem-cons_of_mem x m, ((λ t. absurd (clash e t)), only))
]
  where
    clash : p x ≡ false → p x ≡ true → ⊥
    clash e t = cc

pub IsMatch-IsCleared :
    (payment : ParsedPayment) (orders : List OpenOrder) (t : MatchTolerance) (o : OpenOrder)
    (exact : Bool)
    → IsMatch payment orders t o exact
    → IsCleared payment orders t o exact
unfolding clears has_ref
IsMatch-IsCleared payment orders t o true (f, z, c, (named, found)) =
    (f, z, amount_ok-Clears o.total_fc payment.amount_fc t c, (named, found))
IsMatch-IsCleared payment orders t o false (f, z, c, (unnamed, one)) =
    let (m, only) = keep_only (clears payment t) orders o one in
    (
      f,
      z,
      amount_ok-Clears o.total_fc payment.amount_fc t c,
      (
        unnamed,
        m,
        all_imp (λ q k yes. k (Clears-amount_ok q.total_fc payment.amount_fc t yes)) orders only,
      ),
    )
