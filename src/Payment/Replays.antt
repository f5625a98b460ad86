-- ===== src/Payment/Replays.antt =====
-- A code verifies once (backend/lipa-ingest/src/replay.ts).
use nzela.Base.{
  ◌≡◌, sym, ap, subst, ◌∙◌, inl, inr, Bool, true, none, some, List, [], ◌∷◌, ◌++◌, String, arith,
  ===_iff, find, Bool-cases, Option-cases,
}
use nzela.Dict.{insert, has-insert}
use nzela.Ledger.{Actor, lipa, Events, write, block, free_event}
use nzela.Payment.{
  ParsedPayment, OpenOrder, MatchResult, matched, unmatched, MatchTolerance, match_payment,
  ReplayIndex, ref_key, payment_keys, add_keys, is_used, VerifiedMatch, verified, replayed,
  Verifier, burn, verify_payment,
}
use nzela.Payment.Matching.{match_payment_lem}
use nzela.Payment.Clearing.{IsCleared, IsMatch-IsCleared}
use mathlib.Core.List.{Memᴰ}

add_keys-keeps :
    (ks : List String) (index : ReplayIndex) (k : String)
    → is_used index k ≡ true
    → is_used (add_keys ks index) k ≡ true
unfolding add_keys is_used
add_keys-keeps [] index k h = h
add_keys-keeps (j ∷ ks) index k h =
    add_keys-keeps ks (insert j tt index) k (ground (arith, has-insert j k tt index))

inserted : (j k : String) (index : ReplayIndex) → k ≡ j → is_used (insert j tt index) k ≡ true
unfolding is_used
inserted j k index e = ground (arith, has-insert j k tt index, ===_iff j k)

add_keys-burns :
    (ks : List String) (index : ReplayIndex) (k : String)
    → Memᴰ k ks
    → is_used (add_keys ks index) k ≡ true
unfolding add_keys
add_keys-burns [] index k m = elim m [ ]
add_keys-burns (j ∷ ks) index k (Memᴰ.head e) =
    add_keys-keeps ks (insert j tt index) k (inserted j k index e)
add_keys-burns (j ∷ ks) index k (Memᴰ.tail m) = add_keys-burns ks (insert j tt index) k m

find_used :
    (p : String → Bool) (ks : List String) (k : String)
    → Memᴰ k ks
    → p k ≡ true
    → (j : String) × (find p ks ≡ some j)
find_used p [] k m h = elim m [ ]
find_used p (j ∷ ks) k (Memᴰ.head e) h = (j, ground arith)
find_used p (j ∷ ks) k (Memᴰ.tail m) h = elim (Bool-cases (p j)) [
  | inl e ↦ (j, ground arith)
  | inr e ↦ let rest = find_used p ks k m h in (rest.0, ground arith)
]

verify_used :
    (v : Verifier) (q : ParsedPayment) (orders : List OpenOrder) (t : MatchTolerance) (k : String)
    → find (is_used v.index) (payment_keys q) ≡ some k
    → verify_payment v q orders t ≡ (
      record v { ledger = write v.ledger (free_event block (Actor.agent lipa) q.tk_ref) },
      replayed,
    )
unfolding verify_payment
verify_used v q orders t k e = cc

pub verify_fresh :
    (v : Verifier) (q : ParsedPayment) (orders : List OpenOrder) (t : MatchTolerance)
    → find (is_used v.index) (payment_keys q) ≡ none
    → verify_payment v q orders t ≡ burn v (payment_keys q) (match_payment q orders v.ledger t)
unfolding verify_payment
verify_fresh v q orders t e = cc

-- A payment that carries a used key is a replay, and burns nothing.
replay_of_used :
    (v : Verifier) (q : ParsedPayment) (orders : List OpenOrder) (t : MatchTolerance) (k : String)
    → Memᴰ k (payment_keys q)
    → is_used v.index k ≡ true
    → ((verify_payment v q orders t).1 ≡ replayed)
      × ((verify_payment v q orders t).0.index ≡ v.index)
replay_of_used v q orders t k m h =
    let found = find_used (is_used v.index) (payment_keys q) k m h in
    let e = verify_used v q orders t found.0 found.1 in (ap (λ r. r.1) e, ap (λ r. r.0.index) e)

-- A call of `verifyPayment`, with the orders open at that time.
pub record Attempt : Type 0 where
  pub payment : ParsedPayment
  pub open_orders : List OpenOrder
  pub tolerance : MatchTolerance

unfoldable pub attempt : Verifier → Attempt → Verifier
attempt v a = (verify_payment v a.payment a.open_orders a.tolerance).0

unfoldable pub attempts : Verifier → List Attempt → Verifier
attempts v [] = v
attempts v (a ∷ rest) = attempts (attempt v a) rest

burn-keeps :
    (v : Verifier) (keys : List String) (r : MatchResult × Events) (k : String)
    → is_used v.index k ≡ true
    → is_used (burn v keys r).0.index k ≡ true
unfolding burn
burn-keeps v keys (matched o exact, ledger) k h =
    add_keys-keeps (keys ++ ref_key o.tk_ref ∷ []) v.index k h
burn-keeps v keys (unmatched reason, ledger) k h = h

attempt-keeps :
    (v : Verifier) (a : Attempt) (k : String)
    → is_used v.index k ≡ true
    → is_used (attempt v a).index k ≡ true
unfolding attempt
attempt-keeps v a k h = elim (Option-cases (find (is_used v.index) (payment_keys a.payment))) [
  | inl n ↦
      subst (λ r. is_used r.0.index k ≡ true)
        (sym (verify_fresh v a.payment a.open_orders a.tolerance n))
        (burn-keeps v (payment_keys a.payment)
          (match_payment a.payment a.open_orders v.ledger a.tolerance) k h)
  | inr s ↦
      subst (λ r. is_used r.0.index k ≡ true)
        (sym (verify_used v a.payment a.open_orders a.tolerance s.0 s.1)) h
]

attempts-keeps :
    (later : List Attempt) (v : Verifier) (k : String)
    → is_used v.index k ≡ true
    → is_used (attempts v later).index k ≡ true
unfolding attempts
attempts-keeps [] v k h = h
attempts-keeps (a ∷ later) v k h = attempts-keeps later (attempt v a) k (attempt-keeps v a k h)

-- What a verification shows.
abbrev Verified :
    Verifier → ParsedPayment → List OpenOrder → MatchTolerance → OpenOrder → Bool → Type 0
Verified v p orders t o exact =
    (find (is_used v.index) (payment_keys p) ≡ none)
    × ((match_payment p orders v.ledger t).0 ≡ matched o exact)
    × ((verify_payment v p orders t).0.index
        ≡ add_keys (payment_keys p ++ ref_key o.tk_ref ∷ []) v.index)

burn_inv :
    (v : Verifier) (keys : List String) (r : MatchResult × Events) (o : OpenOrder) (exact : Bool)
    → (burn v keys r).1 ≡ verified o exact
    → (r.0 ≡ matched o exact)
      × ((burn v keys r).0.index ≡ add_keys (keys ++ ref_key o.tk_ref ∷ []) v.index)
unfolding burn
burn_inv v keys (matched o2 exact2, ledger) o exact h = (cc, cc)
burn_inv v keys (unmatched reason, ledger) o exact h = cc

verified_inv :
    (v : Verifier) (p : ParsedPayment) (orders : List OpenOrder) (t : MatchTolerance)
    (o : OpenOrder) (exact : Bool)
    → (verify_payment v p orders t).1 ≡ verified o exact
    → Verified v p orders t o exact
verified_inv v p orders t o exact h =
    elim (Option-cases (find (is_used v.index) (payment_keys p))) [
      | inl n ↦
          let e = verify_fresh v p orders t n in
          let b =
            burn_inv v (payment_keys p) (match_payment p orders v.ledger t) o exact
              (sym (ap (λ r. r.1) e) ∙ h) in
          (n, b.0, ap (λ r. r.0.index) e ∙ b.1)
      | inr s ↦ absurd (clash (sym (ap (λ r. r.1) (verify_used v p orders t s.0 s.1)) ∙ h))
    ]
  where
    clash : VerifiedMatch.replayed ≡ verified o exact → ⊥
    clash e = cc

-- A verified payment had no used key; its amount is finite and above zero; the amount less the
-- order's total lies between the underpayment and the overpayment tolerated; and the order is the
-- first open one with the reference that the payment names or, when it names none, the only open
-- order for which the amount is so.
pub verify_payment_lem :
    (v : Verifier) (p : ParsedPayment) (orders : List OpenOrder) (t : MatchTolerance)
    (o : OpenOrder) (exact : Bool)
    → (verify_payment v p orders t).1 ≡ verified o exact
    → (find (is_used v.index) (payment_keys p) ≡ none) × IsCleared p orders t o exact
verify_payment_lem v p orders t o exact h =
    let i = verified_inv v p orders t o exact h in
    let m = match_payment_lem p orders v.ledger t o exact i.1 in
    (i.0, IsMatch-IsCleared p orders t o exact m)

-- After a verified payment, and whatever verifications follow, a payment that carries one of its
-- keys, or the reference of the order it settled, is a replay and leaves the index as it is.
pub verified_once :
    (v : Verifier) (p : ParsedPayment) (orders : List OpenOrder) (t : MatchTolerance)
    (o : OpenOrder) (exact : Bool)
    → (verify_payment v p orders t).1 ≡ verified o exact
    → (later : List Attempt) (q : ParsedPayment) (orders2 : List OpenOrder) (t2 : MatchTolerance)
      (k : String)
    → Memᴰ k (payment_keys p ++ ref_key o.tk_ref ∷ [])
    → Memᴰ k (payment_keys q)
    → let w = attempts (verify_payment v p orders t).0 later in
      ((verify_payment w q orders2 t2).1 ≡ replayed)
      × ((verify_payment w q orders2 t2).0.index ≡ w.index)
verified_once v p orders t o exact h later q orders2 t2 k burned carried =
    let first = (verify_payment v p orders t).0 in
    let i = verified_inv v p orders t o exact h in
    let used =
      subst (λ x. is_used x k ≡ true) (sym i.2)
        (add_keys-burns (payment_keys p ++ ref_key o.tk_ref ∷ []) v.index k burned) in
    replay_of_used (attempts first later) q orders2 t2 k carried (attempts-keeps later first k used)
