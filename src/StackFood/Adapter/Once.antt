-- ===== src/StackFood/Adapter/Once.antt =====
-- An order is not placed twice (shared/stackfood-client/src/order-adapter.ts).
use nzela.Base.{
  ℕ, zero, suc, ◌+◌, ◌≤◌, ◌<◌, ◌≡◌, ◌⊎◌, ◌↔◌, refl, inl, inr, sym, subst, ap, ◌∙◌, Option, none,
  some, List, [], ◌∷◌, String, arith, find, Bool-cases, Option-cases,
}
use nzela.Base.Result.{Result, ok, err}
use nzela.Text.{includes}
use nzela.StackFood.{FetchResult, answered, Failure, request}
use nzela.StackFood.Retries.{fetched, outcome, request_lem}
use nzela.StackFood.Adapter.{
  CustomerOrderSummary, PlacementResult, PlacementError, carries, find_by_tk_ref, landed, place_new,
  place_posted, place_looked_up, place_once, place_idempotent,
}

-- What StackFood does about the orders that carry the reference `tk`, `count` of them: listing
-- changes nothing and shows one when there is one; a POST adds at most one, also when its answer is
-- lost; and one that answers has added one.
pub record IsServer {W : Type 0} (list : W → W × FetchResult (List CustomerOrderSummary))
    (post : W → W × FetchResult ℕ) (tk : String) (count : W → ℕ) : Type 0 where
  pub listing : (w : W) → count (list w).0 ≡ count w
  pub shown :
      (w : W) (orders : List CustomerOrderSummary)
      → (list w).1 ≡ answered orders
      → (find (carries tk) orders ≡ none) ↔ (count w ≡ 0)
  pub lands : (w : W) (id : ℕ) → (post w).1 ≡ answered id → 0 < count (post w).0
  pub adds_one : (w : W) → count (post w).0 ≤ suc (count w)

Result-cases : {E A : Type 0} (r : Result E A) → ((a : A) × (r ≡ ok a)) ⊎ ((e : E) × (r ≡ err e))
Result-cases (ok a) = inl (a, refl)
Result-cases (err e) = inr (e, refl)

answered_of_ok : {B : Type 0} (r : FetchResult B) (b : B) → outcome r ≡ ok b → r ≡ answered b
unfolding outcome
answered_of_ok r b h = ground arith

-- At most four orders carry the reference, and one does when the placement succeeded.
abbrev pub Settled : {W : Type 0} → (W → ℕ) → W × Result PlacementError PlacementResult → Type 0
Settled count (w, ok r) = (0 < count w) × (count w ≤ 4)
Settled count (w, err e) = count w ≤ 4

-- Calls of `placeIdempotent` one after another, with the note of each.
unfoldable pub place_all :
    {W : Type 0}
    → (W → W × FetchResult (List CustomerOrderSummary))
    → (W → W × FetchResult ℕ)
    → W
    → String
    → List String
    → W
unfolding place_idempotent
place_all list post w tk [] = w
place_all list post w tk (note ∷ notes) =
    place_all list post (place_idempotent list post w note tk).0 tk notes

module _ {W : Type 0} (list : W → W × FetchResult (List CustomerOrderSummary))
    (post : W → W × FetchResult ℕ) (tk : String) (count : W → ℕ)
    (server : IsServer list post tk count) where
  fetched_last : (n : ℕ) (w : W) → fetched post (suc n) w ≡ (post (fetched post n w)).0
  unfolding fetched
  fetched_last zero w = refl
  fetched_last (suc n) w = fetched_last n (post w).0

  -- What a `placeOrder` does, with its retries.
  request-lands :
      (w : W) (id : ℕ) → (request post w).result ≡ ok id → 0 < count (request post w).world
  request-lands w id h =
      let sent = request_lem post w in
      let last = fetched post sent.n w in
      let landed =
        server.lands last id (answered_of_ok (post last).1 id (sym sent.result_eq ∙ h)) in
      subst (λ v. 0 < count v) (sym (sent.world_eq ∙ fetched_last sent.n w)) landed

  fetched-adds : (n : ℕ) (w : W) → count (fetched post n w) ≤ n + count w
  unfolding fetched
  fetched-adds zero w = omega arith
  fetched-adds (suc n) w =
      let first = server.adds_one w in
      let rest = fetched-adds n (post w).0 in omega (arith, first, rest)

  request-adds : (w : W) → count (request post w).world ≤ 4 + count w
  request-adds w =
      let sent = request_lem post w in
      let most = fetched-adds (suc sent.n) w in
      subst (λ v. count v ≤ 4 + count w) (sym sent.world_eq) (omega (arith, most, sent.within))

  count-fetched : (n : ℕ) (w : W) → count (fetched list n w) ≡ count w
  unfolding fetched
  count-fetched zero w = refl
  count-fetched (suc n) w = count-fetched n (list w).0 ∙ server.listing w

  -- A lookup changes no count, and what it answers is told by the count.
  abbrev Told : W → Result Failure (Option CustomerOrderSummary) → Type 0
  Told w (err e) = Unit {0}
  Told w (ok none) = count w ≡ 0
  Told w (ok (some o)) = 0 < count w

  told :
      (w : W) (orders : List CustomerOrderSummary)
      → (find (carries tk) orders ≡ none) ↔ (count w ≡ 0)
      → Told w (ok (find (carries tk) orders))
  told w orders iff = elim (Option-cases (find (carries tk) orders)) [
    | inl e ↦ rw e (iff.0 e)
    | inr (o, e) ↦ rw e (elim (zero-cases (count w)) [
      | inl z ↦ absurd (some-not_none (sym e ∙ iff.1 z))
      | inr pos ↦ pos
    ])
  ]
    where
      zero-cases : (n : ℕ) → (n ≡ 0) ⊎ (0 < n)
      zero-cases zero = inl refl
      zero-cases (suc n) = inr (omega arith)

      some-not_none : {A : Type 0} {a : A} → ◌≡◌ {A = Option A} (some a) none → ⊥
      some-not_none h = cc

  find-Told :
      (w : W)
      → (count (find_by_tk_ref list post w tk).0 ≡ count w)
        × Told w (find_by_tk_ref list post w tk).1
  unfolding find_by_tk_ref
  find-Told w =
      let sent = request_lem list w in
      let same = ap count sent.world_eq ∙ count-fetched (suc sent.n) w in
      elim (Result-cases (request list w).result) [
        | inr (e, eq) ↦ rw (find_by_tk_ref, eq) (same, tt)
        | inl (orders, eq) ↦
            let w0 = fetched list sent.n w in
            let shown =
              server.shown w0 orders
                (answered_of_ok (list w0).1 orders (sym sent.result_eq ∙ eq)) in
            rw (find_by_tk_ref, eq)
              (
                same,
                told w orders (
                    subst (λ n. (find (carries tk) orders ≡ none) ↔ (n ≡ 0))
                      (count-fetched sent.n w) shown),
              )
      ]

  landed-Settled :
      (e : Failure) (r : W × Result Failure (Option CustomerOrderSummary))
      → count r.0 ≤ 4
      → Told r.0 r.1
      → Settled count (landed e r)
  unfolding landed
  landed-Settled e (w, ok (some o)) most told = (told, most)
  landed-Settled e (w, ok none) most told = most
  landed-Settled e (w, err f) most told = most

  -- The lookup's answer, told by the count where the lookup ends.
  find-Told_after :
      (w : W) → Told (find_by_tk_ref list post w tk).0 (find_by_tk_ref list post w tk).1
  find-Told_after w =
      let (same, told) = find-Told w in
      Told_same w (find_by_tk_ref list post w tk).0 (find_by_tk_ref list post w tk).1 same told
    where
      Told_same :
          (v v' : W) (r : Result Failure (Option CustomerOrderSummary))
          → count v' ≡ count v
          → Told v r
          → Told v' r
      Told_same v v' (err e) same t = tt
      Told_same v v' (ok none) same t = same ∙ t
      Told_same v v' (ok (some o)) same t = omega (arith, same, t)

  place_new-Settled : (w : W) → count w ≡ 0 → Settled count (place_new list post w tk)
  unfolding place_new place_posted
  place_new-Settled w none_yet =
      let once = request-adds w in
      let after = (request post w).world in
      elim (Result-cases (request post w).result) [
        | inl (id, posted) ↦
            let landed = request-lands w id posted in
            subst (λ r. Settled count (place_posted list post after tk r)) (sym posted)
              (landed, omega (arith, none_yet, once))
        | inr (e, failed) ↦
            subst (λ r. Settled count (place_posted list post after tk r)) (sym failed)
              (landed-Settled e (find_by_tk_ref list post after tk)
                (omega (arith, none_yet, once, (find-Told after).0)) (find-Told_after after))
      ]

  place_looked_up-Settled :
      (r : W × Result Failure (Option CustomerOrderSummary))
      → count r.0 ≤ 4
      → Told r.0 r.1
      → Settled count (place_looked_up list post tk r)
  unfolding place_looked_up
  place_looked_up-Settled (w, ok (some o)) most told = (told, most)
  place_looked_up-Settled (w, ok none) most told = place_new-Settled w told
  place_looked_up-Settled (w, err f) most told = most

  place_once-Settled : (w : W) → count w ≤ 4 → Settled count (place_once list post w tk)
  unfolding place_once
  place_once-Settled w most =
      place_looked_up-Settled (find_by_tk_ref list post w tk) (omega (arith, most, (find-Told w).0))
        (find-Told_after w)

  unchanged : (r : W × Result PlacementError PlacementResult) → Settled count r → count r.0 ≤ 4
  unchanged (w, ok r) h = h.1
  unchanged (w, err e) h = h

  settles_again :
      (w : W) (note : String) → count w ≤ 4 → Settled count (place_idempotent list post w note tk)
  unfolding place_idempotent
  settles_again w note most = elim (Bool-cases (includes note tk)) [
    | inl b ↦ rw (place_idempotent, b) (place_once-Settled w most)
    | inr b ↦ rw (place_idempotent, b) most
  ]

  place_all-most :
      (w : W) (notes : List String) → count w ≤ 4 → count (place_all list post w tk notes) ≤ 4
  unfolding place_all
  place_all-most w [] most = most
  place_all-most w (note ∷ notes) most =
      place_all-most (place_idempotent list post w note tk).0 notes
        (unchanged (place_idempotent list post w note tk) (settles_again w note most))

  -- A call when the reference has an order leaves as many as there are.
  looked_up_same :
      (r : W × Result Failure (Option CustomerOrderSummary))
      → 0 < count r.0
      → Told r.0 r.1
      → count (place_looked_up list post tk r).0 ≡ count r.0
  unfolding place_looked_up
  looked_up_same (w, ok (some o)) some_yet told = refl
  looked_up_same (w, ok none) some_yet told = absurd (omega (arith, some_yet, told))
  looked_up_same (w, err f) some_yet told = refl

  later_call_same :
      (w : W) (note : String)
      → 0 < count w
      → count (place_idempotent list post w note tk).0 ≡ count w
  unfolding place_idempotent place_once
  later_call_same w note some_yet =
      let (same, _) = find-Told w in
      elim (Bool-cases (includes note tk)) [
        | inl b ↦
            rw (place_idempotent, b)
              (looked_up_same (find_by_tk_ref list post w tk) (omega (arith, some_yet, same))
                  (find-Told_after w)
                ∙ same)
        | inr b ↦ rw (place_idempotent, b) refl
      ]

  -- However often the placement of one reference is called, one call after another and whatever each
  -- of them answers, StackFood holds at most four orders that carry it, and right after a call that
  -- succeeds it holds one at least; and as soon as it holds one, no further call adds any, so that they
  -- all come from the POSTs of one `placeOrder`. This is for a server whose order list shows such an
  -- order, which adds at most one with each POST, and which has added one when it answers.
  pub place_idempotent-Settled :
      (w : W) (notes : List String) (note : String)
      → count w ≡ 0
      → let v = place_all list post w tk notes in
        Settled count (place_idempotent list post v note tk)
        × (0 < count v → count (place_idempotent list post v note tk).0 ≡ count v)
  place_idempotent-Settled w notes note fresh = (
    settles_again (place_all list post w tk notes) note
        (place_all-most w notes (omega (arith, fresh))),
    later_call_same (place_all list post w tk notes) note,
  )
