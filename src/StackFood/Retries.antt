-- ===== src/StackFood/Retries.antt =====
-- How often a request is sent (shared/stackfood-client/src/client.ts).
use nzela.Base.{
  ℕ, zero, suc, ◌≤◌, ◌<◌, ◌≡◌, ◌⊎◌, refl, inl, inr, ap, Bool, true, false, List, [], ◌∷◌, arith,
  leb, length, take, Bool-cases,
}
use nzela.Base.Result.{Result, ok, err}
use nzela.StackFood.{
  FetchResult, answered, http_error, network_error, Failure, stack_food_http_error, unreachable,
  Done, retry_delays_ms, attempts, request,
}

-- What the client tries again after: a 5xx, or an exception.
unfoldable pub retryable : {B : Type 0} → FetchResult B → Bool
retryable (answered b) = false
retryable (http_error status) = leb 500 status
retryable network_error = true

unfoldable pub outcome : {B : Type 0} → FetchResult B → Result Failure B
outcome (answered b) = ok b
outcome (http_error status) = err (stack_food_http_error status)
outcome network_error = err unreachable

module _ {W B : Type 0} (fetch : W → W × FetchResult B) where
  -- The world after `n` fetches.
  unfoldable pub fetched : ℕ → W → W
  fetched zero w = w
  fetched (suc n) w = fetched n (fetch w).0

  -- A request that was sent `n + 1` times, with `delays` between: it was retried for a reason each
  -- time, it stopped at an answer, at a 4xx or at the end of the delays, and gives the last outcome.
  pub record IsSent (delays : List ℕ) (w : W) (d : Done W B) : Type 0 where
    pub n : ℕ
    pub within : n ≤ length delays
    pub world_eq : d.world ≡ fetched (suc n) w
    pub slept_eq : d.slept ≡ take n delays
    pub retried : (k : ℕ) → k < n → retryable (fetch (fetched k w)).1 ≡ true
    pub stopped : (n ≡ length delays) ⊎ (retryable (fetch (fetched n w)).1 ≡ false)
    pub result_eq : d.result ≡ outcome (fetch (fetched n w)).1

  attempts-first :
      (ds : List ℕ) (w : W)
      → (ds ≡ []) ⊎ (retryable (fetch w).1 ≡ false)
      → attempts fetch ds w
        ≡ record { world = (fetch w).0; slept = []; result = outcome (fetch w).1 }
  unfolding attempts retryable outcome
  attempts-first [] w h = ground arith
  attempts-first (d ∷ ds) w h = ground arith

  attempts-again :
      (d : ℕ) (ds : List ℕ) (w : W)
      → retryable (fetch w).1 ≡ true
      → attempts fetch (d ∷ ds) w ≡ record {
        world = (attempts fetch ds (fetch w).0).world;
        slept = d ∷ (attempts fetch ds (fetch w).0).slept;
        result = (attempts fetch ds (fetch w).0).result;
      }
  unfolding attempts retryable
  attempts-again d ds w h = ground arith

  from_first :
      (w : W) (n : ℕ)
      → retryable (fetch w).1 ≡ true
      → ((j : ℕ) → j < n → retryable (fetch (fetched j (fetch w).0)).1 ≡ true)
      → (k : ℕ) → k < suc n
      → retryable (fetch (fetched k w)).1 ≡ true
  unfolding fetched
  from_first w n first rest zero h = first
  from_first w n first rest (suc k) h = rest k (omega arith)

  attempts-IsSent : (ds : List ℕ) (w : W) → IsSent ds w (attempts fetch ds w)
  unfolding fetched
  attempts-IsSent [] w = rw (attempts-first [] w (inl refl)) (record {
    n = 0;
    within = omega arith;
    world_eq = refl;
    slept_eq = refl;
    retried = λ k h. absurd (omega arith);
    stopped = inl refl;
    result_eq = refl;
  })
  attempts-IsSent (d ∷ ds) w = elim (Bool-cases (retryable (fetch w).1)) [
    | inl again ↦
        let rest = attempts-IsSent ds (fetch w).0 in
        rw (attempts-again d ds w again) (record {
          n = suc rest.n;
          within = omega (arith, rest.within);
          world_eq = rest.world_eq;
          slept_eq = ap (λ l. d ∷ l) rest.slept_eq;
          retried = from_first w rest.n again rest.retried;
          stopped = elim rest.stopped [ inl e ↦ inl (ap suc e) | inr e ↦ inr e ];
          result_eq = rest.result_eq;
        })
    | inr final ↦ rw (attempts-first (d ∷ ds) w (inr final)) (record {
      n = 0;
      within = omega arith;
      world_eq = refl;
      slept_eq = refl;
      retried = λ k h. absurd (omega arith);
      stopped = inr final;
      result_eq = refl;
    })
  ]

  -- A request ends: it is sent at least once and at most four times, with the first delays of 1, 3 and
  -- 9 seconds between. It is sent again only after an exception or a 5xx, so never after an answer or
  -- a 4xx; short of four times it stops only at one of these; and it gives the outcome of the last
  -- time that it was sent.
  pub request_lem : (w : W) → IsSent retry_delays_ms w (request fetch w)
  unfolding request
  request_lem w = attempts-IsSent retry_delays_ms w
