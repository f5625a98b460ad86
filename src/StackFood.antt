-- ===== src/StackFood.antt =====
-- The StackFood client's requests (shared/stackfood-client/src/client.ts), over the state `W` of the
-- network and the server behind it. A request's method, headers and body are in its `fetch`.
pub mod Retries
pub mod Adapter
pub mod Refs
pub mod Auth
use nzela.Base.{ℕ, Bool, true, false, List, [], ◌∷◌, if◌then◌else◌, leb}
use nzela.Base.Result.{Result, ok, err}

-- What one `fetch` gives: a body that parses, an answer that is not `ok`, or an exception (the
-- network, the timeout, or a body that is no JSON).
pub data FetchResult (B : Type 0) : Type 0 where
  answered : B → FetchResult B
  http_error : ℕ → FetchResult B
  network_error : FetchResult B

-- The error that a request throws.
pub data Failure : Type 0 where
  stack_food_http_error : ℕ → Failure
  unreachable : Failure

abbrev pub retry_delays_ms : List ℕ
retry_delays_ms = 1_000 ∷ 3_000 ∷ 9_000 ∷ []

-- A request leaves the world, the delays it slept, and the answer or the error.
pub record Done (W B : Type 0) : Type 0 where
  pub world : W
  pub slept : List ℕ
  pub result : Result Failure B

module _ {W B : Type 0} (fetch : W → W × FetchResult B) where
  -- The loop over the attempts, with the delays that are left.
  unfoldable pub attempts : List ℕ → W → Done W B
  attempts [] w =
      let (w', res) = fetch w in
      elim res [
        | answered b ↦ record { world = w'; slept = []; result = ok b }
        | http_error status ↦ record {
          world = w';
          slept = [];
          result = err (stack_food_http_error status);
        }
        | network_error ↦ record { world = w'; slept = []; result = err unreachable }
      ]
  attempts (d ∷ ds) w =
      let (w', res) = fetch w in
      let next = attempts ds w' in
      let again : Done W B = record next { slept = d ∷ next.slept } in
      elim res [
        | answered b ↦ record { world = w'; slept = []; result = ok b }
        | http_error status ↦
            if leb 500 status
            then again
            else record { world = w'; slept = []; result = err (stack_food_http_error status) }
        | network_error ↦ again
      ]

  -- `StackFoodClient.request`
  unfoldable pub request : W → Done W B
  unfolding attempts
  request w = attempts retry_delays_ms w
