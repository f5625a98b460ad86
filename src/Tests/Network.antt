-- ===== src/Tests/Network.antt =====
-- The StackFood client and the security agent at concrete inputs (shared/stackfood-client/src,
-- shared/security/src).
use nzela.Base.{
  ℕ, zero, suc, ◌+◌, ◌≤◌, ◌<◌, ◌≡◌, ◌≢◌, ◌↔◌, ◌⊎◌, refl, true, false, none, some, List, [], ◌∷◌,
  String, arith, All, find, or_else, truthy, ◌===◌, leb, if◌then◌else◌,
}
use nzela.Base.Result.{ok}
use nzela.Num.{Num, whole, ◌≤ₙ◌, ◌<ₙ◌, ◌=ₙ◌}
use nzela.Dict.{lookup}
use nzela.Text.{includes, starts_with, is_digit}
use nzela.StackFood.{FetchResult, answered, network_error, attempts, request, retry_delays_ms}
use nzela.StackFood.Retries.{IsSent, request_lem}
use nzela.StackFood.Adapter.{
  CustomerOrderSummary, carries, place_idempotent, place_once, find_by_tk_ref, place_looked_up,
  place_new, place_posted,
}
use nzela.StackFood.Adapter.Once.{IsServer, Settled, place_all, place_idempotent-Settled}
use nzela.StackFood.Adapter.InFlight.{
  FlightEvent, calling, settling, no_flights, steps, IsSingle, steps-IsSingle,
}
use nzela.StackFood.Refs.{
  format_tk_ref, extract_tk_ref, all_digits, char_count, prefix, extract-format,
}
use nzela.Humanity.{allow}
use nzela.Ledger.Registry.{agent_registry}
use nzela.Acu.Budget.{
  BudgetMiddleware, Outcome, run, begin, gate, finish, settle, meter_order, remaining_for,
  order_key, spent_at,
}
use nzela.Acu.Soundness.{empty_wallet}
use nzela.Sentinelle.{
  clean, xss, ThreatSignal, Signature, stuffing_threshold, rate_critical, detect_threat, is_clean,
  SentinellePorts, triaged, inspect, Malicious,
}
use nzela.Sentinelle.Inspection.{CalledBenign, inspect-allow}
use nzela.Sentinelle.Limiter.{Hits, RateLimiter, allowed, calls_of, min_count, allowed_in_window}
use Prim.Native.Char.{Char}

-- A network that is down for `n` fetches.
abbrev flaky : ℕ → ℕ × FetchResult String
flaky zero = (0, answered "ok")
flaky (suc n) = (n, network_error)

flaky_twice : request flaky 2 ≡ record { world = 0; slept = 1_000 ∷ 3_000 ∷ []; result = ok "ok" }
unfolding request attempts
flaky_twice = refl

request_lem_example : IsSent flaky retry_delays_ms 2 (request flaky 2)
request_lem_example = request_lem flaky 2

-- A server that keeps how many orders carry the reference, and whose first answer is lost.
abbrev its_orders : ℕ → List CustomerOrderSummary
its_orders zero = []
its_orders (suc n) = record { id = 501; order_note = some "NZELA TK-10" } ∷ []

abbrev list_orders : ℕ → ℕ × FetchResult (List CustomerOrderSummary)
list_orders w = (w, answered (its_orders w))

abbrev post_order : ℕ → ℕ × FetchResult ℕ
post_order zero = (1, network_error)
post_order (suc n) = (n + 2, answered 501)

abbrev kept_count : ℕ → ℕ
kept_count w = w

answered_inj : {B : Type 0} {a b : B} → ◌≡◌ {A = FetchResult B} (answered a) (answered b) → a ≡ b
answered_inj h = cc

its_orders-shown : (w : ℕ) → (find (carries "TK-10") (its_orders w) ≡ none) ↔ (w ≡ 0)
unfolding carries includes starts_with
its_orders-shown zero = (λ h. refl, λ h. refl)
its_orders-shown (suc w) = (λ h. cc, λ h. absurd (omega arith))

post_order-IsServer : IsServer list_orders post_order "TK-10" kept_count
unfolding request attempts
post_order-IsServer = record {
  listing = λ w. refl;
  shown = λ w orders e. rw (← answered_inj e) (its_orders-shown w);
  lands = λ w id e. adds w;
  adds_one = λ w. adds_one w;
}
  where
    adds : (w : ℕ) → 0 < (post_order w).0
    adds zero = omega arith
    adds (suc n) = omega arith

    adds_one : (w : ℕ) → (post_order w).0 ≤ suc w
    adds_one zero = omega arith
    adds_one (suc n) = omega arith

-- The POST is tried again after the lost answer, and the reference has two orders.
placed_twice : (place_idempotent list_orders post_order 0 "NZELA TK-10" "TK-10").0 ≡ 2
unfolding place_idempotent place_once find_by_tk_ref place_looked_up place_new place_posted request
    attempts includes starts_with carries
placed_twice = refl

place_idempotent-Settled_example :
    let v = place_all list_orders post_order 0 "TK-10" ("NZELA TK-10" ∷ "NZELA TK-10" ∷ []) in
    Settled kept_count (place_idempotent list_orders post_order v "NZELA TK-10" "TK-10")
    × (0 < v → (place_idempotent list_orders post_order v "NZELA TK-10" "TK-10").0 ≡ v)
place_idempotent-Settled_example =
    place_idempotent-Settled list_orders post_order "TK-10" kept_count post_order-IsServer 0
      ("NZELA TK-10" ∷ "NZELA TK-10" ∷ []) "NZELA TK-10" refl

-- Two taps, of which the second comes before the first has been answered, and a third after it.
abbrev three_taps : List FlightEvent
three_taps =
    calling 1 "NZELA TK-10" "TK-10"
    ∷ calling 2 "NZELA TK-10" "TK-10"
    ∷ settling "TK-10" (ok (record { order_id = 501; recovered = false }))
    ∷ calling 3 "NZELA TK-10" "TK-10"
    ∷ []

steps-IsSingle_example : IsSingle (steps no_flights three_taps)
steps-IsSingle_example = steps-IsSingle three_taps

-- A lost response: the order is recorded, and the client does not hear of it.
abbrev lost_once : ℕ → ℕ × FetchResult ℕ
lost_once zero = (1, network_error)
lost_once (suc n) = (suc (suc n), answered 501)

-- The retry of the transport records the order again.
lost_twice : (request lost_once 0).world ≡ 2
unfolding request attempts
lost_twice = refl

ten_digits : all_digits "10" ≡ true
unfolding all_digits is_digit
ten_digits = refl

abbrev one : Char
one = "1"

extract-format_example :
    extract_tk_ref (format_tk_ref "10")
    ≡ (if leb 1 (char_count "0") then some (format_tk_ref (prefix 6 "10")) else none)
extract-format_example = extract-format one "0" ten_digits

abbrev at_most_two : RateLimiter
at_most_two = record { hits = []; limit = 2; window_ms = 60_000 }

no_window :
    (h : Hits)
    → lookup "ip" at_most_two.hits ≡ some h
    → h.window_start + at_most_two.window_ms ≤ 1_000
unfolding lookup
no_window h e = cc

abbrev three_calls : List (String × ℕ)
three_calls = ("ip", 2_000) ∷ ("other", 2_500) ∷ ("ip", 3_000) ∷ []

allowed_in_window_example :
    allowed at_most_two "ip" (("ip", 1_000) ∷ three_calls)
    ≡ 1 + min_count (calls_of "ip" three_calls) 1
allowed_in_window_example =
    allowed_in_window three_calls at_most_two "ip" 1_000 no_window
      (omega arith, (omega arith, (omega arith, tt)))

-- A payload that looks odd, and a model that calls it benign.
abbrev guard : SentinellePorts
guard = record {
  bot_ua = λ s. false;
  signatures = record { threat = xss; matches = λ s. s === "<script>" } ∷ [];
  rules = [];
  looks_suspicious = λ s. true;
  triage = some (λ payload b. Outcome.answered false (whole 0));
}

abbrev no_gating : BudgetMiddleware
no_gating = record { per_order_spend = []; gating = none; wallet = empty_wallet; ledger = [] }

abbrev odd_request : ThreatSignal
odd_request = record {
  payload = "{a;b}";
  auth_failures_last_minute = none;
  requests_last_minute = some (whole 12);
}

odd_request_allowed : (inspect guard no_gating odd_request none).1 ≡ allow
unfolding inspect detect_threat is_clean triaged run begin gate finish settle meter_order
    remaining_for order_key spent_at agent_registry truthy ◌===◌ ◌≤ₙ◌ ◌<ₙ◌ ◌=ₙ◌
odd_request_allowed = refl

named_classes : All (λ (s : Signature). s.threat ≢ clean) guard.signatures
named_classes = ((λ h. cc), tt)

inspect-allow_example :
    (find (λ s. s.matches odd_request.payload) guard.signatures ≡ none)
    × ((stuffing_threshold ≤ₙ or_else odd_request.auth_failures_last_minute (whole 0)) ≡ false)
    × ((rate_critical ≤ₙ or_else odd_request.requests_last_minute (whole 0)) ≡ false)
    × ((guard.triage ≡ none)
        ⊎ (guard.looks_suspicious odd_request.payload ≡ false)
        ⊎ ((triage : String → Num → Outcome Malicious) × (guard.triage ≡ some triage)
            × CalledBenign triage odd_request.payload))
inspect-allow_example =
    inspect-allow guard no_gating odd_request none named_classes odd_request_allowed
