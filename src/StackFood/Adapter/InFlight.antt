-- ===== src/StackFood/Adapter/InFlight.antt =====
-- Placements of one order that overlap: the map of the calls in flight
-- (shared/stackfood-client/src/order-adapter.ts). A call is a number; an attempt, which is `placeOnce`,
-- starts at one event and settles at a later one.
use nzela.Base.{
  ℕ, ◌+◌, ◌-◌, ◌≡◌, refl, inl, inr, subst, true, none, some, List, [], ◌∷◌, ◌++◌, map, String,
  arith, if◌then◌else◌, ◌===◌, ===_iff, is_some, Bool-cases, Option-cases,
}
use nzela.Base.Result.{Result, ok, err}
use nzela.Dict.{Dict, lookup, insert, erase, lookup-insert, lookup-erase}
use nzela.Text.{includes}
use nzela.StackFood.Adapter.{PlacementResult, PlacementError, note_without_ref}

-- The call that started the attempt, and those that joined it.
pub record Flight : Type 0 where
  pub owner : ℕ
  pub joined : List ℕ

-- `answers` has what the calls came back with; `running` has the references of the attempts that
-- have started and not settled.
pub record Flights : Type 0 where
  pub in_flight : Dict Flight
  pub running : List String
  pub answers : List (ℕ × Result PlacementError PlacementResult)

unfoldable pub no_flights : Flights
no_flights = record { in_flight = []; running = []; answers = [] }

-- `placeIdempotent`, up to its `await`.
unfoldable call_placement : Flights → ℕ → String → String → Flights
unfolding includes
call_placement f id note tk =
    if includes note tk
    then elim (lookup tk f.in_flight) [
      | some flight ↦ record f {
        in_flight = insert tk (record flight { joined = id ∷ flight.joined }) f.in_flight;
      }
      | none ↦ record f {
        in_flight = insert tk (record { owner = id; joined = [] }) f.in_flight;
        running = tk ∷ f.running;
      }
    ]
    else record f { answers = (id, err note_without_ref) ∷ f.answers }

-- What a call that joined is given.
unfoldable shared : Result PlacementError PlacementResult → Result PlacementError PlacementResult
shared (ok r) = ok (record r { recovered = true })
shared (err e) = err e

unfoldable answers_of :
    Flight
    → Result PlacementError PlacementResult
    → List (ℕ × Result PlacementError PlacementResult)
unfolding shared
answers_of flight r = (flight.owner, r) ∷ map (λ id. (id, shared r)) flight.joined

unfoldable drop_one : String → List String → List String
drop_one tk [] = []
drop_one tk (t ∷ ts) = let rest = drop_one tk ts in if t === tk then ts else t ∷ rest

-- The attempt of `tk` settles: after the `await`, with the `finally`.
unfoldable settle_placement : Flights → String → Result PlacementError PlacementResult → Flights
unfolding answers_of drop_one
settle_placement f tk r = elim (lookup tk f.in_flight) [
  | none ↦ f
  | some flight ↦ record {
    in_flight = erase tk f.in_flight;
    running = drop_one tk f.running;
    answers = answers_of flight r ++ f.answers;
  }
]

pub data FlightEvent : Type 0 where
  -- call, note and reference
  calling : ℕ → String → String → FlightEvent
  settling : String → Result PlacementError PlacementResult → FlightEvent

unfoldable pub step : Flights → FlightEvent → Flights
unfolding call_placement settle_placement
step f (calling id note tk) = call_placement f id note tk
step f (settling tk r) = settle_placement f tk r

unfoldable pub steps : Flights → List FlightEvent → Flights
unfolding step
steps f [] = f
steps f (e ∷ es) = steps (step f e) es

unfoldable pub times_running : String → List String → ℕ
times_running tk [] = 0
times_running tk (t ∷ ts) = let rest = times_running tk ts in if t === tk then 1 + rest else rest

-- An attempt of a reference is running if and only if the reference is in flight, and then it is one.
abbrev pub IsSingle : Flights → Type 0
IsSingle f =
    (tk : String) → times_running tk f.running ≡ (if is_some (lookup tk f.in_flight) then 1 else 0)

drop_one-times :
    (tk j : String) (ts : List String)
    → times_running j (drop_one tk ts)
      ≡ (if tk === j then times_running j ts - 1 else times_running j ts)
unfolding times_running drop_one
drop_one-times tk j [] = ground arith
drop_one-times tk j (t ∷ ts) =
    ground (arith, drop_one-times tk j ts, ===_iff t tk, ===_iff t j, ===_iff tk j)

-- The reference of the event, and another one.
started :
    (f : Flights) (tk j : String) (flight : Flight)
    → lookup tk f.in_flight ≡ none
    → times_running j f.running ≡ (if is_some (lookup j f.in_flight) then 1 else 0)
    → times_running j (tk ∷ f.running)
      ≡ (if is_some (lookup j (insert tk flight f.in_flight)) then 1 else 0)
unfolding times_running
started f tk j flight e single = elim (Bool-cases (tk === j)) [
  | inl same ↦
      let at_j = subst (λ k. lookup k f.in_flight ≡ none) ((===_iff tk j).0 same) e in
      ground (arith, lookup-insert tk j flight f.in_flight)
  | inr other ↦ ground (arith, lookup-insert tk j flight f.in_flight)
]

joined_flight :
    (f : Flights) (tk j : String) (flight before : Flight)
    → lookup tk f.in_flight ≡ some before
    → times_running j f.running ≡ (if is_some (lookup j f.in_flight) then 1 else 0)
    → times_running j f.running
      ≡ (if is_some (lookup j (insert tk flight f.in_flight)) then 1 else 0)
joined_flight f tk j flight before e single = elim (Bool-cases (tk === j)) [
  | inl same ↦
      let at_j = subst (λ k. lookup k f.in_flight ≡ some before) ((===_iff tk j).0 same) e in
      ground (arith, lookup-insert tk j flight f.in_flight)
  | inr other ↦ ground (arith, lookup-insert tk j flight f.in_flight)
]

settled :
    (f : Flights) (tk j : String) (flight : Flight)
    → lookup tk f.in_flight ≡ some flight
    → times_running j f.running ≡ (if is_some (lookup j f.in_flight) then 1 else 0)
    → times_running j (drop_one tk f.running)
      ≡ (if is_some (lookup j (erase tk f.in_flight)) then 1 else 0)
settled f tk j flight e single = elim (Bool-cases (tk === j)) [
  | inl same ↦
      let at_j = subst (λ k. lookup k f.in_flight ≡ some flight) ((===_iff tk j).0 same) e in
      ground (arith, lookup-erase tk j f.in_flight, drop_one-times tk j f.running)
  | inr other ↦ ground (arith, lookup-erase tk j f.in_flight, drop_one-times tk j f.running)
]

call-IsSingle :
    (f : Flights) (id : ℕ) (note tk : String) → IsSingle f → IsSingle (call_placement f id note tk)
unfolding call_placement times_running
call-IsSingle f id note tk single j = elim (Bool-cases (includes note tk)) [
  | inr b ↦ rw (call_placement, b) (single j)
  | inl b ↦ elim (Option-cases (lookup tk f.in_flight)) [
    | inl e ↦ rw (call_placement, b, e) (started f tk j _ e (single j))
    | inr (flight, e) ↦ rw (call_placement, b, e) (joined_flight f tk j _ flight e (single j))
  ]
]

settle-IsSingle :
    (f : Flights) (tk : String) (r : Result PlacementError PlacementResult)
    → IsSingle f
    → IsSingle (settle_placement f tk r)
unfolding settle_placement
settle-IsSingle f tk r single j = elim (Option-cases (lookup tk f.in_flight)) [
  | inl e ↦ rw (settle_placement, e) (single j)
  | inr (flight, e) ↦ rw (settle_placement, e) (settled f tk j flight e (single j))
]

steps-IsSingle_from : (f : Flights) (es : List FlightEvent) → IsSingle f → IsSingle (steps f es)
unfolding steps step
steps-IsSingle_from f [] single = single
steps-IsSingle_from f (calling id note tk ∷ es) single =
    steps-IsSingle_from (call_placement f id note tk) es (call-IsSingle f id note tk single)
steps-IsSingle_from f (settling tk r ∷ es) single =
    steps-IsSingle_from (settle_placement f tk r) es (settle-IsSingle f tk r single)

-- However calls of `placeIdempotent` and the ends of their attempts interleave, at most one attempt of
-- a reference is running at a time, and one is just when the reference is in the map of the calls in
-- flight.
pub steps-IsSingle : (es : List FlightEvent) → IsSingle (steps no_flights es)
unfolding no_flights lookup times_running
steps-IsSingle es = steps-IsSingle_from no_flights es (λ tk. refl)
