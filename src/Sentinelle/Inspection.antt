-- ===== src/Sentinelle/Inspection.antt =====
-- What the security agent lets pass (shared/security/src/sentinelle.ts).
use nzela.Base.{
  ◌≡◌, refl, truthy, ◌⊎◌, inl, inr, ◌≢◌, ap, subst, All, Bool, true, false, Option, none, some,
  List, [], ◌∷◌, String, arith, or_else, find, Bool-cases, Option-cases,
}
use nzela.Num.{Num, whole, ◌≤ₙ◌, ◌<ₙ◌}
use nzela.Ledger.{sentinelle}
use nzela.Ledger.Registry.{agent_registry}
use nzela.Num.Laws.{amount}
use nzela.Acu.Budget.Caps.{begin_budget}
use nzela.Humanity.{allow, challenge, block}
use nzela.Acu.Budget.{
  AgentCallContext, BudgetMiddleware, Outcome, failed, answered, Ticket, begin, finish, run,
  remaining_for, order_key,
}
use nzela.Sentinelle.{
  ThreatClass, clean, ThreatSignal, Signature, stuffing_threshold, rate_critical, detect_threat,
  Malicious, SentinellePorts, is_clean, triaged, inspect,
}

finish_answer :
    (m : BudgetMiddleware) (ctx : AgentCallContext) (t : Ticket) (o : Outcome Bool)
    → or_else (finish m sentinelle ctx t o).1 true ≡ false
    → (cost : Num) × (o ≡ answered false cost) × ((t.remaining <ₙ cost) ≡ false)
unfolding finish
finish_answer m ctx t failed h = cc
finish_answer m ctx t (answered value cost) h = elim (Bool-cases (t.remaining <ₙ cost)) [
  | inl over ↦ let e = rw over at h in absurd (not_false e)
  | inr within ↦
      let e : value ≡ false = rw within at h in (cost, ap (λ v. answered v cost) e, within)
]
  where
    not_false : true ≡ false → ⊥
    not_false p = cc

begin_cases :
    (r : BudgetMiddleware × Option Ticket)
    → ((w : BudgetMiddleware) × (r ≡ (w, none)))
      ⊎ ((w : BudgetMiddleware) × (t : Ticket) × (r ≡ (w, some t)))
begin_cases (w, none) = inl (w, refl)
begin_cases (w, some t) = inr (w, t, refl)

-- A value other than the fallback comes from a call within its budget.
run_answer :
    (m : BudgetMiddleware) (ctx : AgentCallContext) (invoke : Num → Outcome Bool)
    → (run m sentinelle ctx invoke true).1 ≡ false
    → (cost : Num) × (invoke (remaining_for m sentinelle ctx) ≡ answered false cost)
      × ((remaining_for m sentinelle ctx <ₙ cost) ≡ false)
unfolding run
run_answer m ctx invoke h = elim (begin_cases (begin m sentinelle ctx)) [
  | inl (w, e) ↦ let refused : true ≡ false = rw (run, e) at h in absurd cc
  | inr (w, t, e) ↦
      let (cost, answer, within) =
        finish_answer (begin m sentinelle ctx).0 ctx t (invoke t.remaining) (rw (run, e) at h) in
      let (same, _) = begin_budget m sentinelle ctx e in
      (
        cost,
        subst (λ b. invoke b ≡ answered false cost) same answer,
        subst (λ b. (b <ₙ cost) ≡ false) same within,
      )
]

-- The model was asked with the budget of a call of this agent, $0.006, and called the payload benign
-- at a cost that is not above it.
abbrev pub CalledBenign : (String → Num → Outcome Malicious) → String → Type 0
CalledBenign triage payload =
    (cost : Num) × (triage payload (amount 6_000) ≡ answered false cost)
    × ((amount 6_000 <ₙ cost) ≡ false)

triaged-allow :
    (ports : SentinellePorts) (m : BudgetMiddleware) (triage : String → Num → Outcome Malicious)
    (payload : String) (account : Option String)
    → (triaged ports m triage payload account).1 ≡ allow
    → CalledBenign triage payload
unfolding triaged remaining_for order_key truthy agent_registry
triaged-allow ports m triage payload account h =
    let ctx : AgentCallContext = record { tk_ref = none; account = account } in
    elim (Bool-cases (run m sentinelle ctx (triage payload) true).1) [
      | inl bad ↦ let e : challenge ≡ allow = rw (triaged, bad) at h in absurd cc
      | inr fine ↦ run_answer m ctx (triage payload) fine
    ]

find_in :
    {A : Type 0} (P : A → Type 0) (p : A → Bool) (xs : List A) (x : A)
    → All P xs
    → find p xs ≡ some x
    → P x
find_in P p [] x h e = cc
find_in P p (y ∷ ys) x (h, hs) e = elim (Bool-cases (p y)) [
  | inl b ↦ let same : y ≡ x = some_inj (rw (find, b) at e) in subst P same h
  | inr b ↦ find_in P p ys x hs (rw (find, b) at e)
]
  where
    some_inj : {A : Type 0} {a b : A} → ◌≡◌ {A = Option A} (some a) (some b) → a ≡ b
    some_inj q = cc

is_clean-eq : (t : ThreatClass) → is_clean t ≡ true → t ≡ clean
unfolding is_clean
is_clean-eq t h = ground arith

detected_clean :
    (signatures : List Signature) (signal : ThreatSignal)
    → All (λ s. s.threat ≢ clean) signatures
    → is_clean (detect_threat signatures signal) ≡ true
    → (find (λ s. s.matches signal.payload) signatures ≡ none)
      × ((stuffing_threshold ≤ₙ or_else signal.auth_failures_last_minute (whole 0)) ≡ false)
      × ((rate_critical ≤ₙ or_else signal.requests_last_minute (whole 0)) ≡ false)
unfolding detect_threat is_clean
detected_clean signatures signal named h =
    elim (Option-cases (find (λ s. s.matches signal.payload) signatures)) [
      | inr (s, e) ↦
          let bad = find_in (λ (x : Signature). x.threat ≢ clean) _ signatures s named e in
          absurd (bad (is_clean-eq s.threat (rw (detect_threat, e) at h)))
      | inl e ↦ (e, ground arith, ground arith)
    ]

-- A request is allowed only if no signature matches its payload, its address had fewer than 5 failed
-- logins and fewer than 300 requests in the last minute, and, when the payload looks suspicious and a
-- triage is set, the model was asked with a budget of $0.006 and called it benign at a cost that is
-- not above that: a triage that cannot run, fails or reports more never lets a request pass. No
-- signature is of the class `clean`.
pub inspect-allow :
    (ports : SentinellePorts) (m : BudgetMiddleware) (signal : ThreatSignal)
    (account : Option String)
    → All (λ s. s.threat ≢ clean) ports.signatures
    → (inspect ports m signal account).1 ≡ allow
    → (find (λ s. s.matches signal.payload) ports.signatures ≡ none)
      × ((stuffing_threshold ≤ₙ or_else signal.auth_failures_last_minute (whole 0)) ≡ false)
      × ((rate_critical ≤ₙ or_else signal.requests_last_minute (whole 0)) ≡ false)
      × ((ports.triage ≡ none)
          ⊎ (ports.looks_suspicious signal.payload ≡ false)
          ⊎ ((triage : String → Num → Outcome Malicious) × (ports.triage ≡ some triage)
              × CalledBenign triage signal.payload))
unfolding inspect
inspect-allow ports m signal account named h =
    elim (Bool-cases (is_clean (detect_threat ports.signatures signal))) [
      | inr b ↦ let e : block ≡ allow = rw (inspect, b) at h in absurd cc
      | inl b ↦
          let (unseen, logins, requests) = detected_clean ports.signatures signal named b in
          (
            unseen,
            logins,
            requests,
            elim (Option-cases ports.triage) [
              | inl e ↦ inl e
              | inr (triage, e) ↦ elim (Bool-cases (ports.looks_suspicious signal.payload)) [
                | inr calm ↦ inr (inl calm)
                | inl odd ↦ inr (
                    inr (
                      triage,
                      e,
                      triaged-allow ports m triage signal.payload account
                          (rw (inspect, b, e, odd) at h),
                    ))
              ]
            ],
          )
    ]
