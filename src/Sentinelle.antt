-- ===== src/Sentinelle.antt =====
-- The security agent (shared/security/src/sentinelle.ts, threat.ts, instruction-firewall.ts). Its
-- regular expressions are parameters; the texts of reasons are left out. `SecurityAction` is the type
-- of the humanity verdict.
pub mod Limiter
pub mod Inspection
use nzela.Base.{
  Bool, true, false, ◌&&◌, Option, none, some, List, [], ◌∷◌, String, or_else, is_some, find,
  if◌then◌else◌,
}
use nzela.Num.{Num, whole, ◌≤ₙ◌}
use nzela.Ledger.{LedgerEventType, free_event, sentinelle, Actor}
use nzela.Humanity.{
  HumanitySignals, HumanityVerdict, allow, challenge, block, HumanityResult, assess_humanity,
}
use nzela.Acu.Budget.{AgentCallContext, BudgetMiddleware, Outcome, log_event, run}

pub data ThreatClass : Type 0 where
  sql_injection xss path_traversal command_injection credential_stuffing rate_abuse replay clean :
      ThreatClass

pub record ThreatSignal : Type 0 where
  pub payload : String
  pub auth_failures_last_minute : Option Num
  pub requests_last_minute : Option Num

-- A signature: its class, and whether its expression matches.
pub record Signature : Type 0 where
  pub threat : ThreatClass
  pub matches : String → Bool

abbrev pub rate_critical : Num
rate_critical = whole 300

abbrev pub stuffing_threshold : Num
stuffing_threshold = whole 5

-- `detectThreat`, whose verdict is always confident.
unfoldable pub detect_threat : List Signature → ThreatSignal → ThreatClass
detect_threat signatures signal = elim (find (λ s. s.matches signal.payload) signatures) [
  | some s ↦ s.threat
  | none ↦
      if stuffing_threshold ≤ₙ or_else signal.auth_failures_last_minute (whole 0)
      then credential_stuffing
      else if rate_critical ≤ₙ or_else signal.requests_last_minute (whole 0)
      then rate_abuse
      else clean
]

pub data InstructionCategory : Type 0 where
  prompt_injection system_extraction automation_directive jailbreak code_injection :
      InstructionCategory

pub record Rule : Type 0 where
  pub category : InstructionCategory
  pub matches : String → Bool

-- `screenInstruction`: the category of the first rule that matches; `none` is `human-ok`.
unfoldable screen_instruction : List Rule → Option String → Option InstructionCategory
screen_instruction rules text = elim (find (λ r. r.matches (or_else text "")) rules) [
  | none ↦ none
  | some r ↦ some r.category
]

-- The verdict of the model that triages; the label is left out.
abbrev pub Malicious : Type 0
Malicious = Bool

-- The expressions, and the triage port when there is one.
pub record SentinellePorts : Type 0 where
  pub bot_ua : String → Bool
  pub signatures : List Signature
  pub rules : List Rule
  pub looks_suspicious : String → Bool
  pub triage : Option (String → Num → Outcome Malicious)

-- `Sentinelle.log`; the ledger is the one of the budget middleware.
unfoldable log_security : BudgetMiddleware → LedgerEventType → BudgetMiddleware
log_security m kind = log_event m (free_event kind (Actor.agent sentinelle) none)

unfoldable pub is_clean : ThreatClass → Bool
is_clean clean = true
is_clean _ = false

module _ (ports : SentinellePorts) where
  -- `Sentinelle.gateHumanity`
  unfoldable gate_humanity : BudgetMiddleware → HumanitySignals → BudgetMiddleware × HumanityVerdict
  unfolding assess_humanity log_security
  gate_humanity m signals =
      let verdict = (assess_humanity ports.bot_ua signals).verdict in
      elim verdict [
        | allow ↦ (log_security m LedgerEventType.deterministic, allow)
        | challenge ↦ (log_security m LedgerEventType.block, challenge)
        | block ↦ (log_security m LedgerEventType.block, block)
      ]

  -- `Sentinelle.screenMessage`
  unfoldable screen_message : BudgetMiddleware → String → BudgetMiddleware × HumanityVerdict
  unfolding screen_instruction log_security
  screen_message m text =
      if is_some (screen_instruction ports.rules (some text))
      then (log_security m LedgerEventType.block, block)
      else (m, allow)

  -- The triage under the budget; a call that cannot run counts as malicious.
  unfoldable pub triaged :
      BudgetMiddleware
      → (String → Num → Outcome Malicious)
      → String
      → Option String
      → BudgetMiddleware × HumanityVerdict
  unfolding run log_security
  triaged m triage payload account =
      let ctx : AgentCallContext = record { tk_ref = none; account = account } in
      let (m', malicious) = run m sentinelle ctx (triage payload) true in
      if malicious then (log_security m' LedgerEventType.block, challenge) else (m', allow)

  -- `Sentinelle.inspect`
  unfoldable pub inspect :
      BudgetMiddleware → ThreatSignal → Option String → BudgetMiddleware × HumanityVerdict
  unfolding detect_threat is_clean triaged log_security
  inspect m signal account =
      if is_clean (detect_threat ports.signatures signal)
      then elim (ports.triage) [
        | none ↦ (m, allow)
        | some triage ↦
            if ports.looks_suspicious signal.payload
            then triaged m triage signal.payload account
            else (m, allow)
      ]
      else (log_security m LedgerEventType.block, block)
