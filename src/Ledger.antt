-- ===== src/Ledger.antt =====
-- The ledger's events (shared/ledger/src/types.ts) and the sink in memory. An event's text for
-- people (`purpose`), its date and the id of the order in StackFood are left out.
pub mod Registry
pub mod Meters
use nzela.Base.{Option, none, List, [], ◌∷◌, ◌++◌, String}
use nzela.Num.{Num, whole}

pub data AgentId : Type 0 where
  router commande adresse lipa cuisine_sync wewa_dispatch litige mama_upsell seo growth : AgentId
  sentinelle : AgentId

-- `AgentId | "system"`
pub data Actor : Type 0 where
  system : Actor
  agent : AgentId → Actor

pub data LedgerEventType : Type 0 where
  deterministic ai block budget_exhausted acu_gated wa_message lifecycle : LedgerEventType

-- The `meta` that the money code writes.
pub data Meta : Type 0 where
  no_meta : Meta
  -- account, needed and available ACU of a refused call
  gated : String → Num → Num → Meta
  -- account and ACU of a debit
  debit : String → Num → Meta
  -- account, ACU, dollars and transaction of a top-up
  top_up : String → Num → Num → String → Meta
  -- account, plan and period of a grant
  grant : String → String → String → Meta

pub record LedgerEvent : Type 0 where
  pub kind : LedgerEventType
  pub actor : Actor
  pub cost_usd : Num
  pub tk_ref : Option String
  pub meta : Meta

abbrev pub Events : Type 0
Events = List LedgerEvent

-- `MemoryLedger.write`
unfoldable pub write : Events → LedgerEvent → Events
write events e = events ++ e ∷ []

-- An event that cost nothing and carries no `meta`.
unfoldable pub free_event : LedgerEventType → Actor → Option String → LedgerEvent
free_event kind actor tk_ref = record {
  kind = kind;
  actor = actor;
  cost_usd = whole 0;
  tk_ref = tk_ref;
  meta = no_meta;
}
