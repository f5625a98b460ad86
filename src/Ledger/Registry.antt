-- ===== src/Ledger/Registry.antt =====
-- The agents and their hard budgets (shared/ledger/src/registry.ts).
use nzela.Base.{Option, none, some, String}
use nzela.Num.{Num}
use nzela.Num.Laws.{amount}
use nzela.Ledger.{
  AgentId, router, commande, adresse, lipa, cuisine_sync, wewa_dispatch, litige, mama_upsell, seo,
  growth, sentinelle,
}

pub data AgentKind : Type 0 where
  deterministic llm_small llm_stt regex_vision deterministic_tts algorithmic : AgentKind
  llm_single_shot : AgentKind

pub record AgentSpec : Type 0 where
  pub name : String
  pub kind : AgentKind
  pub budget_per_call_usd : Num
  pub budget_per_order_usd : Option Num
  pub role : String

unfoldable pub agent_registry : AgentId → AgentSpec
agent_registry router = record {
  name = "NZELA Router";
  kind = deterministic;
  budget_per_call_usd = amount 0;
  budget_per_order_usd = none;
  role = "Keyword/button routing, session state, AI firewall";
}
agent_registry commande = record {
  name = "Commande Agent";
  kind = llm_small;
  budget_per_call_usd = amount 5_000;
  budget_per_order_usd = none;
  role = "Free text/voice note → structured cart against cached catalog";
}
agent_registry adresse = record {
  name = "Adresse Agent";
  kind = llm_stt;
  budget_per_call_usd = amount 6_000;
  budget_per_order_usd = none;
  role = "Adresse Vocale → Landmark Graph node + rendered address";
}
agent_registry lipa = record {
  name = "Lipa Agent";
  kind = regex_vision;
  budget_per_call_usd = amount 200;
  budget_per_order_usd = none;
  role = "SMS Ledger Bridge parsing and payment↔order matching";
}
agent_registry cuisine_sync = record {
  name = "Cuisine Sync";
  kind = deterministic_tts;
  budget_per_call_usd = amount 8_000;
  budget_per_order_usd = none;
  role = "Restaurant state machine; TTS voice-call escalation only";
}
agent_registry wewa_dispatch = record {
  name = "Wewa Dispatch";
  kind = algorithmic;
  budget_per_call_usd = amount 0;
  budget_per_order_usd = none;
  role = "Zone assignment, batching, milestone scheduler";
}
agent_registry litige = record {
  name = "Litige Agent";
  kind = llm_small;
  budget_per_call_usd = amount 10_000;
  budget_per_order_usd = some (amount 10_000);
  role = "Disputes, refunds to Crédit Tunakula, photo evidence intake";
}
agent_registry mama_upsell = record {
  name = "Mama Upsell";
  kind = llm_single_shot;
  budget_per_call_usd = amount 4_000;
  budget_per_order_usd = none;
  role = "Exactly one contextual upsell at cart confirmation";
}
agent_registry seo = record {
  name = "SEO Agent";
  kind = llm_single_shot;
  budget_per_call_usd = amount 20_000;
  budget_per_order_usd = none;
  role = "Autopilot blog content with dynamic internal links + SEO metadata";
}
agent_registry growth = record {
  name = "Growth Engine";
  kind = llm_single_shot;
  budget_per_call_usd = amount 10_000;
  budget_per_order_usd = none;
  role = "Partner AI marketing suite: content generators + growth analytics";
}
agent_registry sentinelle = record {
  name = "Sentinelle (Anti-Hacking)";
  kind = llm_small;
  budget_per_call_usd = amount 6_000;
  budget_per_order_usd = none;
  role = "Humanity gate, non-human-instruction firewall, threat detection";
}

abbrev pub ai_cost_ceiling_per_order_usd : Num
ai_cost_ceiling_per_order_usd = amount 50_000

abbrev pub wa_cost_ceiling_per_order_usd : Num
wa_cost_ceiling_per_order_usd = amount 24_000

abbrev pub wa_utility_template_usd : Num
wa_utility_template_usd = amount 8_000
