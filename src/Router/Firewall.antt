-- ===== src/Router/Firewall.antt =====
-- When a message reaches an agent, and what the router logs (backend/gateway/src/router.ts).
use nzela.Base.{[], ◌∷◌, ◌++◌, ◌≡◌, ◌⊎◌, true, false, Option, none, String, or_else, arith, ◌≢◌}
use nzela.Ledger.{Events, LedgerEventType, Actor, router, no_meta}
use nzela.Num.{whole}
use nzela.Text.{trim, mentions}
use nzela.Router.{
  RouterPhase, in_address_phase, RouteDecision, deterministic, agent_commande, agent_adresse,
  firewall_block, InboundMessage, food_hints, order_keywords, status_keywords, button_action, log,
  route_text, route,
}

abbrev text_of : InboundMessage → String
text_of msg = trim (or_else msg.text "")

module _ (to_lower : String → String) where
  abbrev low_text : InboundMessage → String
  low_text msg = to_lower (text_of msg)

  -- A text message that only the firewall can take: no voice note, no known button, nothing said of
  -- food, an order or its status.
  record IsOffTopic (msg : InboundMessage) : Type 0 where
    pub no_button : button_action msg.button_id ≡ none
    pub no_voice : msg.is_voice_note ≡ false
    pub no_order : mentions order_keywords (low_text msg) ≡ false
    pub no_status : mentions status_keywords (low_text msg) ≡ false
    pub no_food : mentions food_hints (low_text msg) ≡ false

  -- What earns a call of an agent.
  abbrev pub IsEarned : InboundMessage → RouterPhase → RouteDecision → Type 0
  IsEarned msg phase (agent_commande text) =
      (text ≡ text_of msg)
      × (in_address_phase phase ≡ false)
      × ((msg.is_voice_note ≡ true) ⊎ (mentions food_hints (low_text msg) ≡ true))
  IsEarned msg phase (agent_adresse text) =
      (text ≡ text_of msg)
      × (in_address_phase phase ≡ true)
      × ((msg.is_voice_note ≡ true) ⊎ (text ≢ ""))
  IsEarned msg phase (deterministic action) = Unit
  IsEarned msg phase firewall_block = Unit

  -- An event of the router that costs nothing, at the end of the ledger.
  abbrev with_event : Events → LedgerEventType → Option String → Events
  with_event ledger kind tk =
      ledger
      ++ record {
        kind = kind;
        actor = Actor.agent router;
        cost_usd = whole 0;
        tk_ref = tk;
        meta = no_meta;
      }
        ∷ []

  -- What a decision leaves in the ledger.
  abbrev pub logged : Events → Option String → RouteDecision → Events
  logged ledger tk (agent_commande text) = ledger
  logged ledger tk (agent_adresse text) = ledger
  logged ledger tk (deterministic action) = with_event ledger LedgerEventType.deterministic tk
  logged ledger tk firewall_block = with_event ledger LedgerEventType.block tk

  -- Outside the address phase, a text that names neither food, an order nor its status gets the canned
  -- reply, and the refusal is logged.
  route_off_topic :
      (ledger : Events) (msg : InboundMessage) (phase : RouterPhase)
      → in_address_phase phase ≡ false
      → IsOffTopic msg
      → route to_lower ledger msg phase
        ≡ (log ledger LedgerEventType.block msg.tk_ref, firewall_block)
  unfolding route route_text
  route_off_topic ledger msg phase e off =
      let h0 = off.no_button in
      let h1 = off.no_voice in
      let h2 = off.no_order in let h3 = off.no_status in let h4 = off.no_food in ground arith
