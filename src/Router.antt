-- ===== src/Router.antt =====
-- The router of inbound messages (backend/gateway/src/router.ts).
pub mod Firewall
use nzela.Base.{
  ◌≡◌, Bool, true, false, Option, none, some, List, [], ◌∷◌, String, if◌then◌else◌, or_else, truthy,
  ◌===◌, is_some,
}
use nzela.Dict.{Dict, lookup}
use nzela.Ledger.{Events, write, free_event, LedgerEventType, router, Actor}
use nzela.Text.{trim, mentions}

-- The router's `SessionPhase`.
pub data RouterPhase : Type 0 where
  idle ordering awaiting_address awaiting_payment in_delivery rating : RouterPhase

pub data DeterministicAction : Type 0 where
  show_restaurants show_menu show_cart checkout order_status greeting : DeterministicAction

-- A decision; the text of a refusal is always `FIREWALL_REPLY`.
pub data RouteDecision : Type 0 where
  deterministic : DeterministicAction → RouteDecision
  agent_commande agent_adresse : String → RouteDecision
  firewall_block : RouteDecision

pub record InboundMessage : Type 0 where
  pub button_id : Option String
  pub text : Option String
  pub is_voice_note : Bool
  pub tk_ref : Option String

abbrev pub order_keywords : List String
order_keywords =
    "menu" ∷ "commander" ∷ "commande" ∷ "nakolia" ∷ "manger" ∷ "resto" ∷ "restaurant" ∷ "faim" ∷ []

abbrev pub status_keywords : List String
status_keywords = "où" ∷ "ou est" ∷ "statut" ∷ "status" ∷ "wapi" ∷ []

abbrev pub food_hints : List String
food_hints =
    "poulet" ∷ "poisson" ∷ "thomson" ∷ "madesu" ∷ "riz" ∷ "fufu" ∷ "brochette" ∷ "chèvre" ∷ "chevre"
    ∷ "jus" ∷ "tangawisi" ∷ "gingembre" ∷ "mayo" ∷ "taco" ∷ "mikate" ∷ "beignet" ∷ "pizza"
    ∷ "liboke" ∷ "pondu" ∷ "saka" ∷ []

abbrev button_actions : Dict DeterministicAction
button_actions =
    ("btn_restos", show_restaurants)
    ∷ ("btn_menu", show_menu)
    ∷ ("btn_cart", show_cart)
    ∷ ("btn_checkout", checkout)
    ∷ ("btn_status", order_status)
    ∷ []

-- `msg.buttonId ? BUTTON_ACTIONS[msg.buttonId] : undefined`
unfoldable pub button_action : Option String → Option DeterministicAction
unfolding truthy lookup
button_action button = elim (truthy button) [ none ↦ none | some id ↦ lookup id button_actions ]

unfoldable pub in_address_phase : RouterPhase → Bool
in_address_phase awaiting_address = true
in_address_phase _ = false

-- `Router.log`
unfoldable pub log : Events → LedgerEventType → Option String → Events
log ledger kind tk_ref = write ledger (free_event kind (Actor.agent router) tk_ref)

-- `toLowerCase` is a parameter.
module _ (to_lower : String → String) where
  -- Guards 4 to 6, on a text that is not empty.
  unfoldable pub route_text : Events → String → Option String → Events × RouteDecision
  unfolding log mentions
  route_text ledger text tk =
      if mentions order_keywords (to_lower text)
      then (log ledger LedgerEventType.deterministic tk, deterministic show_restaurants)
      else if mentions status_keywords (to_lower text)
      then (log ledger LedgerEventType.deterministic tk, deterministic order_status)
      else if mentions food_hints (to_lower text)
      then (ledger, agent_commande text)
      else (log ledger LedgerEventType.block tk, firewall_block)

  -- `Router.route`
  unfoldable pub route : Events → InboundMessage → RouterPhase → Events × RouteDecision
  unfolding route_text log button_action in_address_phase trim
  route ledger msg phase =
      let text = trim (or_else msg.text "") in
      elim (button_action msg.button_id) [
        | some action ↦ (log ledger LedgerEventType.deterministic msg.tk_ref, deterministic action)
        | none ↦
            if msg.is_voice_note
            then if in_address_phase phase
              then (ledger, agent_adresse text)
              else (ledger, agent_commande text)
            else if text === ""
            then (log ledger LedgerEventType.block msg.tk_ref, firewall_block)
            else if in_address_phase phase
            then (ledger, agent_adresse text)
            else route_text ledger text msg.tk_ref
      ]
