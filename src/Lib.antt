-- ===== src/Lib.antt =====
-- Nzela: the money and ordering core of a food-delivery service on WhatsApp.
--
-- The parts and how they interact. An agent call goes through the budget middleware, which gates it
-- by the ACU wallet and writes to the event ledger; the wallet is filled by the funding module. A
-- customer finds restaurants through the radius gates, gets a quote from the authoritative pricing,
-- and the payload is checked against it. A placed order enters the book of open orders; a payment
-- is verified against that book, once, and closes it. The kitchen's state machine follows the order
-- on the restaurant's side, and a settled first order may reward a referral. In front of these is the
-- conversation on WhatsApp: its engine asks the router about a free text, keeps a session for each
-- customer, and places the order through a port, which prices the cart, takes a reference and a token
-- and lets the order adapter post it over the StackFood client. Beside these stand the humanity gate,
-- the security agent and the weekly newsletter.
--
-- Files:
--   Base, Num, Dict            shared: tests, lists, integers, results, numbers, dictionaries
--   Ledger, Ledger/Registry, Ledger/Meters
--                              shared/ledger/src/types.ts, registry.ts, meters.ts
--   Acu (wallet), Acu/Wallet, Acu/Soundness
--                              shared/ledger/src/acu.ts (InMemoryAcuWallet)
--   Acu/Budget and below       shared/ledger/src/budget.ts (BudgetMiddleware.run as begin, the
--                              invocation, finish)
--   Acu/Funding and below      shared/ledger/src/funding.ts
--   Landmark and below         shared/landmark-graph/src/radius.ts, distance.ts
--   Pricing and below          backend/gateway/src/pricing.ts, recap.ts
--   Payment, Payment/Matching, Payment/Clearing, Payment/Replays
--                              backend/lipa-ingest/src/matcher.ts, replay.ts
--   Payment/Ingest, Payment/Settlement
--                              backend/lipa-ingest/src/server.ts, and onVerified of
--                              backend/server/src/bootstrap.ts
--   Kitchen and below          backend/gateway/src/cuisine-sync.ts
--   Store, Store/Durability    shared/persistence/src/filekv.ts, crypto.ts
--   Store/Orders and below     backend/server/src/open-orders.ts
--   Store/Wallet and below     shared/ledger/src/persistence.ts
--   Referral and below         backend/acquisition/src/referral.ts
--   Humanity and below         shared/security/src/humanity.ts
--   Newsletter and below       backend/newsletter/src/scheduler.ts, subscribers.ts, types.ts
--   Sessions and below         backend/gateway/src/session.ts
--   Text                       the texts of the conversation: trim, includes, parseSelection
--   Router and below           backend/gateway/src/router.ts
--   Conversation and below     backend/gateway/src/conversation.ts: ports and replies, Handlers (one
--                              function for each method), Invariant, Saved and Sound, Diagram and
--                              Moves, Words and Progress
--   Conversation/Ordering, Lines, Totals
--                              backend/gateway/src/conversation-stackfood.ts (the order port)
--   Service and below          backend/server/src/bootstrap.ts (placed orders enter the book)
--   StackFood, StackFood/Retries
--                              shared/stackfood-client/src/client.ts
--   StackFood/Adapter and below
--                              shared/stackfood-client/src/order-adapter.ts
--   StackFood/Auth, StackFood/Refs
--                              shared/stackfood-client/src/auth.ts, idempotency.ts
--   Sentinelle and below       shared/security/src/sentinelle.ts, threat.ts, instruction-firewall.ts
--   Tests and below            the properties at concrete inputs
--
-- Modelling. A class is a record of its fields, a method a function that returns the next state
-- with its answer; a thrown error is a value. The ledger and the files are part of the state. A
-- JavaScript number is NaN, an infinity or a whole multiple of 10⁻⁶ (Num): sums and comparisons of
-- finite values are exact: the rounding of doubles in sums of dollars, in the ACU
-- wallet's `usd_to_acu` and in the fees of 10% and 2% is left out. Where a product or a quotient is
-- rounded to a whole number and the last bit of the double is known to count, Num/Double rounds it as
-- the source does: the wewa's share of 70% and the ACU of a top-up. The dollar amounts of the code
-- have at most four decimals and FC are whole. Every loop is structural; the only fuel is the 512
-- doublings in which Num/Double looks for the unit of a double, enough for numbers below 2⁵⁶⁵, and
-- its arguments are far below: an amount of up to 10⁹⁰ dollars in units of 2⁻²⁰⁰.
--
-- The ports of the conversation and the network behind the StackFood client are a state with
-- functions on it; a rejected promise is `none` or an error. A retry loop runs over the delays that are
-- left, and toLowerCase is a parameter.
--
-- Not modelled: purpose texts, refusal texts and the fixed texts of replies; dates; members of
-- Object.prototype as keys; the regular expressions of the SMS parsers and of the firewalls, HTTP,
-- cryptography and trigonometry, which are parameters or absent; the catalog port, the webhooks and
-- the sender of the gateway, receipts, the funnel, unit economics and view counters; the
-- newsletter's texts, SEO, growth and analytics packages, and the frontend.
pub mod Base
pub mod Num
pub mod Dict
pub mod Ledger
pub mod Acu
pub mod Landmark
pub mod Pricing
pub mod Payment
pub mod Kitchen
pub mod Store
pub mod Referral
pub mod Humanity
pub mod Newsletter
pub mod Sessions
pub mod Text
pub mod StackFood
pub mod Sentinelle
pub mod Router
pub mod Conversation
pub mod Service
pub mod Tests
