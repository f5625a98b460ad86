-- ===== src/Newsletter.antt =====
-- The weekly newsletter (backend/newsletter/src/scheduler.ts, subscribers.ts, types.ts). The contents
-- of an email and the texts of errors are left out; the test of an address (a regular expression), `toLowerCase` and the
-- transport are parameters, and the week is the text that `isoWeek` gives.
pub mod Sends
use nzela.Base.{
  ℕ, suc, ◌-◌, Bool, true, false, not, ◌&&◌, Option, none, some, List, [], ◌∷◌, ◌++◌, String, keep,
  length, is_some, truthy, if◌then◌else◌,
}
use nzela.Dict.{Dict, has, insert}
use nzela.Ledger.{Actor, growth, lifecycle, Events, write, free_event}
use Prim.Native.String.{◌++◌ as str_append}

pub data Lang : Type 0 where
  fr en : Lang

pub record Subscriber : Type 0 where
  pub email : String
  pub name : Option String
  pub lang : Lang
  pub consented : Bool
  pub unsubscribed_at : Option String

pub record SendReport : Type 0 where
  pub week_iso : String
  pub attempted : ℕ
  pub sent : ℕ
  pub skipped_already_sent : ℕ
  pub skipped_not_mailable : ℕ
  pub failed : List String

-- An email that the transport took.
pub record Delivery : Type 0 where
  pub to : Subscriber
  pub week : String

-- The log of what was sent (`MemorySentLog`), the deliveries, the latest first, and the ledger.
pub record Mailing : Type 0 where
  pub sent_log : Dict (Unit {0})
  pub deliveries : List Delivery
  pub ledger : Events

-- The functions of the platform: an address's test, `toLowerCase`, and the answer of the transport
-- after the deliveries made so far.
pub record MailPorts : Type 0 where
  pub is_valid_email : String → Bool
  pub to_lower_case : String → String
  pub sends : List Delivery → Subscriber → Bool

module _ (ports : MailPorts) where
  unfoldable pub is_mailable : Subscriber → Bool
  is_mailable s =
      ports.is_valid_email s.email && (s.consented && not (is_some (truthy s.unsubscribed_at)))

  unfoldable pub mailable_subscribers : List Subscriber → List Subscriber
  mailable_subscribers all = keep is_mailable all

  unfoldable pub sent_key : String → String → String
  sent_key email week = str_append (ports.to_lower_case email) (str_append "::" week)

  unfoldable pub was_sent : Mailing → String → String → Bool
  was_sent m email week = has (sent_key email week) m.sent_log

  -- One recipient whose email was not sent before.
  unfoldable pub send_one : String → Subscriber → Mailing × SendReport → Mailing × SendReport
  send_one week sub (m, r) =
      if ports.sends m.deliveries sub
      then (
        record m {
          sent_log = insert (sent_key sub.email week) tt m.sent_log;
          deliveries = record { to = sub; week = week } ∷ m.deliveries;
        },
        record r { attempted = suc r.attempted; sent = suc r.sent },
      )
      else (m, record r { attempted = suc r.attempted; failed = r.failed ++ sub.email ∷ [] })

  unfoldable pub handle_one : String → Subscriber → Mailing × SendReport → Mailing × SendReport
  handle_one week sub (m, r) =
      if was_sent m sub.email week
      then (m, record r { skipped_already_sent = suc r.skipped_already_sent })
      else send_one week sub (m, r)

  unfoldable pub send_all : String → List Subscriber → Mailing × SendReport → Mailing × SendReport
  send_all week [] s = s
  send_all week (sub ∷ subs) s = send_all week subs (handle_one week sub s)

  unfoldable pub log_run : Mailing × SendReport → Mailing × SendReport
  log_run (m, r) =
      (record m { ledger = write m.ledger (free_event lifecycle (Actor.agent growth) none) }, r)

  unfoldable pub run_weekly : Mailing → List Subscriber → String → Mailing × SendReport
  run_weekly m subscribers week =
      let mailable = mailable_subscribers subscribers in
      log_run (
        send_all week mailable (
          m,
          record {
            week_iso = week;
            attempted = 0;
            sent = 0;
            skipped_already_sent = 0;
            skipped_not_mailable = length subscribers - length mailable;
            failed = [];
          },
        ))
