-- ===== src/Tests/Visitors.antt =====
-- The humanity gate and the newsletter at concrete inputs (shared/security/src/humanity.ts,
-- backend/newsletter/src/scheduler.ts).
use nzela.Base.{
  ◌≤◌, ◌≡◌, refl, ◌⊎◌, Bool, true, false, none, some, [], ◌∷◌, String, arith, ◌===◌, truthy,
  or_else, is_some,
}
use nzela.Num.{whole, ◌<ₙ◌, ◌≤ₙ◌, ◌=ₙ◌}
use nzela.Base.Int.{◌+ℤ◌, ◌-ℤ◌}
use nzela.Dict.{has, lookup}
use nzela.Humanity.{
  HumanitySignals, allow, rate_block, timing_points, raw_score, clamp_score, verdict_of,
  assess_humanity,
}
use nzela.Humanity.Verdicts.{assess_humanity_lem}
use nzela.Newsletter.{Subscriber, fr, Mailing, MailPorts, run_weekly}
use nzela.Newsletter.Sends.{IsOnce, times_sent, run_weekly-IsOnce}

-- A visitor who touched the screen and took two seconds.
abbrev visitor : HumanitySignals
visitor = record {
  form_fill_ms = some (whole 2_000);
  honeypot_filled = false;
  had_interaction = true;
  ip_requests_last_minute = whole 3;
  user_agent = "Mozilla/5.0";
  challenge_passed = none;
  wa_verified_phone = none;
}

abbrev is_curl : String → Bool
is_curl agent = agent === "curl/8"

visitor_allowed : (assess_humanity is_curl visitor).verdict ≡ allow
unfolding assess_humanity raw_score timing_points clamp_score verdict_of ◌<ₙ◌ ◌≤ₙ◌ ◌=ₙ◌ ◌+ℤ◌ ◌-ℤ◌
    truthy ◌===◌
visitor_allowed = refl

assess_humanity_lem_example :
    (false ≡ false)
    × (is_curl "Mozilla/5.0" ≡ false)
    × ((rate_block <ₙ whole 3) ≡ false)
    × ((is_some (truthy none) ≡ true) ⊎ (or_else {A = Bool} none false ≡ true) ⊎ (true ≡ true))
    × (70 ≤ (assess_humanity is_curl visitor).score)
    × ((assess_humanity is_curl visitor).score ≤ 100)
assess_humanity_lem_example = assess_humanity_lem is_curl visitor visitor_allowed

abbrev reader : Subscriber
reader = record {
  email = "a@b.cd";
  name = none;
  lang = fr;
  consented = true;
  unsubscribed_at = none;
}

abbrev mail_ports : MailPorts
mail_ports = record { is_valid_email = λ e. true; to_lower_case = λ e. e; sends = λ done sub. true }

abbrev no_mail : Mailing
no_mail = record { sent_log = []; deliveries = []; ledger = [] }

no_mail-IsOnce : IsOnce mail_ports no_mail
unfolding times_sent has lookup
no_mail-IsOnce = (λ k. omega arith, tt)

run_weekly-IsOnce_example :
    IsOnce mail_ports (run_weekly mail_ports no_mail (reader ∷ reader ∷ []) "2026-W48").0
run_weekly-IsOnce_example =
    run_weekly-IsOnce mail_ports no_mail (reader ∷ reader ∷ []) "2026-W48" no_mail-IsOnce
