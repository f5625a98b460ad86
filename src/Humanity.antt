-- ===== src/Humanity.antt =====
-- The humanity gate (shared/security/src/humanity.ts). The texts of the reasons are left out, and the
-- test of the user agent, a regular expression, is a parameter.
pub mod Verdicts
use nzela.Base.{
  ℕ, Bool, true, false, ◌&&◌, Option, none, some, String, or_else, truthy, is_some, leb,
  if◌then◌else◌,
}
use nzela.Base.Int.{ℤ, pos, negsuc, ◌+ℤ◌, ◌-ℤ◌, pos_part}
use nzela.Num.{Num, whole, ◌<ₙ◌, ◌≤ₙ◌}

pub record HumanitySignals : Type 0 where
  pub form_fill_ms : Option Num
  pub honeypot_filled : Bool
  pub had_interaction : Bool
  pub ip_requests_last_minute : Num
  pub user_agent : String
  pub challenge_passed : Option Bool
  pub wa_verified_phone : Option String

pub data HumanityVerdict : Type 0 where
  allow challenge block : HumanityVerdict

pub record HumanityResult : Type 0 where
  pub verdict : HumanityVerdict
  pub score : ℕ

abbrev pub rate_block : Num
rate_block = whole 60

abbrev rate_warn : Num
rate_warn = whole 20

abbrev pub blocked : HumanityResult
blocked = record { verdict = block; score = 0 }

-- How the time to fill the form counts.
unfoldable pub timing_points : Option Num → ℤ
timing_points none = pos 0 -ℤ pos 10
timing_points (some ms) =
    if ms <ₙ whole 300
    then pos 0 -ℤ pos 30
    else if whole 1_000 ≤ₙ ms && ms <ₙ whole 600_000
    then pos 10
    else pos 0

-- The score before it is clamped, from a neutral start of 60.
unfoldable pub raw_score : HumanitySignals → ℤ
raw_score s =
    pos 60
    +ℤ (if is_some (truthy s.wa_verified_phone) then pos 30 else pos 0)
    +ℤ (if or_else s.challenge_passed false then pos 25 else pos 0)
    +ℤ (if s.had_interaction then pos 10 else pos 0 -ℤ pos 20)
    +ℤ timing_points s.form_fill_ms
    +ℤ (if rate_warn <ₙ s.ip_requests_last_minute then pos 0 -ℤ pos 15 else pos 0)

-- `Math.max(0, Math.min(100, score))`
unfoldable pub clamp_score : ℤ → ℕ
clamp_score x = if leb 100 (pos_part x) then 100 else pos_part x

unfoldable pub verdict_of : ℕ → HumanityVerdict
verdict_of score = if leb 70 score then allow else if leb 40 score then challenge else block

module _ (bot_ua : String → Bool) where
  unfoldable pub assess_humanity : HumanitySignals → HumanityResult
  assess_humanity s =
      if s.honeypot_filled
      then blocked
      else if bot_ua s.user_agent
      then blocked
      else if rate_block <ₙ s.ip_requests_last_minute
      then blocked
      else record {
        verdict = verdict_of (clamp_score (raw_score s));
        score = clamp_score (raw_score s);
      }
