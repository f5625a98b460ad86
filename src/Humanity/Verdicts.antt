-- ===== src/Humanity/Verdicts.antt =====
-- What the humanity gate lets through (shared/security/src/humanity.ts).
use nzela.Base.{
  ◌≤◌, ◌≡◌, ◌⊎◌, Bool, true, false, Option, String, arith, or_else, truthy, is_some, if◌then◌else◌,
}
use nzela.Base.Int.{ℤ, pos, ◌+ℤ◌, ◌-ℤ◌, pos_part}
use nzela.Num.{Num, ◌<ₙ◌}
use nzela.Humanity.{
  HumanitySignals, allow, rate_block, timing_points, raw_score, clamp_score, verdict_of,
  assess_humanity,
}

timing_points-le : (t : Option Num) → pos_part (timing_points t) ≤ 10
unfolding timing_points ◌-ℤ◌
timing_points-le t = ground arith

sum_le :
    (t w : ℤ)
    → pos_part t ≤ 10
    → pos_part w ≤ 0
    → pos_part (pos 60 +ℤ pos 0 +ℤ pos 0 +ℤ (pos 0 -ℤ pos 20) +ℤ t +ℤ w) ≤ 50
unfolding ◌+ℤ◌ ◌-ℤ◌
sum_le t w a b = ground arith

rate_le : (b : Bool) → pos_part (if b then pos 0 -ℤ pos 15 else pos 0) ≤ 0
unfolding ◌-ℤ◌
rate_le b = ground arith

-- Without a phone, a challenge or an interaction the score stays below the line.
low_score :
    (s : HumanitySignals)
    → is_some (truthy s.wa_verified_phone) ≡ false
    → or_else s.challenge_passed false ≡ false
    → s.had_interaction ≡ false
    → pos_part (raw_score s) ≤ 50
unfolding raw_score
low_score s p c i =
    rw (p, c, i)
      (sum_le (timing_points s.form_fill_ms) _ (timing_points-le s.form_fill_ms) (rate_le _))

-- The gate allows a visitor only if the honeypot is empty, the user agent is no bot's, the address
-- made at most 60 requests in the last minute, and there was an interaction, a verified phone or a
-- challenge that was passed; its score is then from 70 to 100.
pub assess_humanity_lem :
    (bot_ua : String → Bool) (s : HumanitySignals)
    → (assess_humanity bot_ua s).verdict ≡ allow
    → (s.honeypot_filled ≡ false)
      × (bot_ua s.user_agent ≡ false)
      × ((rate_block <ₙ s.ip_requests_last_minute) ≡ false)
      × ((is_some (truthy s.wa_verified_phone) ≡ true)
          ⊎ (or_else s.challenge_passed false ≡ true)
          ⊎ (s.had_interaction ≡ true))
      × (70 ≤ (assess_humanity bot_ua s).score)
      × ((assess_humanity bot_ua s).score ≤ 100)
unfolding assess_humanity verdict_of clamp_score
assess_humanity_lem bot_ua s h = ground (arith, low_score s)
