-- ===== src/Newsletter/Sends.antt =====
-- Who gets the newsletter, and how often (backend/newsletter/src/scheduler.ts).
use nzela.Base.{
  ℕ, ◌+◌, ◌≤◌, ◌≡◌, subst, true, false, List, [], ◌∷◌, String, arith, ◌===◌, ===_iff, keep, All,
  if◌then◌else◌, ◌⊎◌, Option, none, some, truthy, is_some, refl, ap, inl, inr, Bool-cases,
}
use nzela.Dict.{has, insert, has-insert}
use Prim.Native.String.{◌++◌ as str_append}
use nzela.Newsletter.{
  Subscriber, SendReport, Delivery, Mailing, MailPorts, is_mailable, mailable_subscribers, sent_key,
  was_sent, send_one, handle_one, send_all, log_run, run_weekly,
}

not_unsubscribed :
    (date : Option String) → is_some (truthy date) ≡ false → (date ≡ none) ⊎ (date ≡ some "")
unfolding truthy
not_unsubscribed none h = inl refl
not_unsubscribed (some date) h = elim (Bool-cases (date === "")) [
  | inl e ↦ inr (ap some ((===_iff date "").0 e))
  | inr e ↦ absurd (clash (rw (e, truthy, is_some) at h))
]
  where
    clash : true ≡ false → ⊥
    clash e = cc

module _ (ports : MailPorts) where
  -- The address in lower case and the week, as one text.
  abbrev address_week : Delivery → String
  address_week d = str_append (ports.to_lower_case d.to.email) (str_append "::" d.week)

  -- How many deliveries went to an address, in any case of letters, for a week.
  unfoldable pub times_sent : String → List Delivery → ℕ
  times_sent k [] = 0
  times_sent k (d ∷ ds) = (if address_week d === k then 1 else 0) + times_sent k ds

  -- Who may be mailed: an address that passes the test, consent, and no date of an unsubscription.
  abbrev MayBeMailed : Subscriber → Type 0
  MayBeMailed s =
      (ports.is_valid_email s.email ≡ true)
      × (s.consented ≡ true)
      × ((s.unsubscribed_at ≡ none) ⊎ (s.unsubscribed_at ≡ some ""))

  is_mailable-MayBeMailed : (s : Subscriber) → is_mailable ports s ≡ true → MayBeMailed s
  unfolding is_mailable
  is_mailable-MayBeMailed s h =
      (ground arith, ground arith, not_unsubscribed s.unsubscribed_at (ground arith))

  -- Every delivery is in the log, once, and went to a subscriber who may be mailed.
  abbrev pub IsOnce : Mailing → Type 0
  IsOnce m =
      ((k : String) → times_sent k m.deliveries ≤ (if has k m.sent_log then 1 else 0))
      × All (λ d. MayBeMailed d.to) m.deliveries

  counted :
      (m : Mailing) (j k : String)
      → has j m.sent_log ≡ false
      → times_sent k m.deliveries ≤ (if has k m.sent_log then 1 else 0)
      → (if j === k then 1 else 0) + times_sent k m.deliveries
        ≤ (if has k (insert j tt m.sent_log) then 1 else 0)
  counted m j k e h = elim (Bool-cases (j === k)) [
    | inl same ↦
        let unseen = subst (λ x. has x m.sent_log ≡ false) ((===_iff j k).0 same) e in
        ground (arith, has-insert j k tt m.sent_log)
    | inr other ↦ ground (arith, has-insert j k tt m.sent_log)
  ]

  handle_one-IsOnce :
      (week : String) (sub : Subscriber) (m : Mailing) (r : SendReport)
      → MayBeMailed sub
      → IsOnce m
      → IsOnce (handle_one ports week sub (m, r)).0
  unfolding handle_one send_one was_sent times_sent sent_key
  handle_one-IsOnce week sub m r ok once =
      elim (Bool-cases (has (sent_key ports sub.email week) m.sent_log)) [
        | inl e ↦ rw e once
        | inr e ↦ rw e (elim (Bool-cases (ports.sends m.deliveries sub)) [
          | inl f ↦
              rw f (λ k. counted m (sent_key ports sub.email week) k e (once.0 k), (ok, once.1))
          | inr f ↦ rw f once
        ])
      ]

  send_all-IsOnce :
      (week : String) (subs : List Subscriber) (s : Mailing × SendReport)
      → All MayBeMailed subs
      → IsOnce s.0
      → IsOnce (send_all ports week subs s).0
  unfolding send_all
  send_all-IsOnce week [] s ok once = once
  send_all-IsOnce week (sub ∷ subs) s ok once =
      send_all-IsOnce week subs (handle_one ports week sub s) ok.1
        (handle_one-IsOnce week sub s.0 s.1 ok.0 once)

  mailable-All : (all : List Subscriber) → All MayBeMailed (mailable_subscribers ports all)
  unfolding mailable_subscribers
  mailable-All [] = tt
  mailable-All (sub ∷ all) = elim (Bool-cases (is_mailable ports sub)) [
    | inl e ↦ rw (e, keep) (is_mailable-MayBeMailed sub e, mailable-All all)
    | inr e ↦ rw (e, keep) (mailable-All all)
  ]

  -- A run keeps the mailing right: every delivery is in the log, under its address in lower case and
  -- its week; no two deliveries have the same of both; and all deliveries went to subscribers with a
  -- valid address who consented and did not unsubscribe, whatever the transport refuses.
  pub run_weekly-IsOnce :
      (m : Mailing) (subscribers : List Subscriber) (week : String)
      → IsOnce m
      → IsOnce (run_weekly ports m subscribers week).0
  unfolding run_weekly log_run
  run_weekly-IsOnce m subscribers week once =
      send_all-IsOnce week (mailable_subscribers ports subscribers) _ (mailable-All subscribers)
        once
