-- ===== src/Kitchen/Ladder.antt =====
-- The exception ladder of the kitchen as a step relation
-- (backend/gateway/src/cuisine-sync.ts).
use nzela.Base.{
  ℕ, ◌⊎◌, inl, inr, ◌↔◌, ◌≡◌, refl, sym, ap, subst, Bool, true, false, ◌||◌, Option, arith,
}
use nzela.Base.Result.{ok}
use nzela.Num.{Num}
use nzela.Num.Laws.{amount}
use nzela.Ledger.{Events, LedgerEvent, write}
use nzela.Kitchen.{
  KitchenState, awaiting_vendor, escalating_voice_call, vendor_failed, accepted, rejected, rerouted,
  refunded, KitchenEvent, vendor_accepted, vendor_rejected, timeout, voice_call_answered,
  voice_call_unanswered, customer_chose_reroute, customer_chose_refund, KitchenOrder, kitchen_log,
  is_awaiting, is_escalating, is_failed, step_if, apply_kitchen_event,
}

-- The arrows of the diagram.
pub data Step : KitchenState → KitchenEvent → KitchenState → Type 0 where
  accept : {m : Num} → Step awaiting_vendor (vendor_accepted m) accepted
  accept_late : {m : Num} → Step escalating_voice_call (vendor_accepted m) accepted
  reject : Step awaiting_vendor vendor_rejected rejected
  silence : Step awaiting_vendor timeout escalating_voice_call
  answer_yes : {m : Option Num} → Step escalating_voice_call (voice_call_answered true m) accepted
  answer_no :
      {m : Option Num} → Step escalating_voice_call (voice_call_answered false m) vendor_failed
  no_answer : Step escalating_voice_call voice_call_unanswered vendor_failed
  reroute : {r : ℕ} → Step vendor_failed (customer_chose_reroute r) rerouted
  reroute_rejected : {r : ℕ} → Step rejected (customer_chose_reroute r) rerouted
  refund : Step vendor_failed customer_chose_refund refunded
  refund_rejected : Step rejected customer_chose_refund refunded

abbrev pub Applies : KitchenOrder → KitchenEvent → Events → KitchenOrder → Events → Type 0
Applies o e l o2 l2 = apply_kitchen_event o e l ≡ ok (o2, l2)

step_if_ok :
    (b : Bool) (o : KitchenOrder) (e : KitchenEvent) (next : KitchenOrder) (x : LedgerEvent)
    (l : Events) (o2 : KitchenOrder) (l2 : Events)
    → step_if b o e next x l ≡ ok (o2, l2)
    → (b ≡ true) × (o2 ≡ next) × (l2 ≡ write l x)
unfolding step_if
step_if_ok true o e next x l o2 l2 h = (refl, cc, cc)
step_if_ok false o e next x l o2 l2 h = cc

awaiting : (s : KitchenState) → is_awaiting s ≡ true → s ≡ awaiting_vendor
unfolding is_awaiting
awaiting s h = ground arith

escalating : (s : KitchenState) → is_escalating s ≡ true → s ≡ escalating_voice_call
unfolding is_escalating
escalating s h = ground arith

either :
    (s : KitchenState)
    → (is_awaiting s || is_escalating s) ≡ true
    → (s ≡ awaiting_vendor) ⊎ (s ≡ escalating_voice_call)
unfolding is_awaiting is_escalating
either s h = ground arith

failed : (s : KitchenState) → is_failed s ≡ true → (s ≡ vendor_failed) ⊎ (s ≡ rejected)
unfolding is_failed
failed s h = ground arith

-- The cost of what a step logs, in millionths of a dollar.
unfoldable pub step_cost : KitchenEvent → ℕ
step_cost timeout = 8000
step_cost _ = 0

-- Everything that a step shows: its arrow, and the event it logs.
abbrev Shown : KitchenOrder → KitchenEvent → Events → KitchenOrder → Events → Type 0
Shown o e l o2 l2 =
    Step o.state e o2.state
    × ((x : LedgerEvent) × (l2 ≡ write l x) × (x.cost_usd ≡ amount (step_cost e)))

arrow : {s s2 t t2 : KitchenState} {e : KitchenEvent} → s ≡ s2 → t ≡ t2 → Step s2 e t2 → Step s e t
arrow {s} {s2} {t} {t2} {e} p q m =
    subst (λ u. Step u e t) (sym p) (subst (λ u. Step s2 e u) (sym q) m)

pub apply-Shown :
    (o : KitchenOrder) (e : KitchenEvent) (l : Events) (o2 : KitchenOrder) (l2 : Events)
    → Applies o e l o2 l2
    → Shown o e l o2 l2
unfolding apply_kitchen_event kitchen_log step_cost
apply-Shown o (vendor_accepted m) l o2 l2 h =
    let k = step_if_ok (is_awaiting o.state || is_escalating o.state) _ _ _ _ l o2 l2 h in
    elim (either o.state k.0) [
      | inl w ↦ (arrow w (ap (λ r. r.state) k.1) Step.accept, (_, k.2, refl))
      | inr w ↦ (arrow w (ap (λ r. r.state) k.1) Step.accept_late, (_, k.2, refl))
    ]
apply-Shown o vendor_rejected l o2 l2 h =
    let k = step_if_ok (is_awaiting o.state) _ _ _ _ l o2 l2 h in
    (arrow (awaiting o.state k.0) (ap (λ r. r.state) k.1) Step.reject, (_, k.2, refl))
apply-Shown o timeout l o2 l2 h =
    let k = step_if_ok (is_awaiting o.state) _ _ _ _ l o2 l2 h in
    (arrow (awaiting o.state k.0) (ap (λ r. r.state) k.1) Step.silence, (_, k.2, refl))
apply-Shown o (voice_call_answered true m) l o2 l2 h =
    let k = step_if_ok (is_escalating o.state) _ _ _ _ l o2 l2 h in
    (arrow (escalating o.state k.0) (ap (λ r. r.state) k.1) Step.answer_yes, (_, k.2, refl))
apply-Shown o (voice_call_answered false m) l o2 l2 h =
    let k = step_if_ok (is_escalating o.state) _ _ _ _ l o2 l2 h in
    (arrow (escalating o.state k.0) (ap (λ r. r.state) k.1) Step.answer_no, (_, k.2, refl))
apply-Shown o voice_call_unanswered l o2 l2 h =
    let k = step_if_ok (is_escalating o.state) _ _ _ _ l o2 l2 h in
    (arrow (escalating o.state k.0) (ap (λ r. r.state) k.1) Step.no_answer, (_, k.2, refl))
apply-Shown o (customer_chose_reroute r) l o2 l2 h =
    let k = step_if_ok (is_failed o.state) _ _ _ _ l o2 l2 h in
    elim (failed o.state k.0) [
      | inl w ↦ (arrow w (ap (λ x. x.state) k.1) Step.reroute, (_, k.2, refl))
      | inr w ↦ (arrow w (ap (λ x. x.state) k.1) Step.reroute_rejected, (_, k.2, refl))
    ]
apply-Shown o customer_chose_refund l o2 l2 h =
    let k = step_if_ok (is_failed o.state) _ _ _ _ l o2 l2 h in
    elim (failed o.state k.0) [
      | inl w ↦ (arrow w (ap (λ x. x.state) k.1) Step.refund, (_, k.2, refl))
      | inr w ↦ (arrow w (ap (λ x. x.state) k.1) Step.refund_rejected, (_, k.2, refl))
    ]

step_if-true :
    (b : Bool) (o : KitchenOrder) (e : KitchenEvent) (next : KitchenOrder) (x : LedgerEvent)
    (l : Events)
    → b ≡ true
    → step_if b o e next x l ≡ ok (next, write l x)
unfolding step_if
step_if-true b o e next x l h = rw h refl

Step-Applies :
    (o : KitchenOrder) {s s2 : KitchenState} {e : KitchenEvent} (l : Events)
    → o.state ≡ s
    → Step s e s2
    → (o2 : KitchenOrder) × (l2 : Events) × Applies o e l o2 l2 × (o2.state ≡ s2)
unfolding apply_kitchen_event is_awaiting is_escalating is_failed
Step-Applies o l h Step.accept =
    (_, _, step_if-true _ o _ _ _ l (ap (λ s. is_awaiting s || is_escalating s) h), refl)
Step-Applies o l h Step.accept_late =
    (_, _, step_if-true _ o _ _ _ l (ap (λ s. is_awaiting s || is_escalating s) h), refl)
Step-Applies o l h Step.reject = (_, _, step_if-true _ o _ _ _ l (ap is_awaiting h), refl)
Step-Applies o l h Step.silence = (_, _, step_if-true _ o _ _ _ l (ap is_awaiting h), refl)
Step-Applies o l h Step.answer_yes = (_, _, step_if-true _ o _ _ _ l (ap is_escalating h), refl)
Step-Applies o l h Step.answer_no = (_, _, step_if-true _ o _ _ _ l (ap is_escalating h), refl)
Step-Applies o l h Step.no_answer = (_, _, step_if-true _ o _ _ _ l (ap is_escalating h), refl)
Step-Applies o l h Step.reroute = (_, _, step_if-true _ o _ _ _ l (ap is_failed h), refl)
Step-Applies o l h Step.reroute_rejected = (_, _, step_if-true _ o _ _ _ l (ap is_failed h), refl)
Step-Applies o l h Step.refund = (_, _, step_if-true _ o _ _ _ l (ap is_failed h), refl)
Step-Applies o l h Step.refund_rejected = (_, _, step_if-true _ o _ _ _ l (ap is_failed h), refl)

-- The code applies an event exactly where the diagram has an arrow, and moves to the arrow's end; an
-- event without an arrow throws.
pub apply_kitchen_event_lem :
    (o : KitchenOrder) (e : KitchenEvent) (l : Events) (s : KitchenState)
    → ((o2 : KitchenOrder) × (l2 : Events) × Applies o e l o2 l2 × (o2.state ≡ s))
      ↔ Step o.state e s
apply_kitchen_event_lem o e l s = (
  λ r. subst (Step o.state e) r.3 (apply-Shown o e l r.0 r.1 r.2).0,
  λ m. Step-Applies o l refl m,
)
