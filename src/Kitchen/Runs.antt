-- ===== src/Kitchen/Runs.antt =====
-- How long the kitchen's exception ladder is, and what it costs
-- (backend/gateway/src/cuisine-sync.ts).
use nzela.Base.{ℕ, ◌+◌, ◌≤◌, ◌<◌, ◌≡◌, refl, ap, subst, ◌∙◌, List, [], ◌∷◌, arith, length}
use nzela.Base.Result.{ok, bind_ok, ok_inj}
use nzela.Num.{Num, whole, ◌+ₙ◌}
use nzela.Num.Laws.{amount, amount-+}
use nzela.Ledger.{Events, LedgerEvent, write}
use nzela.Ledger.Meters.{sum_costs}
use nzela.Kitchen.Ladder.{Step, apply-Shown, step_cost}
use nzela.Kitchen.{
  KitchenState, awaiting_vendor, escalating_voice_call, vendor_failed, rejected, KitchenEvent,
  KitchenOrder, apply_kitchen_event, apply_kitchen_events,
}

-- How many steps a state may still make.
unfoldable pub rank : KitchenState → ℕ
rank awaiting_vendor = 3
rank escalating_voice_call = 2
rank vendor_failed = 1
rank rejected = 1
rank _ = 0

-- What it may still spend, in millionths of a dollar.
unfoldable pub allowance : KitchenState → ℕ
allowance awaiting_vendor = 8000
allowance _ = 0

-- Every arrow lowers the rank, and pays for what it logs.
Step-down :
    {s t : KitchenState} {e : KitchenEvent}
    → Step s e t
    → (rank t < rank s) × (step_cost e + allowance t ≤ allowance s)
unfolding rank step_cost allowance
Step-down Step.accept = (omega arith, omega arith)
Step-down Step.accept_late = (omega arith, omega arith)
Step-down Step.reject = (omega arith, omega arith)
Step-down Step.silence = (omega arith, omega arith)
Step-down Step.answer_yes = (omega arith, omega arith)
Step-down Step.answer_no = (omega arith, omega arith)
Step-down Step.no_answer = (omega arith, omega arith)
Step-down Step.reroute = (omega arith, omega arith)
Step-down Step.reroute_rejected = (omega arith, omega arith)
Step-down Step.refund = (omega arith, omega arith)
Step-down Step.refund_rejected = (omega arith, omega arith)

sum_costs-write :
    (l : Events) (x : LedgerEvent) (s : Num) → sum_costs s (write l x) ≡ sum_costs s l +ₙ x.cost_usd
unfolding sum_costs write
sum_costs-write [] x s = refl
sum_costs-write (y ∷ l) x s = sum_costs-write l x (s +ₙ y.cost_usd)

-- `n` events led from `o` to `o2`, within the rank and the allowance of `o`; `c` is the cost before.
abbrev pub WithinLadder : ℕ → ℕ → KitchenOrder → KitchenOrder → Events → Type 0
WithinLadder n c o o2 l2 =
    (n + rank o2.state ≤ rank o.state)
    × ((d : ℕ) × (sum_costs (whole 0) l2 ≡ amount (c + d))
        × (d + allowance o2.state ≤ allowance o.state))

-- A run of accepted events from any state is at most as long as the state's rank (three events from
-- the first state), and logs at most the state's allowance ($0.008 from the first, nothing after).
pub apply_kitchen_events_lem :
    (es : List KitchenEvent) (o : KitchenOrder) (l : Events) (o2 : KitchenOrder) (l2 : Events)
    (c : ℕ)
    → apply_kitchen_events o es l ≡ ok (o2, l2)
    → sum_costs (whole 0) l ≡ amount c
    → WithinLadder (length es) c o o2 l2
unfolding apply_kitchen_events
apply_kitchen_events_lem [] o l o2 l2 c h w =
    subst (λ r. WithinLadder 0 c o r.0 r.1) (ok_inj h)
      (omega arith, (0, w ∙ ap amount (omega arith), omega arith))
apply_kitchen_events_lem (e ∷ es) o l o2 l2 c h w =
    let m = bind_ok (apply_kitchen_event o e l) (λ s. apply_kitchen_events s.0 es s.1) h in
    let k = apply-Shown o e l m.0.0 m.0.1 m.1 in
    let down = Step-down k.0 in
    let paid =
      ap (sum_costs (whole 0)) k.1.1
      ∙ sum_costs-write l k.1.0 (whole 0)
      ∙ ap (λ t. t +ₙ k.1.0.cost_usd) w
      ∙ ap (λ t. amount c +ₙ t) k.1.2
      ∙ amount-+ c (step_cost e) in
    let rest = apply_kitchen_events_lem es m.0.0 m.0.1 o2 l2 (c + step_cost e) m.2 paid in
    (omega arith, (step_cost e + rest.1.0, rest.1.1 ∙ ap amount (omega arith), omega arith))
