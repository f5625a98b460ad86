-- ===== src/Pricing/Fees.antt =====
-- What the fee breakdown promises (backend/gateway/src/recap.ts).
use nzela.Base.{
  ℕ, ◌+◌, ◌-◌, ◌*◌, ◌/◌, ◌≤◌, ◌<◌, inl, inr, ◌≡◌, refl, sym, ap, ◌∙◌, Option, arith, or_else,
}
use nzela.Num.{Num, scale, whole, ◌+ₙ◌}
use nzela.Num.Laws.{amount, amount-+, amount-sub}
use nzela.Landmark.{DeliveryZone, zone_delivery_fc}
use nzela.Num.Double.{to_double-near}
use nzela.Pricing.{times, round_rate, share_rate, share_of, wewa_share, fee_breakdown}

-- The rounded part of `n` units at the rate of `num` in `den`.
abbrev rounded : ℕ → ℕ → ℕ → ℕ
rounded num den n = (2 * (n * num) + den * scale) / (2 * (den * scale)) * scale

round_rate-amount : (num den n : ℕ) → round_rate num den (amount n) ≡ amount (rounded num den n)
unfolding round_rate
round_rate-amount num den n = refl

-- The share of a whole number of FC is at most the whole.
share_of-le : (d : ℕ) → share_of d ≤ d
unfolding share_of
share_of-le d = elim (to_double-near (d * share_rate)) [
  | inl near ↦ omega (arith, near)
  | inr (u, small, near) ↦ omega (arith, small, near)
]

-- The share of the delivery fee of `n` units.
abbrev share : ℕ → ℕ
share d = share_of (d / scale) * scale

share-le : (d : ℕ) → share (rounded 1 1 d) ≤ rounded 1 1 d
share-le d = let le = share_of-le (rounded 1 1 d / scale) in omega (arith, le)

module _ (n : ℕ) (zone : DeliveryZone) (rain : Option Num) (r : ℕ)
    (rain_eq : or_else rain (whole 1) ≡ amount r) where
  abbrev delivery : ℕ
  delivery = rounded 1 1 (zone_delivery_fc zone * r)

  abbrev services : ℕ
  services = rounded 10 100 n + rounded 2 100 n

  fees_parts :
      let f = fee_breakdown (amount n) zone rain in
      (f.service_fc ≡ amount (rounded 10 100 n))
      × (f.processing_fc ≡ amount (rounded 2 100 n))
      × (f.delivery_fc ≡ amount delivery)
      × (f.wewa_share_fc ≡ amount (share delivery))
  unfolding fee_breakdown times round_rate wewa_share
  fees_parts = (refl, refl, rw rain_eq, rw rain_eq)

  pub fees_total : (fee_breakdown (amount n) zone rain).total_fc ≡ amount (n + services + delivery)
  unfolding fee_breakdown times round_rate wewa_share
  fees_total = rw (rain_eq, amount-+, amount-+, amount-+) (ap amount (omega arith))

  fees_marge :
      (fee_breakdown (amount n) zone rain).marge_fc
      ≡ amount (services + (delivery - share delivery))
  unfolding fee_breakdown times round_rate wewa_share
  fees_marge =
      rw (rain_eq, amount-sub delivery _ (share-le (zone_delivery_fc zone * r)), amount-+, amount-+)
        (ap amount (omega arith))

  fees_split :
      let f = fee_breakdown (amount n) zone rain in
      f.total_fc ≡ amount n +ₙ f.wewa_share_fc +ₙ f.marge_fc
  fees_split =
      let within = share-le (zone_delivery_fc zone * r) in
      fees_total
      ∙ sym (rw (fees_parts.3, fees_marge, amount-+, amount-+) (ap amount (omega (arith, within))))

-- The money of an order is conserved: for a subtotal and a rain multiplier that are finite and not
-- negative, the total that the customer pays is the subtotal, the wewa's share and Tunakula's margin;
-- the share is at most the delivery fee, and the two service fees are within half an FC of 10% and 2%.
pub fees_conserved :
    (n : ℕ) (zone : DeliveryZone) (rain : Option Num) (r : ℕ)
    → or_else rain (whole 1) ≡ amount r
    → let f = fee_breakdown (amount n) zone rain in
      (s : ℕ) × (p : ℕ) × (d : ℕ) × (w : ℕ) × (f.service_fc ≡ amount s)
      × (f.processing_fc ≡ amount p)
      × (f.delivery_fc ≡ amount d)
      × (f.wewa_share_fc ≡ amount w)
      × (w ≤ d)
      × (f.marge_fc ≡ amount (s + p + (d - w)))
      × (f.total_fc ≡ f.subtotal_fc +ₙ f.wewa_share_fc +ₙ f.marge_fc)
      × (10 * s ≤ n + 5 * scale)
      × (n < 10 * s + 5 * scale + 1)
      × (50 * p ≤ n + 25 * scale)
      × (n < 50 * p + 25 * scale + 1)
unfolding fee_breakdown
fees_conserved n zone rain r e =
    let (es, ep, ed, ew) = fees_parts n zone rain r e in
    let d = delivery n zone rain r e in
    let within = share-le (zone_delivery_fc zone * r) in
    (
      rounded 10 100 n,
      rounded 2 100 n,
      d,
      share d,
      es,
      ep,
      ed,
      ew,
      within,
      fees_marge n zone rain r e,
      fees_split n zone rain r e,
      omega arith,
      omega arith,
      omega arith,
      omega arith,
    )
