-- ===== src/Landmark/Gates.antt =====
-- What the radius gates promise (shared/landmark-graph/src/radius.ts).
use nzela.Base.{
  ◌≡◌, refl, ◌≢◌, ◌⊎◌, inl, inr, Bool, true, false, Option, none, some, List, [], ◌∷◌, arith,
  ===_iff, All, Bool-cases, keep, not, ◌++◌, if◌then◌else◌,
}
use nzela.Num.{Num, whole, is_nan, ◌≤ₙ◌, ◌<ₙ◌}
use nzela.Num.Sort.{
  sort_by, IsSortedBy, sort_by-perm, All-sort_by, All-of_sort_by, sort_by-IsSortedBy,
}
use nzela.Landmark.{
  RestaurantCandidate, RadiusConfig, GateName, distance_of, is_listed, effective_radius_km,
  discovery_list, is_substitute, first, find_substitute, radius_gate,
}
use mathlib.Core.List.{Perm, Mem, mem-cons_self, mem-cons_of_mem, perm_middle}
use mathlib.Core.List.Perm

All-keep : {A : Type 0} (p : A → Bool) (xs : List A) → All (λ x. p x ≡ true) (keep p xs)
All-keep p [] = tt
All-keep p (x ∷ xs) = elim (Bool-cases (p x)) [
  | inl e ↦ rw (e, keep) (e, All-keep p xs)
  | inr e ↦ rw (e, keep) (All-keep p xs)
]

All-imp :
    {A : Type 0} {P Q : A → Type 0} (f : (x : A) → P x → Q x) (xs : List A) → All P xs → All Q xs
All-imp f [] a = tt
All-imp f (x ∷ xs) a = (f x a.0, All-imp f xs a.1)

le-not_nan : (x y : Num) → (x ≤ₙ y) ≡ true → is_nan x ≡ false
unfolding ◌≤ₙ◌ is_nan
le-not_nan x y h = ground arith

listed_not_nan :
    (radius : Num) (r : RestaurantCandidate)
    → is_listed radius r ≡ true
    → is_nan r.distance_km ≡ false
unfolding is_listed
listed_not_nan radius r h = ground (arith, le-not_nan r.distance_km radius)

listed_parts :
    (radius : Num) (r : RestaurantCandidate)
    → is_listed radius r ≡ true
    → (r.is_open ≡ true) × ((r.distance_km ≤ₙ radius) ≡ true)
unfolding is_listed
listed_parts radius r h = ground arith

-- The radius of the rules: 3 km in the rain, else 5 km.
abbrev rule_radius : RadiusConfig → Num
rule_radius cfg = if cfg.rain_mode then whole 3 else whole 5

-- A restaurant that a customer may see.
abbrev pub IsListed : RadiusConfig → RestaurantCandidate → Type 0
IsListed cfg r = (r.is_open ≡ true) × ((r.distance_km ≤ₙ rule_radius cfg) ≡ true)

left_out :
    (cfg : RadiusConfig) (r : RestaurantCandidate)
    → not (is_listed (effective_radius_km cfg) r) ≡ true
    → IsListed cfg r
    → ⊥
unfolding is_listed effective_radius_km
left_out cfg r h (o, d) = ground arith

listed :
    (cfg : RadiusConfig) (r : RestaurantCandidate)
    → is_listed (effective_radius_km cfg) r ≡ true
    → IsListed cfg r
unfolding effective_radius_km
listed cfg r h = listed_parts (rule_radius cfg) r h

keep-perm :
    {A : Type 0} (p : A → Bool) (xs : List A) → Perm (keep p xs ++ keep (λ x. not (p x)) xs) xs
keep-perm p [] = Perm.refl []
keep-perm p (x ∷ xs) = elim (Bool-cases (p x)) [
  | inl e ↦ rw (e, keep) (Perm.cons x (keep-perm p xs))
  | inr e ↦
      rw (e, keep)
        (Perm.trans (perm_middle (keep p xs) (keep (λ y. not (p y)) xs))
          (Perm.cons x (keep-perm p xs)))
]

-- The discovery list parts the restaurants that it is given: it holds those that are open and within
-- 5 km, in the rain 3 km, each as often as it was given, the nearest first, and none of the others is
-- open and within that radius.
pub discovery_list_lem :
    (all : List RestaurantCandidate) (cfg : RadiusConfig)
    → (others : List RestaurantCandidate) × Perm (discovery_list all cfg ++ others) all
      × All (λ r. IsListed cfg r → ⊥) others
      × All (IsListed cfg) (discovery_list all cfg)
      × IsSortedBy distance_of (discovery_list all cfg)
unfolding discovery_list
discovery_list_lem all cfg =
    let p = is_listed (effective_radius_km cfg) in
    let others = keep (λ r. not (p r)) all in
    let kept = All-keep p all in
    (
      others,
      Perm.trans (Perm.append_right others (sort_by-perm distance_of (keep p all)))
          (keep-perm p all),
      All-imp (left_out cfg) others (All-keep (λ r. not (p r)) all),
      All-sort_by distance_of _ _ (All-imp (listed cfg) _ kept),
      sort_by-IsSortedBy distance_of _ (All-imp (listed_not_nan (effective_radius_km cfg)) _ kept),
    )

All-of_keep :
    {A : Type 0} (P : A → Type 0) (p : A → Bool) (xs : List A)
    → All P (keep p xs)
    → All (λ x. p x ≡ true → P x) xs
All-of_keep P p [] a = tt
All-of_keep P p (x ∷ xs) a = elim (Bool-cases (p x)) [
  | inl e ↦ let (px, rest) = taken e a in ((λ _. px), All-of_keep P p xs rest)
  | inr e ↦ ((λ t. absurd (clash e t)), All-of_keep P p xs (skipped e a))
]
  where
    taken : p x ≡ true → All P (keep p (x ∷ xs)) → P x × All P (keep p xs)
    taken e b = rw (e, keep) at b

    skipped : p x ≡ false → All P (keep p (x ∷ xs)) → All P (keep p xs)
    skipped e b = rw (e, keep) at b

    clash : p x ≡ false → p x ≡ true → ⊥
    clash e t = cc

-- What a substitute must be.
abbrev IsSubstitute : RestaurantCandidate → Num → RestaurantCandidate → Type 0
IsSubstitute blocked radius r =
    (r.id ≢ blocked.id)
    × (r.is_open ≡ true)
    × ((r.distance_km ≤ₙ radius) ≡ true)
    × (r.cuisine_category ≡ blocked.cuisine_category)

IsSubstitute-parts :
    (blocked : RestaurantCandidate) (radius : Num) (r : RestaurantCandidate)
    → is_substitute blocked radius r ≡ true
    → IsSubstitute blocked radius r
unfolding is_substitute
IsSubstitute-parts blocked radius r h =
    ground (arith, ===_iff r.cuisine_category blocked.cuisine_category)

substitute_test :
    (blocked : RestaurantCandidate) (radius : Num) (r : RestaurantCandidate)
    → IsSubstitute blocked radius r
    → is_substitute blocked radius r ≡ true
unfolding is_substitute
substitute_test blocked radius r (i, o, d, c) =
    ground (arith, ===_iff r.cuisine_category blocked.cuisine_category)

substitute_not_nan :
    (blocked : RestaurantCandidate) (radius : Num) (r : RestaurantCandidate)
    → is_substitute blocked radius r ≡ true
    → is_nan r.distance_km ≡ false
substitute_not_nan blocked radius r h =
    le-not_nan r.distance_km radius ((IsSubstitute-parts blocked radius r h).2)

-- The nearest substitute of those given, or that there is none.
abbrev pub Nearest :
    RestaurantCandidate → List RestaurantCandidate → Num → Option RestaurantCandidate → Type 0
Nearest blocked all radius none = All (λ r. IsSubstitute blocked radius r → ⊥) all
Nearest blocked all radius (some s) =
    Mem s all
    × IsSubstitute blocked radius s
    × All (λ r. IsSubstitute blocked radius r → (r.distance_km <ₙ s.distance_km) ≡ false) all

All-Mem : {A : Type 0} (xs : List A) → All (λ x. Mem x xs) xs
All-Mem [] = tt
All-Mem (x ∷ xs) = (mem-cons_self, All-imp (λ y m. mem-cons_of_mem x m) xs (All-Mem xs))

keep-All : {A : Type 0} (P : A → Type 0) (p : A → Bool) (xs : List A) → All P xs → All P (keep p xs)
keep-All P p [] a = tt
keep-All P p (x ∷ xs) (h, t) = elim (Bool-cases (p x)) [
  | inl e ↦ rw (e, keep) (h, keep-All P p xs t)
  | inr e ↦ rw (e, keep) (keep-All P p xs t)
]

lt_irrefl : (x : Num) → (x <ₙ x) ≡ false
unfolding ◌<ₙ◌
lt_irrefl x = ground arith

-- What holds of the sorted candidates holds of every restaurant that would do.
All-of_candidates :
    (P : RestaurantCandidate → Type 0) (p : RestaurantCandidate → Bool)
    (all : List RestaurantCandidate) {l : List RestaurantCandidate}
    → sort_by distance_of (keep p all) ≡ l
    → All P l
    → All (λ r. p r ≡ true → P r) all
All-of_candidates P p all e a =
    All-of_keep P p all (All-of_sort_by distance_of P (keep p all) (rw e a))

first-Nearest :
    (blocked : RestaurantCandidate) (all : List RestaurantCandidate) (radius : Num)
    (l : List RestaurantCandidate)
    → sort_by distance_of (keep (is_substitute blocked radius) all) ≡ l
    → IsSortedBy distance_of l
    → All (λ r. is_substitute blocked radius r ≡ true) l
    → All (λ r. Mem r all) l
    → Nearest blocked all radius (first l)
unfolding first
first-Nearest blocked all radius [] e s a m =
    All-imp (λ r no yes. no (substitute_test blocked radius r yes)) all
      (All-of_candidates (λ r. ⊥) (is_substitute blocked radius) all e tt)
first-Nearest blocked all radius (h ∷ t) e s a m = (
  m.0,
  IsSubstitute-parts blocked radius h a.0,
  All-imp (λ r far yes. far (substitute_test blocked radius r yes)) all
      (All-of_candidates (λ r. (r.distance_km <ₙ h.distance_km) ≡ false)
        (is_substitute blocked radius) all e (lt_irrefl h.distance_km, s.0)),
)

find_substitute-Nearest :
    (blocked : RestaurantCandidate) (all : List RestaurantCandidate) (radius : Num)
    → Nearest blocked all radius (find_substitute blocked all radius)
unfolding find_substitute
find_substitute-Nearest blocked all radius =
    let kept = All-keep (is_substitute blocked radius) all in
    first-Nearest blocked all radius _ refl
      (sort_by-IsSortedBy distance_of _ (All-imp (substitute_not_nan blocked radius) _ kept))
      (All-sort_by distance_of _ _ kept)
      (All-sort_by distance_of _ _ (keep-All _ (is_substitute blocked radius) all (All-Mem all)))

-- A gate lets a restaurant through exactly when it lies within 5 km, in the rain 3 km. When it
-- refuses, it offers one of the restaurants given that is open, within that radius, of the same
-- category and has another id than the refused one, and none of these is nearer; it offers none only
-- if no restaurant given is all this.
pub radius_gate_lem :
    (gate : GateName) (c : RestaurantCandidate) (all : List RestaurantCandidate)
    (cfg : RadiusConfig)
    → let r = radius_gate gate c all cfg in
      (r.radius ≡ rule_radius cfg)
      × (((r.allowed ≡ true) × ((c.distance_km ≤ₙ rule_radius cfg) ≡ true) × (r.substitute ≡ none))
          ⊎ ((r.allowed ≡ false)
              × ((c.distance_km ≤ₙ rule_radius cfg) ≡ false)
              × Nearest c all (rule_radius cfg) r.substitute))
unfolding radius_gate effective_radius_km
radius_gate_lem gate c all cfg = elim (Bool-cases (c.distance_km ≤ₙ rule_radius cfg)) [
  | inl e ↦ rw e (refl, inl (refl, refl, refl))
  | inr e ↦ rw e (refl, inr (refl, refl, find_substitute-Nearest c all (rule_radius cfg)))
]

-- Whatever a gate lets through in the rain it lets through in dry weather.
radius_gate_rain :
    (gate : GateName) (c : RestaurantCandidate) (all : List RestaurantCandidate)
    → (radius_gate gate c all (record { rain_mode = true })).allowed ≡ true
    → (radius_gate gate c all (record { rain_mode = false })).allowed ≡ true
unfolding radius_gate effective_radius_km ◌≤ₙ◌
radius_gate_rain gate c all h = ground arith
