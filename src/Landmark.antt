-- ===== src/Landmark.antt =====
-- The 5 km rule and the delivery zones (shared/landmark-graph/src/radius.ts), and the restaurants by
-- distance (shared/landmark-graph/src/distance.ts). The texts of refusals are left out; the
-- great-circle formula is a parameter, since it is floating-point trigonometry.
pub mod Gates
use nzela.Base.{
  ℕ, Bool, true, false, not, ◌&&◌, Option, none, some, List, [], ◌∷◌, String, ◌==◌, ◌===◌, leb,
  if◌then◌else◌, keep, map,
}
use nzela.Num.{Num, whole, ◌≤ₙ◌}
use nzela.Num.Sort.{sort_by}

abbrev pub radius_km : Num
radius_km = whole 5

abbrev rain_radius_km : Num
rain_radius_km = whole 3

pub record RadiusConfig : Type 0 where
  pub rain_mode : Bool

unfoldable pub effective_radius_km : RadiusConfig → Num
effective_radius_km cfg = if cfg.rain_mode then rain_radius_km else radius_km

pub record RestaurantCandidate : Type 0 where
  pub id : ℕ
  pub name : String
  pub quartier : String
  pub distance_km : Num
  pub landmark_hops : ℕ
  pub same_quartier : Bool
  pub same_commune : Bool
  pub cuisine_category : String
  pub is_open : Bool
  pub rating : Num

pub data GateName : Type 0 where
  discovery placement dispatch : GateName

pub record GateResult : Type 0 where
  pub allowed : Bool
  pub gate : GateName
  pub radius : Num
  pub substitute : Option RestaurantCandidate

abbrev pub distance_of : RestaurantCandidate → Num
distance_of r = r.distance_km

-- The filter of `discoveryList`.
unfoldable pub is_listed : Num → RestaurantCandidate → Bool
is_listed radius r = r.is_open && r.distance_km ≤ₙ radius

unfoldable pub discovery_list : List RestaurantCandidate → RadiusConfig → List RestaurantCandidate
discovery_list all cfg = sort_by distance_of (keep (is_listed (effective_radius_km cfg)) all)

-- The filter of `findSubstitute`.
unfoldable pub is_substitute : RestaurantCandidate → Num → RestaurantCandidate → Bool
is_substitute blocked radius r =
    not (r.id == blocked.id)
    && (r.is_open && (r.distance_km ≤ₙ radius && r.cuisine_category === blocked.cuisine_category))

-- `xs[0]`
unfoldable pub first {ℓ} : {A : Type ℓ} → List A → Option A
first [] = none
first (x ∷ xs) = some x

unfoldable pub find_substitute :
    RestaurantCandidate → List RestaurantCandidate → Num → Option RestaurantCandidate
find_substitute blocked all radius =
    first (sort_by distance_of (keep (is_substitute blocked radius) all))

unfoldable pub radius_gate :
    GateName → RestaurantCandidate → List RestaurantCandidate → RadiusConfig → GateResult
radius_gate gate candidate all cfg =
    let radius = effective_radius_km cfg in
    if candidate.distance_km ≤ₙ radius
    then record { allowed = true; gate = gate; radius = radius; substitute = none }
    else record {
      allowed = false;
      gate = gate;
      radius = radius;
      substitute = find_substitute candidate all radius;
    }

pub data DeliveryZone : Type 0 where
  zone1 zone2 zone3 : DeliveryZone

unfoldable classify_zone : RestaurantCandidate → DeliveryZone
classify_zone c =
    if c.same_quartier && leb c.landmark_hops 3
    then zone1
    else if c.same_commune
    then zone2
    else zone3

-- Tariffs in FC.
unfoldable pub zone_delivery_fc : DeliveryZone → ℕ
zone_delivery_fc zone1 = 3_500
zone_delivery_fc zone2 = 5_000
zone_delivery_fc zone3 = 7_000

record LatLng : Type 0 where
  pub lat : Num
  lng : Num

data CustomerLocation : Type 0 where
  live_geolocation adresse_vocale : LatLng → CustomerLocation

-- The saved address is given by its centroid.
unfoldable resolve_customer_location : Option LatLng → Option LatLng → Option CustomerLocation
resolve_customer_location (some p) saved = some (live_geolocation p)
resolve_customer_location none (some centroid) = some (adresse_vocale centroid)
resolve_customer_location none none = none

unfoldable point_of : CustomerLocation → LatLng
point_of (live_geolocation p) = p
point_of (adresse_vocale p) = p

record LocatedRestaurant : Type 0 where
  pub id : ℕ
  pub name : String
  location : LatLng

record RestaurantWithDistance : Type 0 where
  pub restaurant : LocatedRestaurant
  pub distance : Num

module _ (distance_km : LatLng → LatLng → Num) where
  unfoldable rank_by_distance :
      CustomerLocation → List LocatedRestaurant → List RestaurantWithDistance
  rank_by_distance customer restaurants =
      sort_by (λ r. r.distance)
        (map (λ r. record { restaurant = r; distance = distance_km (point_of customer) r.location })
          restaurants)

  unfoldable nearest : CustomerLocation → List LocatedRestaurant → Option RestaurantWithDistance
  nearest customer restaurants = first (rank_by_distance customer restaurants)
