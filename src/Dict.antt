-- ===== src/Dict.antt =====
-- A JavaScript `Map`, or an object used as one, with texts for keys, in insertion order; a `Set` of
-- texts is a `Dict` of units.
use nzela.Base.{
  ◌≡◌, refl, ◌≢◌, Bool, true, false, Option, none, some, List, [], ◌∷◌, String, arith, ◌===◌,
  ===_iff, ===_refl, if◌then◌else◌, is_some, Bool-cases, inl, inr,
}

abbrev pub Dict {ℓ} : Type ℓ → Type ℓ
Dict V = List (String × V)

module _ {ℓ} {V : Type ℓ} where
  -- `m.get(k)`
  unfoldable pub lookup : String → Dict V → Option V
  lookup k [] = none
  lookup k ((j, v) ∷ m) = if j === k then some v else lookup k m

  -- `m.set(k, v)`
  unfoldable pub insert : String → V → Dict V → Dict V
  insert k v [] = (k, v) ∷ []
  insert k v ((j, w) ∷ m) = if j === k then (j, v) ∷ m else (j, w) ∷ insert k v m

  -- `m.delete(k)`
  unfoldable pub erase : String → Dict V → Dict V
  erase k [] = []
  erase k ((j, w) ∷ m) = if j === k then erase k m else (j, w) ∷ erase k m

  -- `m.has(k)`
  unfoldable pub has : String → Dict V → Bool
  unfolding lookup
  has k m = is_some (lookup k m)

  pub lookup-insert :
      (k j : String) (v : V) (m : Dict V)
      → lookup j (insert k v m) ≡ (if k === j then some v else lookup j m)
  unfolding lookup insert
  lookup-insert k j v [] = refl
  lookup-insert k j v ((i, w) ∷ m) =
      ground (arith, ===_iff k j, ===_iff i k, ===_iff i j, lookup-insert k j v m)

  pub lookup-erase :
      (k j : String) (m : Dict V) → lookup j (erase k m) ≡ (if k === j then none else lookup j m)
  unfolding lookup erase
  lookup-erase k j [] = ground arith
  lookup-erase k j ((i, w) ∷ m) =
      ground (arith, ===_iff k j, ===_iff i k, ===_iff i j, lookup-erase k j m)

module _ {ℓ} {V : Type ℓ} where
  pub lookup-insert_self : (k : String) (v : V) (m : Dict V) → lookup k (insert k v m) ≡ some v
  lookup-insert_self k v m = simp (lookup-insert, ===_refl)

  pub lookup-insert_ne :
      (k j : String) (v : V) (m : Dict V) → k ≢ j → lookup j (insert k v m) ≡ lookup j m
  lookup-insert_ne k j v m h = ground (arith, lookup-insert k j v m, ===_iff k j)

  pub has-insert :
      (k j : String) (v : V) (m : Dict V)
      → has j (insert k v m) ≡ (if k === j then true else has j m)
  unfolding has
  has-insert k j v m = ground (arith, lookup-insert k j v m)

-- A property of every key, from its proof at `a` and elsewhere.
pub at_key {ℓ} :
    (P : String → Type ℓ) (a : String) → P a → ((b : String) → a ≢ b → P b) → (b : String) → P b
at_key P a here there b = elim (Bool-cases (a === b)) [
  | inl e ↦ rw (← (===_iff a b).0 e) here
  | inr e ↦ there b (λ p. false_of (rw e at ((===_iff a b).1 p)))
]
  where
    false_of : false ≡ true → ⊥
    false_of p = cc
