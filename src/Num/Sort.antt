-- ===== src/Num/Sort.antt =====
-- `xs.sort((a, b) => key(a) - key(b))`: a stable sort, at keys that are not `NaN`.
use nzela.Base.{◌≡◌, inl, inr, true, false, List, [], ◌∷◌, arith, All, Bool-cases, if◌then◌else◌}
use nzela.Num.{Num, is_nan, ◌<ₙ◌}
use mathlib.Core.List.{Perm}
use mathlib.Core.List.Perm

lt_asymm : (x y : Num) → (x <ₙ y) ≡ true → (y <ₙ x) ≡ false
unfolding ◌<ₙ◌
lt_asymm x y h = ground arith

not-lt_trans :
    (x y z : Num)
    → is_nan x ≡ false
    → is_nan y ≡ false
    → is_nan z ≡ false
    → (y <ₙ x) ≡ false
    → (z <ₙ y) ≡ false
    → (z <ₙ x) ≡ false
unfolding ◌<ₙ◌ is_nan
not-lt_trans x y z nx ny nz p q = ground arith

module _ {A : Type 0} (key : A → Num) where
  unfoldable insert_by : A → List A → List A
  insert_by x [] = x ∷ []
  insert_by x (y ∷ ys) = if key y <ₙ key x then y ∷ insert_by x ys else x ∷ y ∷ ys

  unfoldable pub sort_by : List A → List A
  unfolding insert_by
  sort_by [] = []
  sort_by (x ∷ xs) = insert_by x (sort_by xs)

  -- No element is above a later one.
  abbrev pub IsSortedBy : List A → Type 0
  IsSortedBy [] = Unit
  IsSortedBy (x ∷ xs) = All (λ y. (key y <ₙ key x) ≡ false) xs × IsSortedBy xs

  insert_by-perm : (x : A) (ys : List A) → Perm (insert_by x ys) (x ∷ ys)
  unfolding insert_by
  insert_by-perm x [] = Perm.refl (x ∷ [])
  insert_by-perm x (y ∷ ys) = elim (Bool-cases (key y <ₙ key x)) [
    | inl e ↦ rw e (Perm.trans (Perm.cons y (insert_by-perm x ys)) (Perm.swap x y ys))
    | inr e ↦ rw e (Perm.refl (x ∷ y ∷ ys))
  ]

  pub sort_by-perm : (xs : List A) → Perm (sort_by xs) xs
  unfolding sort_by
  sort_by-perm [] = Perm.refl []
  sort_by-perm (x ∷ xs) = Perm.trans (insert_by-perm x (sort_by xs)) (Perm.cons x (sort_by-perm xs))

  All-insert_by : (P : A → Type 0) (x : A) (ys : List A) → P x → All P ys → All P (insert_by x ys)
  unfolding insert_by
  All-insert_by P x [] p a = (p, tt)
  All-insert_by P x (y ∷ ys) p a = elim (Bool-cases (key y <ₙ key x)) [
    | inl e ↦ rw e (a.0, All-insert_by P x ys p a.1)
    | inr e ↦ rw e (p, a)
  ]

  pub All-sort_by : (P : A → Type 0) (xs : List A) → All P xs → All P (sort_by xs)
  unfolding sort_by
  All-sort_by P [] a = a
  All-sort_by P (x ∷ xs) a = All-insert_by P x (sort_by xs) a.0 (All-sort_by P xs a.1)

  All-of_insert_by :
      (P : A → Type 0) (x : A) (ys : List A) → All P (insert_by x ys) → P x × All P ys
  unfolding insert_by
  All-of_insert_by P x [] a = a
  All-of_insert_by P x (y ∷ ys) a = elim (Bool-cases (key y <ₙ key x)) [
    | inl e ↦
        let (py, rest) = split e a in
        let (px, pys) = All-of_insert_by P x ys rest in (px, (py, pys))
    | inr e ↦ keep_order e a
  ]
    where
      split : (key y <ₙ key x) ≡ true → All P (insert_by x (y ∷ ys)) → P y × All P (insert_by x ys)
      split e b = rw e at b

      keep_order : (key y <ₙ key x) ≡ false → All P (insert_by x (y ∷ ys)) → P x × All P (y ∷ ys)
      keep_order e b = rw e at b

  pub All-of_sort_by : (P : A → Type 0) (xs : List A) → All P (sort_by xs) → All P xs
  unfolding sort_by
  All-of_sort_by P [] a = tt
  All-of_sort_by P (x ∷ xs) a =
      let (px, rest) = All-of_insert_by P x (sort_by xs) a in (px, All-of_sort_by P xs rest)

  insert_by-IsSortedBy :
      (x : A) (ys : List A)
      → is_nan (key x) ≡ false
      → All (λ y. is_nan (key y) ≡ false) ys
      → IsSortedBy ys
      → IsSortedBy (insert_by x ys)
  unfolding insert_by
  insert_by-IsSortedBy x [] n a s = (tt, tt)
  insert_by-IsSortedBy x (y ∷ ys) n a s = elim (Bool-cases (key y <ₙ key x)) [
    | inl e ↦ rw e (
      All-insert_by (λ z. (key z <ₙ key y) ≡ false) x ys (lt_asymm (key y) (key x) e) s.0,
      insert_by-IsSortedBy x ys n a.1 s.1,
    )
    | inr e ↦ rw e ((e, above ys a.0 a.1 e s.0), s)
  ]
    where
      above :
          (zs : List A)
          → is_nan (key y) ≡ false
          → All (λ z. is_nan (key z) ≡ false) zs
          → (key y <ₙ key x) ≡ false
          → All (λ z. (key z <ₙ key y) ≡ false) zs
          → All (λ z. (key z <ₙ key x) ≡ false) zs
      above [] ny nz e s = tt
      above (z ∷ zs) ny nz e s =
          (not-lt_trans (key x) (key y) (key z) n ny nz.0 e s.0, above zs ny nz.1 e s.1)

  pub sort_by-IsSortedBy :
      (xs : List A) → All (λ x. is_nan (key x) ≡ false) xs → IsSortedBy (sort_by xs)
  unfolding sort_by
  sort_by-IsSortedBy [] a = tt
  sort_by-IsSortedBy (x ∷ xs) a =
      insert_by-IsSortedBy x (sort_by xs) a.0 (All-sort_by (λ y. is_nan (key y) ≡ false) xs a.1)
        (sort_by-IsSortedBy xs a.1)
