-- ===== src/Sentinelle/Limiter.antt =====
-- The fixed-window rate limiter (shared/security/src/threat.ts). Times are in milliseconds.
use nzela.Base.{
  ℕ, ◌+◌, ◌-◌, ◌≤◌, ◌<◌, ◌≡◌, ◌≢◌, refl, inl, inr, sym, ap, subst, ◌∙◌, Bool, true, false, none,
  some, List, [], ◌∷◌, String, arith, if◌then◌else◌, leb, ◌===◌, ===_iff, ===_refl, All, Bool-cases,
  Option-cases,
}
use nzela.Dict.{Dict, lookup, insert, lookup-insert_self, lookup-insert_ne}

pub record Hits : Type 0 where
  pub count : ℕ
  pub window_start : ℕ

pub record RateLimiter : Type 0 where
  pub hits : Dict Hits
  pub limit : ℕ
  pub window_ms : ℕ

unfoldable pub restart : RateLimiter → String → ℕ → RateLimiter
restart r key now = record r { hits = insert key (record { count = 1; window_start = now }) r.hits }

unfoldable hit_again : RateLimiter → String → Hits → RateLimiter × Bool
hit_again r key h = (
  record r { hits = insert key (record h { count = h.count + 1 }) r.hits },
  leb (h.count + 1) r.limit,
)

-- `RateLimiter.allow`
unfoldable pub allow : RateLimiter → String → ℕ → RateLimiter × Bool
unfolding restart hit_again
allow r key now = elim (lookup key r.hits) [
  | none ↦ (restart r key now, true)
  | some h ↦
      if leb (h.window_start + r.window_ms) now
      then (restart r key now, true)
      else hit_again r key h
]

-- `RateLimiter.count`
unfoldable pub count : RateLimiter → String → ℕ
count r key = elim (lookup key r.hits) [ none ↦ 0 | some h ↦ h.count ]

-- How many of the calls, each with its key and time, are of `key` and allowed.
unfoldable pub allowed : RateLimiter → String → List (String × ℕ) → ℕ
unfolding allow
allowed r key [] = 0
allowed r key ((k, now) ∷ calls) =
    let (r', granted) = allow r k now in
    let rest = allowed r' key calls in
    if k === key then (if granted then 1 + rest else rest) else rest

-- How many calls are of `key`.
unfoldable pub calls_of : String → List (String × ℕ) → ℕ
calls_of key [] = 0
calls_of key ((k, now) ∷ calls) =
    let rest = calls_of key calls in if k === key then 1 + rest else rest

abbrev pub min_count : ℕ → ℕ → ℕ
min_count a b = if leb a b then a else b

-- A call of another key leaves the entry of `key`, and no call changes the limits.
allow-other :
    (r : RateLimiter) (k key : String) (now : ℕ)
    → k ≢ key
    → lookup key (allow r k now).0.hits ≡ lookup key r.hits
unfolding allow restart hit_again
allow-other r k key now ne = elim (Option-cases (lookup k r.hits)) [
  | inl e ↦ rw (allow, e) (lookup-insert_ne k key _ r.hits ne)
  | inr (h, e) ↦ elim (Bool-cases (leb (h.window_start + r.window_ms) now)) [
    | inl b ↦ rw (allow, e, b) (lookup-insert_ne k key _ r.hits ne)
    | inr b ↦ rw (allow, e, b) (lookup-insert_ne k key _ r.hits ne)
  ]
]

allow-limits :
    (r : RateLimiter) (k : String) (now : ℕ)
    → ((allow r k now).0.limit ≡ r.limit) × ((allow r k now).0.window_ms ≡ r.window_ms)
unfolding allow restart hit_again
allow-limits r k now = (ground arith, ground arith)

-- A call in the window of its key's entry.
allow-early :
    (r : RateLimiter) (key : String) (now : ℕ) (h : Hits)
    → lookup key r.hits ≡ some h
    → now < h.window_start + r.window_ms
    → allow r key now ≡ hit_again r key h
unfolding allow
allow-early r key now h e early = ground arith

-- In the window of an entry, the calls of its key are allowed up to the limit.
within_window :
    (calls : List (String × ℕ)) (r : RateLimiter) (key : String) (h : Hits)
    → lookup key r.hits ≡ some h
    → All (λ c. c.1 < h.window_start + r.window_ms) calls
    → allowed r key calls ≡ min_count (calls_of key calls) (r.limit - h.count)
unfolding allowed calls_of
within_window [] r key h e early = ground arith
within_window ((k, now) ∷ calls) r key h e (soon, early) = elim (Bool-cases (k === key)) [
  | inl same ↦
      let eq = (===_iff k key).0 same in
      let now_eq = ap (λ j. allow r j now) eq ∙ allow-early r key now h e soon in
      let rest =
        within_window calls (hit_again r key h).0 key (record h { count = h.count + 1 })
          (lookup-insert_self key _ r.hits) early in
      rw (same, now_eq)
        (one_more (calls_of key calls) (allowed (hit_again r key h).0 key calls) h.count r.limit
          rest)
  | inr other ↦
      let ne = λ (q : k ≡ key). not_same k key other q in
      let limits = allow-limits r k now in
      let early' =
        subst (λ w. All (λ (c : String × ℕ). c.1 < h.window_start + w) calls) (sym limits.1)
          early in
      rw other (
        within_window calls (allow r k now).0 key h (allow-other r k key now ne ∙ e) early'
        ∙ ap (λ n. min_count (calls_of key calls) (n - h.count)) limits.0)
]
  where
    one_more :
        (n a c l : ℕ)
        → a ≡ min_count n (l - (c + 1))
        → (if leb (c + 1) l then 1 + a else a) ≡ min_count (1 + n) (l - c)
    one_more n a c l h = ground arith

    not_same : (k key : String) → (k === key) ≡ false → k ≡ key → ⊥
    not_same k key h q = ground (arith, ===_iff k key)

-- From a call that opens a window (the key has no entry, or one whose window is over), and as long as
-- the window lasts, the calls of the key that are allowed are as many as were made, up to the limit
-- (but the first is allowed even at the limit 0), whatever calls of other keys come between.
pub allowed_in_window :
    (calls : List (String × ℕ)) (r : RateLimiter) (key : String) (now : ℕ)
    → ((h : Hits) → lookup key r.hits ≡ some h → h.window_start + r.window_ms ≤ now)
    → All (λ c. c.1 < now + r.window_ms) calls
    → allowed r key ((key, now) ∷ calls) ≡ 1 + min_count (calls_of key calls) (r.limit - 1)
unfolding allowed restart
allowed_in_window calls r key now over early =
    let opened = opens r key now over in
    rw (===_refl key, opened)
      (ap (λ n. 1 + n)
        (within_window calls (restart r key now) key (record { count = 1; window_start = now })
          (lookup-insert_self key _ r.hits) early))
  where
    opens :
        (r : RateLimiter) (key : String) (now : ℕ)
        → ((h : Hits) → lookup key r.hits ≡ some h → h.window_start + r.window_ms ≤ now)
        → allow r key now ≡ (restart r key now, true)
    opens r key now over = elim (Option-cases (lookup key r.hits)) [
      | inl e ↦ rw (allow, e) refl
      | inr (h, e) ↦ let late = over h e in ground arith
    ]
