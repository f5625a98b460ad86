-- ===== src/StackFood/Auth.antt =====
-- The customers' tokens (shared/stackfood-client/src/auth.ts). The vault's password and the e-mail are
-- in the two `fetch`es, of `POST /auth/login` and `POST /auth/register`.
use nzela.Base.{
  ◌≡◌, refl, ap, sym, ◌∙◌, Bool, false, none, some, String, if◌then◌else◌, ltb, truthy, arith, inl,
  inr, Option-cases, ◌≢◌, ===_iff,
}
use nzela.Base.Result.{Result, ok, err, ok_inj}
use nzela.Dict.{Dict, lookup, insert, erase, lookup-insert_self}
use nzela.StackFood.{FetchResult, Failure, stack_food_http_error, unreachable, request}
use Prim.Native.String.{◌++◌}

-- `tokenCacheKey`
unfoldable token_cache_key : String → String
token_cache_key wa = "token:cust:" ++ wa

-- `err instanceof StackFoodHttpError && err.status < 500`
unfoldable is_client_error : Failure → Bool
is_client_error (stack_food_http_error status) = ltb status 500
is_client_error unreachable = false

-- The token cache, and the world behind the network.
pub record AuthState (W : Type 0) : Type 0 where
  pub cache : Dict String
  pub world : W

module _ {W : Type 0} (login : String → W → W × FetchResult String)
    (register : String → W → W × FetchResult (Unit {0})) where
  -- `login` and `register` are requests.
  unfoldable register_then_login : W → String → W × Result Failure String
  unfolding request
  register_then_login w wa =
      let registered = request (register wa) w in
      let again = request (login wa) registered.world in
      elim registered.result [
        | err e ↦ (registered.world, err e)
        | ok u ↦ (again.world, again.result)
      ]

  unfoldable fresh_token : W → String → W × Result Failure String
  unfolding request is_client_error register_then_login
  fresh_token w wa =
      let first = request (login wa) w in
      elim first.result [
        | ok token ↦ (first.world, ok token)
        | err e ↦
            if is_client_error e then register_then_login first.world wa else (first.world, err e)
      ]

  -- `cache.set`, when there is a token.
  unfoldable remember :
      AuthState W → String → W × Result Failure String → AuthState W × Result Failure String
  unfolding token_cache_key
  remember a wa (w, ok token) =
      (record { cache = insert (token_cache_key wa) token a.cache; world = w }, ok token)
  remember a wa (w, err e) = (record a { world = w }, err e)

  -- `CustomerAuthProvisioner.tokenFor`
  unfoldable pub token_for : AuthState W → String → AuthState W × Result Failure String
  unfolding fresh_token remember token_cache_key truthy
  token_for a wa = elim (truthy (lookup (token_cache_key wa) a.cache)) [
    | some cached ↦ (a, ok cached)
    | none ↦ remember a wa (fresh_token a.world wa)
  ]

  -- `CustomerAuthProvisioner.invalidate`
  unfoldable invalidate : AuthState W → String → AuthState W
  unfolding token_cache_key
  invalidate a wa = record a { cache = erase (token_cache_key wa) a.cache }

  truthy-text : (t : String) → t ≢ "" → truthy (some t) ≡ some t
  unfolding truthy
  truthy-text t h = ground (arith, ===_iff t "")

  remembered :
      (a : AuthState W) (wa : String) (r : W × Result Failure String) (t : String)
      → (remember a wa r).1 ≡ ok t
      → lookup (token_cache_key wa) (remember a wa r).0.cache ≡ some t
  unfolding remember
  remembered a wa (w, ok token) t h =
      lookup-insert_self (token_cache_key wa) token a.cache ∙ ap some (ok_inj h)
  remembered a wa (w, err e) t h = cc

  cached-token_for :
      (a : AuthState W) (wa t : String)
      → truthy (lookup (token_cache_key wa) a.cache) ≡ some t
      → token_for a wa ≡ (a, ok t)
  unfolding token_for
  cached-token_for a wa t e = rw (token_for, e) refl

  fresh-token_for :
      (a : AuthState W) (wa : String)
      → truthy (lookup (token_cache_key wa) a.cache) ≡ none
      → token_for a wa ≡ remember a wa (fresh_token a.world wa)
  unfolding token_for
  fresh-token_for a wa e = rw (token_for, e) refl

  -- A token that was given, when it is not empty, is given again without a request: the second call
  -- leaves the cache and the world as they are.
  token_for-again :
      (a : AuthState W) (wa t : String)
      → (token_for a wa).1 ≡ ok t
      → t ≢ ""
      → token_for (token_for a wa).0 wa ≡ ((token_for a wa).0, ok t)
  token_for-again a wa t h full =
      elim (Option-cases (truthy (lookup (token_cache_key wa) a.cache))) [
        | inr (c, e) ↦
            let given = cached-token_for a wa c e in
            let same : c ≡ t = ok_inj (sym (ap (λ r. r.1) given) ∙ h) in
            rw given (given ∙ ap (λ x. (a, ok x)) same)
        | inl e ↦
            let given = fresh-token_for a wa e in
            let stored =
              remembered a wa (fresh_token a.world wa) t (sym (ap (λ r. r.1) given) ∙ h) in
            rw given (
              cached-token_for (remember a wa (fresh_token a.world wa)).0 wa t
                (ap truthy stored ∙ truthy-text t full))
      ]
