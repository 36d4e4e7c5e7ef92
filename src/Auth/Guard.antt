-- ===== src/Auth/Guard.antt =====
-- The routes behind both middlewares (api/cmd/api/main.go), and who gets through.
use tts_platform.Common.{
  ℕ, ◌≡◌, ◌≢◌, sym, ap, ◌⊎◌, inl, inr, true, false, Option, none, some, [], ◌∷◌, Bytes,
  bytes_eq_iff, arith,
}
use tts_platform.Common.Int.{ℤ}
use tts_platform.Common.Results.{ok, Result-cases}
use tts_platform.Numbers.{Numbers}
use tts_platform.Postgres.{Db}
use tts_platform.Valkey.{Valkey}
use tts_platform.Auth.Token.{Request, token_from_request}
use tts_platform.Auth.Accounts.{Crypto, resolve_api_key}
use tts_platform.Auth.Statements.{User}
use tts_platform.Auth.Middleware.{
  Verdict, pass, reply, public_paths, is_public, is_empty, admin_key_of, admin_middleware,
  bearer_middleware, limit_verdict, rate_limit_middleware,
}
use tts_platform.RateLimit.Store.{LimitsJson, Store, World}
use tts_platform.RateLimit.Limiter.{allow}

module _ (num : Numbers) (vk : Valkey) (json : LimitsJson) where
  rate_limit-pass :
      (limiter : Option Store) (unix : ℕ) (user user' : Option User) (w : World num vk)
      → (rate_limit_middleware num vk json limiter user' unix w).0 ≡ pass user
      → user' ≡ user
  unfolding rate_limit_middleware limit_verdict
  rate_limit-pass none unix user user' w h = ground arith
  rate_limit-pass (some s) unix user none w h = ground arith
  rate_limit-pass (some s) unix user (some u) w h =
      elim (Result-cases (allow num vk json s u.id unix w).0) [
        | inl ((true, retry), said) ↦ ground arith
        | inl ((false, retry), said) ↦ ground arith
        | inr (e, failed) ↦ ground arith
      ]

  rate_limit-allow :
      (s : Store) (unix : ℕ) (u u' : User) (w : World num vk)
      → (rate_limit_middleware num vk json (some s) (some u') unix w).0 ≡ pass (some u)
      → (retry : ℤ) × ((allow num vk json s u.id unix w).0 ≡ ok (true, retry))
  unfolding rate_limit_middleware limit_verdict
  rate_limit-allow s unix u u' w h = elim (Result-cases (allow num vk json s u'.id unix w).0) [
    | inl ((true, retry), said) ↦
        (retry, let e : u' ≡ u = cc (rw (said, rate_limit_middleware) at h) in rw (sym e) said)
    | inl ((false, retry), said) ↦ absurd (cc (rw (said, rate_limit_middleware) at h))
    | inr (e, failed) ↦ absurd (cc (rw (failed, rate_limit_middleware) at h))
  ]

module _ (num : Numbers) (vk : Valkey) (json : LimitsJson) (limiter : Option Store) where
  -- What the limiter does with a verdict of the middleware before it
  unfoldable pub limited : ℕ → Verdict → World num vk → Verdict × World num vk
  limited unix (pass user) w = rate_limit_middleware num vk json limiter user unix w
  limited unix (reply status body retry) w = (reply status body retry, w)

-- `pr.Use(auth.BearerMiddleware(pool))`, then `pr.Use(rateLimitMiddleware(srv.Limiter))`
unfoldable pub guard :
    (num : Numbers) (crypto : Crypto) (vk : Valkey) (json : LimitsJson)
    → Option Store
    → ℕ
    → Request
    → World num vk
    → Verdict × World num vk
unfolding limited
guard num crypto vk json limiter unix r w =
    let (v, db') = bearer_middleware num crypto r w.db in
    limited num vk json limiter unix v (record w { db = db' })

module _ (num : Numbers) (crypto : Crypto) where
  pub bearer-pass :
      (r : Request) (db : Db num) (user : Option User)
      → (bearer_middleware num crypto r db).0 ≡ pass user
      → ((user ≡ none) × (is_public r.path public_paths ≡ true))
        ⊎ ((u : User) × (user ≡ some u)
            × (is_empty (token_from_request r) ≡ false)
            × ((resolve_api_key num crypto (token_from_request r) db).0 ≡ ok u))
  unfolding bearer_middleware
  bearer-pass r db user h =
      elim (Result-cases (resolve_api_key num crypto (token_from_request r) db).0) [
        | inl (u, found) ↦ ground arith
        | inr (e, failed) ↦ ground arith
      ]

module _ (num : Numbers) (vk : Valkey) (json : LimitsJson) where
  limited-pass :
      (limiter : Option Store) (unix : ℕ) (v : Verdict) (user : Option User) (w : World num vk)
      → (limited num vk json limiter unix v w).0 ≡ pass user
      → v ≡ pass user
  unfolding limited
  limited-pass limiter unix (pass user') user w h =
      ap pass (rate_limit-pass num vk json limiter unix user user' w h)
  limited-pass limiter unix (reply status body retry) user w h = cc

  limited-allow :
      (s : Store) (unix : ℕ) (v : Verdict) (u : User) (w : World num vk)
      → (limited num vk json (some s) unix v w).0 ≡ pass (some u)
      → (retry : ℤ) × ((allow num vk json s u.id unix w).0 ≡ ok (true, retry))
  unfolding limited
  limited-allow s unix (pass (some u')) u w h = rate_limit-allow num vk json s unix u u' w h
  limited-allow s unix (pass none) u w h =
      cc (rate_limit-pass num vk json (some s) unix (some u) none w h)
  limited-allow s unix (reply status body retry) u w h = cc

-- A request that gets through both middlewares either is for a public path and has no user, or it
-- carries a token that `ResolveAPIKey` resolves to the user that the handler sees.
pub guard-pass :
    (num : Numbers) (crypto : Crypto) (vk : Valkey) (json : LimitsJson) (limiter : Option Store)
    (unix : ℕ) (r : Request) (user : Option User) (w : World num vk)
    → (guard num crypto vk json limiter unix r w).0 ≡ pass user
    → ((user ≡ none) × (is_public r.path public_paths ≡ true))
      ⊎ ((u : User) × (user ≡ some u)
          × (is_empty (token_from_request r) ≡ false)
          × ((resolve_api_key num crypto (token_from_request r) w.db).0 ≡ ok u))
unfolding guard
guard-pass num crypto vk json limiter unix r user w h = bearer-pass num crypto r w.db user (
    limited-pass num vk json limiter unix (bearer_middleware num crypto r w.db).0 user
      (record w { db = (bearer_middleware num crypto r w.db).1 }) h)

-- With a limiter, a user's request that gets through both middlewares is one that the limiter allows.
guard-allow :
    (num : Numbers) (crypto : Crypto) (vk : Valkey) (json : LimitsJson) (s : Store) (unix : ℕ)
    (r : Request) (u : User) (w : World num vk)
    → (guard num crypto vk json (some s) unix r w).0 ≡ pass (some u)
    → let w' : World num vk = record w { db = (bearer_middleware num crypto r w.db).1 } in
      (retry : ℤ) × ((allow num vk json s u.id unix w').0 ≡ ok (true, retry))
unfolding guard
guard-allow num crypto vk json s unix r u w h =
    limited-allow num vk json s unix (bearer_middleware num crypto r w.db).0 u
      (record w { db = (bearer_middleware num crypto r w.db).1 }) h

-- Only a request that carries the configured key, which is not empty, reaches the admin routes: in
-- the header X-Admin-Key, or, if that is missing, after "Bearer ".
pub admin_middleware-pass :
    (admin_key : Bytes) (r : Request) (user : Option User)
    → admin_middleware admin_key r ≡ pass user
    → (admin_key ≢ []) × (admin_key_of r ≡ admin_key)
unfolding admin_middleware
admin_middleware-pass [] r user h = cc
admin_middleware-pass (c ∷ k) r user h =
    ((λ e. cc), (bytes_eq_iff (admin_key_of r) (c ∷ k)).0 ground arith)
