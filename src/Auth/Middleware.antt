-- ===== src/Auth/Middleware.antt =====
-- The middlewares in front of the handlers: `BearerMiddleware` (api/internal/auth/middleware.go),
-- `AdminMiddleware` (api/internal/handler/rate_limit.go) and `rateLimitMiddleware`
-- (api/cmd/api/main.go). A middleware passes a request on, with the user it found, or answers it.
use tts_platform.Common.{
  ℕ, Bool, true, false, ◌||◌, Option, none, some, List, [], ◌∷◌, Bytes, codes, bytes_eq, drop,
  has_prefix, if◌then◌else◌,
}
use tts_platform.Common.Int.{ℤ}
use tts_platform.Common.Results.{Result, ok, err}
use tts_platform.Numbers.{Numbers}
use tts_platform.Postgres.{Db}
use tts_platform.Valkey.{Valkey}
use tts_platform.Auth.Token.{Request, token_from_request, bearer}
use tts_platform.Auth.Accounts.{Crypto, resolve_api_key}
use tts_platform.Auth.Statements.{User}
use tts_platform.RateLimit.Store.{LimitsJson, Store}
use tts_platform.RateLimit.Limiter.{allow, retry_after_header}

-- What becomes of a request: the next handler with the context's user, or a status with a text and
-- the Retry-After header.
pub data Verdict : Type 0 where
  pass : Option User → Verdict
  reply : ℕ → Bytes → Option Bytes → Verdict

abbrev pub public_paths : List Bytes
public_paths =
    codes "/health"
    ∷ codes "/v1/auth/register"
    ∷ codes "/v1/auth/login"
    ∷ codes "/v1/auth/logout"
    ∷ []

unfoldable pub is_public : Bytes → List Bytes → Bool
is_public path [] = false
is_public path (p ∷ ps) = bytes_eq path p || is_public path ps

abbrev pub unauthorized_json : Verdict
unauthorized_json = reply 401 (codes "{\"error\":\"unauthorized\"}") none

abbrev pub is_empty : Bytes → Bool
is_empty [] = true
is_empty (c ∷ s) = false

unfoldable pub admin_key_of : Request → Bytes
admin_key_of r =
    if is_empty r.admin_key
    then (if has_prefix r.authorization bearer then drop 7 r.authorization else [])
    else r.admin_key

-- `AdminMiddleware`
unfoldable pub admin_middleware : Bytes → Request → Verdict
unfolding admin_key_of
admin_middleware admin_key r =
    if is_empty admin_key
    then reply 501 (codes "admin API not configured") none
    else if bytes_eq (admin_key_of r) admin_key
    then pass none
    else reply 401 (codes "unauthorized") none

module _ (num : Numbers) (crypto : Crypto) where
  unfoldable pub bearer_middleware : Request → Db num → Verdict × Db num
  unfolding is_public
  bearer_middleware r db =
      if is_public r.path public_paths
      then (pass none, db)
      else if is_empty (token_from_request r)
      then (unauthorized_json, db)
      else (let (resolved, db') = resolve_api_key num crypto (token_from_request r) db in
          (elim resolved [ err e ↦ unauthorized_json | ok u ↦ pass (some u) ], db'))

module _ (num : Numbers) (vk : Valkey) (json : LimitsJson) where
  -- What `rateLimitMiddleware` makes of the limiter's answer
  unfoldable pub limit_verdict : User → Result (Bool × ℤ) → Verdict
  limit_verdict u (err e) = reply 500 (codes "rate limit error") none
  limit_verdict u (ok (true, retry)) = pass (some u)
  limit_verdict u (ok (false, retry)) =
      reply 429 (codes "rate limited") (some (retry_after_header retry))

  -- `limiter` is `none` for a nil limiter, and else its store.
  unfoldable pub rate_limit_middleware :
      Option Store
      → Option User
      → ℕ
      → tts_platform.RateLimit.Store.World num vk
      → Verdict × tts_platform.RateLimit.Store.World num vk
  unfolding limit_verdict
  rate_limit_middleware none user unix w = (pass user, w)
  rate_limit_middleware (some s) none unix w = (pass none, w)
  rate_limit_middleware (some s) (some u) unix w =
      let (r, w') = allow num vk json s u.id unix w in (limit_verdict u r, w')
