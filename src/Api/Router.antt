-- ===== src/Api/Router.antt =====
-- The group of routes behind both middlewares (api/cmd/api/main.go): the router, which is chi's, finds
-- the operation of a request that they let through.
use tts_platform.Common.{
  ℕ, ◌≡◌, refl, ◌⊎◌, inl, inr, Bool, true, false, ◌||◌, Option, none, List, [], ◌∷◌, Bytes, All,
  ◌==◌, bytes_eq, has_prefix, if◌then◌else◌,
}
use tts_platform.Numbers.{Numbers}
use tts_platform.Valkey.{Valkey}
use tts_platform.Auth.Token.{Request}
use tts_platform.Auth.Accounts.{Crypto}
use tts_platform.Auth.Statements.{User}
use tts_platform.Auth.Middleware.{Verdict, pass, reply}
use tts_platform.Auth.Guard.{guard}
use tts_platform.RateLimit.Store.{LimitsJson, Store, World}
use tts_platform.Api.Wrappers.{
  Method, operations, registered, Served, answered, unrouted, Binder, wrapper,
}

-- The part of a pattern before its first parameter or its star
abbrev pub is_wild : ℕ → Bool
is_wild c = (c == 123) || (c == 42)

abbrev pub literal_part : Bytes → Bytes
literal_part [] = []
literal_part (c ∷ cs) = if is_wild c then [] else c ∷ literal_part cs

abbrev pub has_param : Bytes → Bool
has_param [] = false
has_param (c ∷ cs) = if is_wild c then true else has_param cs

-- A path that a pattern may match: the pattern itself, or with parameters or a star one that begins as it does
abbrev pub fits : Bytes → Bytes → Bool
fits pattern path =
    if has_param pattern then has_prefix path (literal_part pattern) else bytes_eq path pattern

pub data Routed (A : Type 0) : Type 0 where
  found : A → Bytes → Routed A
  no_route : Routed A

pub Routed-cases :
    {A : Type 0} (r : Routed A) → ((a : A) × (param : Bytes) × (r ≡ found a param)) ⊎ (r ≡ no_route)
Routed-cases (found a param) = inl (a, param, refl)
Routed-cases no_route = inr refl

-- chi's router, for handlers that are registered with a method and a pattern: it gives the handler and
-- the text of the path's parameter. A handler that it gives is one of those that are registered, for the
-- method, and with a pattern that fits the path.
pub record Router : Type 1 where
  pub route : {A : Type 0} → (A → Method × Bytes) → List A → Method → Bytes → Routed A
  pub route-fits :
      {A : Type 0} (reg : A → Method × Bytes) (all : List A) (m : Method) (path : Bytes) (a : A)
      (param : Bytes)
      → route reg all m path ≡ found a param
      → ((reg a).0 ≡ m) × (fits (reg a).1 path ≡ true)
  pub route-All :
      {A : Type 0} (reg : A → Method × Bytes) (P : A → Type 0) (all : List A) (m : Method)
      (path : Bytes) (a : A) (param : Bytes)
      → route reg all m path ≡ found a param
      → All P all
      → P a

module _ (router : Router) (binder : Binder) where
  unfoldable pub dispatch : Method → Bytes → (Bytes → List Bytes) → Option User → Served
  unfolding wrapper
  dispatch m path query user = elim (router.route registered operations m path) [
    | no_route ↦ unrouted
    | found op param ↦
        wrapper binder op (record { param = param; query = query })
          (record { user = user; scopes = none })
  ]

  -- What the routes do with a verdict of the middlewares
  unfoldable pub routed : Method → Bytes → (Bytes → List Bytes) → Verdict → Served
  unfolding dispatch
  routed m path query (pass user) = dispatch m path query user
  routed m path query (reply status body retry) = answered status body retry

  unfoldable pub serve_api :
      (num : Numbers) (crypto : Crypto) (vk : Valkey) (json : LimitsJson)
      → Option Store
      → ℕ
      → Method
      → Request
      → (Bytes → List Bytes)
      → World num vk
      → Served × World num vk
  unfolding routed
  serve_api num crypto vk json limiter unix m r query w =
      let (v, w') = guard num crypto vk json limiter unix r w in (routed m r.path query v, w')
