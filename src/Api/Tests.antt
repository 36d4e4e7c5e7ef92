-- ===== src/Api/Tests.antt =====
-- A router that gives the first handler whose method and pattern fit, and a request for a wallet.
use tts_platform.Common.{
  ◌≡◌, refl, ap, subst, Bool, true, false, ◌&&◌, none, some, List, [], ◌∷◌, Bytes, All, length,
  drop, arith, Bool-cases, codes, Option, inl, inr, if◌then◌else◌,
}
use tts_platform.Common.Results.{ok}
use tts_platform.Numbers.Fixed.{fixed}
use tts_platform.Valkey.Memory.{memory}
use tts_platform.Auth.Token.{Request, token_from_request}
use tts_platform.Auth.Accounts.{resolve_api_key}
use tts_platform.Auth.Statements.{User}
use tts_platform.Auth.Middleware.{public_paths, is_public, admin_middleware, admin_key_of}
use tts_platform.Auth.Tests.{toy, json, limits, served, request, ann, guarded}
use tts_platform.Api.Wrappers.{
  Method, get, post, delete, put, other, registered, get_wallet, no_args, Context, handled, Binder,
  wrapper, with_scopes, serve_get_wallet,
}
use tts_platform.Api.Router.{
  literal_part, fits, Routed, found, no_route, Router, dispatch, routed, serve_api,
}
use tts_platform.Api.Root.{admin_get, entries, called, refused, behind, serve_page, serve_root}
use tts_platform.Api.Closed.{IsEntitled, serve_root-Entitled}
use tts_platform.Api.Protected.{serve_api-protected}

abbrev same_method : Method → Method → Bool
same_method get get = true
same_method post post = true
same_method delete delete = true
same_method put put = true
same_method other other = true
same_method _ _ = false

same_method_sound : (m n : Method) → same_method m n ≡ true → m ≡ n
same_method_sound get n h = ground arith
same_method_sound post n h = ground arith
same_method_sound delete n h = ground arith
same_method_sound put n h = ground arith
same_method_sound other n h = ground arith

module _ {A : Type 0} (reg : A → Method × Bytes) (m : Method) (path : Bytes) where
  first_fit : List A → Routed A
  first_fit [] = no_route
  first_fit (a ∷ all) =
      let rest = first_fit all in
      if same_method (reg a).0 m && fits (reg a).1 path
      then found a (drop (length (literal_part (reg a).1)) path)
      else rest

  first_fit-fits :
      (all : List A) (a : A) (param : Bytes)
      → first_fit all ≡ found a param
      → ((reg a).0 ≡ m) × (fits (reg a).1 path ≡ true)
  unfolding first_fit
  first_fit-fits [] a param h = absurd (cc h)
  first_fit-fits (b ∷ all) a param h =
      elim (Bool-cases (same_method (reg b).0 m && fits (reg b).1 path)) [
        | inl yes_ ↦
            let e : b ≡ a = cc (rw (yes_, first_fit) at h) in
            subst (λ x. ((reg x).0 ≡ m) × (fits (reg x).1 path ≡ true)) e
              (same_method_sound (reg b).0 m (ground arith), ground arith)
        | inr no_ ↦ first_fit-fits all a param (rw (no_, first_fit) at h)
      ]

  first_fit-All :
      (P : A → Type 0) (all : List A) (a : A) (param : Bytes)
      → first_fit all ≡ found a param
      → All P all
      → P a
  unfolding first_fit
  first_fit-All P [] a param h hs = absurd (cc h)
  first_fit-All P (b ∷ all) a param h (hb, hs) =
      elim (Bool-cases (same_method (reg b).0 m && fits (reg b).1 path)) [
        | inl yes_ ↦ subst P (cc (rw (yes_, first_fit) at h)) hb
        | inr no_ ↦ first_fit-All P all a param (rw (no_, first_fit) at h) hs
      ]

abbrev mux : Router
mux = record {
  route = λ reg all m path. first_fit reg m path all;
  route-fits = λ reg all m path. first_fit-fits reg m path all;
  route-All = λ reg P all m path. first_fit-All reg m path P all;
}

abbrev lenient : Binder
lenient = record { uuid = λ name text. ok text; integer = λ name query. ok none }

abbrev no_query : Bytes → List Bytes
no_query name = []

abbrev with_ann : Context
with_ann = record { user = some ann; scopes = some [] }

handled_wallet :
    (serve_api mux lenient fixed toy memory json (some limits) 60 get request no_query served).0
    ≡ handled get_wallet no_args with_ann
unfolding serve_api routed dispatch registered wrapper serve_get_wallet with_scopes first_fit
handled_wallet = ap (λ v. routed mux lenient get request.path no_query v) guarded

serve_api-protected_example :
    (u : User) × (◌≡◌ {A = Option User} (some ann) (some u))
    × (◌≡◌ {A = Option (List Bytes)} (some []) (some []))
    × ((resolve_api_key fixed toy (token_from_request request) served.db).0 ≡ ok u)
    × (is_public request.path public_paths ≡ false)
serve_api-protected_example =
    serve_api-protected mux lenient fixed toy memory json (some limits) 60 get request no_query
      served get_wallet no_args with_ann handled_wallet refl

abbrev for_admin : Request
for_admin = record request { path = codes "/v1/admin/users/u1/rate-limit"; admin_key = codes "k" }

handled_admin :
    (serve_root mux lenient fixed toy memory json
      (codes "k")
      (some limits)
      60
      get
      for_admin
      no_query
      served).0
    ≡ called admin_get (codes "u1/rate-limit") none
unfolding serve_root serve_page entries behind admin_middleware admin_key_of first_fit
handled_admin = refl

serve_root-Entitled_example :
    IsEntitled fixed toy memory (codes "k") admin_get for_admin none served
serve_root-Entitled_example =
    serve_root-Entitled mux lenient fixed toy memory json (codes "k") (some limits) 60 get for_admin
      no_query served admin_get (codes "u1/rate-limit") none handled_admin

-- A path below /v1/admin that no handler is registered for
off_path : Request
off_path = record for_admin { path = codes "/v1/admin/users"; admin_key = [] }

off_path_refused :
    (serve_root mux lenient fixed toy memory json
      (codes "k")
      (some limits)
      60
      get
      off_path
      no_query
      served).0
    ≡ refused 401 (codes "unauthorized") none
unfolding serve_root serve_page entries behind admin_middleware admin_key_of first_fit off_path
off_path_refused = refl
