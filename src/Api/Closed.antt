-- ===== src/Api/Closed.antt =====
-- Which handlers of the routes are for some only.
use tts_platform.Common.{
  ℕ, ◌≡◌, ◌≢◌, sym, subst, ◌∙◌, inl, inr, true, Option, none, some, List, [], Bytes, All, arith,
}
use tts_platform.Common.Results.{ok}
use tts_platform.Numbers.{Numbers}
use tts_platform.Valkey.{Valkey}
use tts_platform.Auth.Token.{Request, token_from_request}
use tts_platform.Auth.Accounts.{Crypto, resolve_api_key}
use tts_platform.Auth.Statements.{User}
use tts_platform.Auth.Middleware.{
  Verdict, pass, reply, public_paths, admin_key_of, admin_middleware, bearer_middleware,
}
use tts_platform.Auth.Guard.{admin_middleware-pass, bearer-pass}
use tts_platform.RateLimit.Store.{LimitsJson, Store, World}
use tts_platform.Api.Wrappers.{Method, Binder}
use tts_platform.Api.Router.{fits, Routed-cases, Router}
use tts_platform.Api.Protected.{FitsNone, fits-private}
use tts_platform.Api.Root.{
  Page, admin_get, admin_set, admin_delete, admin_none, ui, account, api, Entry, entries, called,
  behind, serve_page, serve_root,
}

-- The pattern of a route to the account's caps fits no public path.
abbrev IsHidden : Page → Bytes → Type 0
IsHidden account pattern = FitsNone pattern public_paths
IsHidden _ pattern = Unit {0}

entries-IsHidden : All (λ (e : Entry). IsHidden e.page e.pattern) entries
unfolding entries
entries-IsHidden = ground arith

-- What a handler that is called shows of the request
abbrev pub IsEntitled :
    (num : Numbers) (crypto : Crypto) (vk : Valkey) (admin_key : Bytes)
    → Page
    → Request
    → Option User
    → World num vk
    → Type 0
IsEntitled num crypto vk admin_key admin_get r user w =
    (admin_key ≢ []) × (admin_key_of r ≡ admin_key)
IsEntitled num crypto vk admin_key admin_set r user w =
    (admin_key ≢ []) × (admin_key_of r ≡ admin_key)
IsEntitled num crypto vk admin_key admin_delete r user w =
    (admin_key ≢ []) × (admin_key_of r ≡ admin_key)
IsEntitled num crypto vk admin_key admin_none r user w =
    (admin_key ≢ []) × (admin_key_of r ≡ admin_key)
IsEntitled num crypto vk admin_key account r user w =
    (u : User) × (user ≡ some u)
    × ((resolve_api_key num crypto (token_from_request r) w.db).0 ≡ ok u)
IsEntitled num crypto vk admin_key page r user w = user ≡ none

behind-called :
    (page page' : Page) (param param' : Bytes) (v : Verdict) (user : Option User)
    → behind page param v ≡ called page' param' user
    → (page' ≡ page) × (v ≡ pass user)
unfolding behind
behind-called page page' param param' (pass user') user h = (cc h, cc h)
behind-called page page' param param' (reply status body retry) user h = absurd (cc h)

behind-Entitled :
    (num : Numbers) (crypto : Crypto) (vk : Valkey) (admin_key : Bytes) (page page' : Page)
    (param param' : Bytes) (r : Request) (user : Option User) (w : World num vk)
    → ((u : Option User)
        → admin_middleware admin_key r ≡ pass u
        → IsEntitled num crypto vk admin_key page r u w)
    → behind page param (admin_middleware admin_key r) ≡ called page' param' user
    → IsEntitled num crypto vk admin_key page' r user w
behind-Entitled num crypto vk admin_key page page' param param' r user w passing h =
    let (same, passed) =
      behind-called page page' param param' (admin_middleware admin_key r) user h in
    subst (λ p. IsEntitled num crypto vk admin_key p r user w) (sym same) (passing user passed)

open-called :
    (page page' : Page) (param param' : Bytes) (user : Option User)
    → called page param none ≡ called page' param' user
    → (page' ≡ page) × (user ≡ none)
open-called page page' param param' user h = (cc h, cc h)

module _ (router : Router) (binder : Binder) (num : Numbers) (crypto : Crypto) (vk : Valkey)
    (json : LimitsJson) (admin_key : Bytes) (limiter : Option Store) (unix : ℕ) where
  serve_page-Entitled :
      (page page' : Page) (param param' : Bytes) (m : Method) (r : Request)
      (query : Bytes → List Bytes) (w : World num vk) (user : Option User) (pattern : Bytes)
      → IsHidden page pattern
      → fits pattern r.path ≡ true
      → (serve_page router binder num crypto vk json admin_key limiter unix page param m r query
          w).0
        ≡ called page' param' user
      → IsEntitled num crypto vk admin_key page' r user w
  unfolding serve_page
  serve_page-Entitled admin_get page' param param' m r query w user pattern hidden it_fits h =
      behind-Entitled num crypto vk admin_key admin_get page' param param' r user w
        (admin_middleware-pass admin_key r) h
  serve_page-Entitled admin_set page' param param' m r query w user pattern hidden it_fits h =
      behind-Entitled num crypto vk admin_key admin_set page' param param' r user w
        (admin_middleware-pass admin_key r) h
  serve_page-Entitled admin_delete page' param param' m r query w user pattern hidden it_fits h =
      behind-Entitled num crypto vk admin_key admin_delete page' param param' r user w
        (admin_middleware-pass admin_key r) h
  serve_page-Entitled admin_none page' param param' m r query w user pattern hidden it_fits h =
      behind-Entitled num crypto vk admin_key admin_none page' param param' r user w
        (admin_middleware-pass admin_key r) h
  serve_page-Entitled account page' param param' m r query w user pattern hidden it_fits h =
      let (same, passed) =
        behind-called account page' param param' (bearer_middleware num crypto r w.db).0 user h in
      subst (λ p. IsEntitled num crypto vk admin_key p r user w) (sym same)
        (elim (bearer-pass num crypto r w.db user passed) [
          | inl (nobody, open_path) ↦
              absurd (cc (sym open_path ∙ fits-private pattern r.path public_paths hidden it_fits))
          | inr (u, someone, token, resolved) ↦ (u, someone, resolved)
        ])
  serve_page-Entitled api page' param param' m r query w user pattern hidden it_fits h =
      absurd (cc h)
  serve_page-Entitled page page' param param' m r query w user pattern hidden it_fits h =
      let (same, nobody) = open-called page page' param param' user h in
      subst (λ p. IsEntitled num crypto vk admin_key p r user w) (sym same) nobody

  -- Whatever a request's path and method, and whatever the router makes of them that keeps to the routes: an
  -- admin handler, or the answer to a path below /v1/admin with no handler, is called only if the request carries the configured key, which is not empty; the handler
  -- of the account's caps is called only with a user in the context, whom `ResolveAPIKey` finds for the
  -- request's token; every other handler outside the OpenAPI document is called with no user.
  pub serve_root-Entitled :
      (m : Method) (r : Request) (query : Bytes → List Bytes) (w : World num vk) (page : Page)
      (param : Bytes) (user : Option User)
      → (serve_root router binder num crypto vk json admin_key limiter unix m r query w).0
        ≡ called page param user
      → IsEntitled num crypto vk admin_key page r user w
  unfolding serve_root
  serve_root-Entitled m r query w page param user h =
      let reg : Entry → Method × Bytes = λ (e : Entry). (e.method, e.pattern) in
      elim (Routed-cases (router.route reg entries m r.path)) [
        | inl (e, text, there) ↦
            let (_, it_fits) = router.route-fits reg entries m r.path e text there in
            let hidden =
              router.route-All reg (λ (x : Entry). IsHidden x.page x.pattern) entries m r.path e
                text there entries-IsHidden in
            serve_page-Entitled e.page page text param m r query w user e.pattern hidden it_fits
              (rw (there, serve_root) at h)
        | inr nowhere ↦
            let (same, nobody) =
              open-called ui page [] param user (rw (nowhere, serve_root) at h) in
            subst (λ p. IsEntitled num crypto vk admin_key p r user w) (sym same) nobody
      ]
