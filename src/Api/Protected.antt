-- ===== src/Api/Protected.antt =====
-- Which operations ask for a user, and that they get one.
use tts_platform.Common.{
  ℕ, ◌≡◌, refl, sym, ap, ◌∙◌, inl, inr, Bool, true, false, Option, none, some, List, [], ◌∷◌, Bytes,
  codes, bytes_eq, bytes_eq_iff, arith, Bool-cases, if◌then◌else◌,
}
use tts_platform.Common.Results.{ok}
use tts_platform.Numbers.{Numbers}
use tts_platform.Valkey.{Valkey}
use tts_platform.Auth.Token.{Request, token_from_request}
use tts_platform.Auth.Accounts.{Crypto, resolve_api_key}
use tts_platform.Auth.Statements.{User}
use tts_platform.Auth.Middleware.{Verdict, pass, reply, public_paths, is_public}
use tts_platform.Auth.Guard.{guard, guard-pass}
use tts_platform.RateLimit.Store.{LimitsJson, Store, World}
use tts_platform.Api.Wrappers.{
  Method, Operation, get_health, list_api_keys, create_api_key, revoke_api_key, login_user,
  logout_user, register_user, get_meta_voices, create_async_tts, get_async_job, get_async_job_audio,
  live_tts, stream_tts, list_usage, get_wallet, operations, registered, Context, Args, handled,
  Binder, Input, invalid_param, with_scopes, with_id, serve_get_health, serve_list_api_keys,
  serve_create_api_key, serve_revoke_api_key, serve_login_user, serve_logout_user,
  serve_register_user, serve_get_meta_voices, serve_create_async_tts, serve_get_async_job,
  serve_get_async_job_audio, serve_live_tts, serve_stream_tts, serve_list_usage, serve_get_wallet,
  wrapper,
}
use tts_platform.Api.Router.{fits, Router, Routed-cases, dispatch, routed, serve_api}

-- The operation's wrapper announces that it is for bearers of a token.
abbrev pub is_scoped : Operation → Bool
is_scoped get_health = false
is_scoped login_user = false
is_scoped logout_user = false
is_scoped register_user = false
is_scoped _ = true

-- No path of the list fits the pattern.
abbrev pub FitsNone : Bytes → List Bytes → Type 0
FitsNone pattern [] = Unit {0}
FitsNone pattern (p ∷ ps) = (fits pattern p ≡ false) × FitsNone pattern ps

pub fits-private :
    (pattern path : Bytes) (ps : List Bytes)
    → FitsNone pattern ps
    → fits pattern path ≡ true
    → is_public path ps ≡ false
unfolding is_public
fits-private pattern path [] clear it_fits = refl
fits-private pattern path (p ∷ ps) (clear, more) it_fits = elim (Bool-cases (bytes_eq path p)) [
  | inl same ↦
      let e : path ≡ p = (bytes_eq_iff path p).0 same in
      absurd (cc (sym (ap (fits pattern) e ∙ clear) ∙ it_fits))
  | inr other ↦ rw other (fits-private pattern path ps more it_fits)
]

-- A scoped operation's pattern fits no public path.
scoped-private :
    (op : Operation) (path : Bytes)
    → is_scoped op ≡ true
    → fits (registered op).1 path ≡ true
    → is_public path public_paths ≡ false
unfolding registered
scoped-private get_health path s it_fits = absurd (cc s)
scoped-private list_api_keys path s it_fits =
    fits-private (registered list_api_keys).1 path public_paths (refl, (refl, (refl, (refl, tt))))
      it_fits
scoped-private create_api_key path s it_fits =
    fits-private (registered create_api_key).1 path public_paths (refl, (refl, (refl, (refl, tt))))
      it_fits
scoped-private revoke_api_key path s it_fits =
    fits-private (registered revoke_api_key).1 path public_paths (refl, (refl, (refl, (refl, tt))))
      it_fits
scoped-private login_user path s it_fits = absurd (cc s)
scoped-private logout_user path s it_fits = absurd (cc s)
scoped-private register_user path s it_fits = absurd (cc s)
scoped-private get_meta_voices path s it_fits =
    fits-private (registered get_meta_voices).1 path public_paths (refl, (refl, (refl, (refl, tt))))
      it_fits
scoped-private create_async_tts path s it_fits =
    fits-private (registered create_async_tts).1 path public_paths
      (refl, (refl, (refl, (refl, tt)))) it_fits
scoped-private get_async_job path s it_fits =
    fits-private (registered get_async_job).1 path public_paths (refl, (refl, (refl, (refl, tt))))
      it_fits
scoped-private get_async_job_audio path s it_fits =
    fits-private (registered get_async_job_audio).1 path public_paths
      (refl, (refl, (refl, (refl, tt)))) it_fits
scoped-private live_tts path s it_fits =
    fits-private (registered live_tts).1 path public_paths (refl, (refl, (refl, (refl, tt))))
      it_fits
scoped-private stream_tts path s it_fits =
    fits-private (registered stream_tts).1 path public_paths (refl, (refl, (refl, (refl, tt))))
      it_fits
scoped-private list_usage path s it_fits =
    fits-private (registered list_usage).1 path public_paths (refl, (refl, (refl, (refl, tt))))
      it_fits
scoped-private get_wallet path s it_fits =
    fits-private (registered get_wallet).1 path public_paths (refl, (refl, (refl, (refl, tt))))
      it_fits

with_id-handled :
    (binder : Binder) (name : Bytes) (op op' : Operation) (i : Input) (c c' : Context) (a : Args)
    → with_id binder name op i c ≡ handled op' a c'
    → (op' ≡ op) × (c'.user ≡ c.user) × (c'.scopes ≡ some [])
unfolding with_id invalid_param with_scopes
with_id-handled binder name op op' i c c' a h = ground arith

list_usage-handled :
    (binder : Binder) (op' : Operation) (i : Input) (c c' : Context) (a : Args)
    → serve_list_usage binder i c ≡ handled op' a c'
    → (op' ≡ list_usage) × (c'.user ≡ c.user) × (c'.scopes ≡ some [])
unfolding serve_list_usage invalid_param with_scopes
list_usage-handled binder op' i c c' a h = ground arith

wrapper-handled :
    (binder : Binder) (op op' : Operation) (i : Input) (c c' : Context) (a : Args)
    → wrapper binder op i c ≡ handled op' a c'
    → (op' ≡ op) × (c'.user ≡ c.user) × (c'.scopes ≡ (if is_scoped op then some [] else c.scopes))
unfolding wrapper with_scopes serve_get_health serve_list_api_keys serve_create_api_key
    serve_revoke_api_key serve_login_user serve_logout_user serve_register_user
    serve_get_meta_voices serve_create_async_tts serve_get_async_job serve_get_async_job_audio
    serve_live_tts serve_stream_tts serve_get_wallet
wrapper-handled binder get_health op' i c c' a h = ground arith
wrapper-handled binder list_api_keys op' i c c' a h = ground arith
wrapper-handled binder create_api_key op' i c c' a h = ground arith
wrapper-handled binder revoke_api_key op' i c c' a h =
    with_id-handled binder (codes "keyId") revoke_api_key op' i c c' a h
wrapper-handled binder login_user op' i c c' a h = ground arith
wrapper-handled binder logout_user op' i c c' a h = ground arith
wrapper-handled binder register_user op' i c c' a h = ground arith
wrapper-handled binder get_meta_voices op' i c c' a h = ground arith
wrapper-handled binder create_async_tts op' i c c' a h = ground arith
wrapper-handled binder get_async_job op' i c c' a h =
    with_id-handled binder (codes "jobId") get_async_job op' i c c' a h
wrapper-handled binder get_async_job_audio op' i c c' a h =
    with_id-handled binder (codes "jobId") get_async_job_audio op' i c c' a h
wrapper-handled binder live_tts op' i c c' a h = ground arith
wrapper-handled binder stream_tts op' i c c' a h = ground arith
wrapper-handled binder list_usage op' i c c' a h = list_usage-handled binder op' i c c' a h
wrapper-handled binder get_wallet op' i c c' a h = ground arith

module _ (router : Router) (binder : Binder) where
  -- What `dispatch` hands a scoped operation
  abbrev IsHanded : Option User → Bytes → Operation → Context → Type 0
  IsHanded user path op c =
      (c.user ≡ user)
      × (c.scopes ≡ (if is_scoped op then some [] else none))
      × (fits (registered op).1 path ≡ true)

  dispatch-handled :
      (m : Method) (path : Bytes) (query : Bytes → List Bytes) (user : Option User) (op : Operation)
      (a : Args) (c : Context)
      → dispatch router binder m path query user ≡ handled op a c
      → IsHanded user path op c
  unfolding dispatch
  dispatch-handled m path query user op a c h =
      elim (Routed-cases (router.route registered operations m path)) [
        | inl (op', param, there) ↦
            let (same, who, scopes) =
              wrapper-handled binder op' op _ _ c a (rw (there, dispatch) at h) in
            let (_, it_fits) = router.route-fits registered operations m path op' param there in
            rw same (who, scopes, it_fits)
        | inr nowhere ↦ absurd (cc (rw (nowhere, dispatch) at h))
      ]

  routed-handled :
      (m : Method) (path : Bytes) (query : Bytes → List Bytes) (v : Verdict) (op : Operation)
      (a : Args) (c : Context)
      → routed router binder m path query v ≡ handled op a c
      → (user : Option User) × (v ≡ pass user) × IsHanded user path op c
  unfolding routed
  routed-handled m path query (pass user) op a c h =
      (user, refl, dispatch-handled m path query user op a c h)
  routed-handled m path query (reply status body retry) op a c h = absurd (cc h)

  -- A handler whose operation asks for a bearer's token is called only with a user in the context, whom
  -- `ResolveAPIKey` finds for the request's token, and with the scopes of bearer authentication; so
  -- for no public path. The router may be any that gives a handler only for its method and for a
  -- path that its pattern fits.
  pub serve_api-protected :
      (num : Numbers) (crypto : Crypto) (vk : Valkey) (json : LimitsJson) (limiter : Option Store)
      (unix : ℕ) (m : Method) (r : Request) (query : Bytes → List Bytes) (w : World num vk)
      (op : Operation) (a : Args) (c : Context)
      → (serve_api router binder num crypto vk json limiter unix m r query w).0 ≡ handled op a c
      → is_scoped op ≡ true
      → (u : User) × (c.user ≡ some u)
        × (c.scopes ≡ some [])
        × ((resolve_api_key num crypto (token_from_request r) w.db).0 ≡ ok u)
        × (is_public r.path public_paths ≡ false)
  unfolding serve_api
  serve_api-protected num crypto vk json limiter unix m r query w op a c h s =
      let (user, passed, (who, scopes, it_fits)) =
        routed-handled m r.path query (guard num crypto vk json limiter unix r w).0 op a c h in
      let hidden = scoped-private op r.path s it_fits in
      elim (guard-pass num crypto vk json limiter unix r user w passed) [
        | inl (nobody, open_path) ↦ absurd (cc (sym open_path ∙ hidden))
        | inr (u, someone, token, resolved) ↦
            (u, who ∙ someone, scopes ∙ rw s refl, resolved, hidden)
      ]
