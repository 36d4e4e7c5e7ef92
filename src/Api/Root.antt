-- ===== src/Api/Root.antt =====
-- The routes of api/cmd/api/main.go, and the middlewares in front of each.
use tts_platform.Common.{ℕ, Option, none, List, [], ◌∷◌, ◌++◌, map, Bytes, codes}
use tts_platform.Numbers.{Numbers}
use tts_platform.Valkey.{Valkey}
use tts_platform.Auth.Token.{Request}
use tts_platform.Auth.Accounts.{Crypto}
use tts_platform.Auth.Statements.{User}
use tts_platform.Auth.Middleware.{Verdict, pass, reply, admin_middleware, bearer_middleware}
use tts_platform.RateLimit.Store.{LimitsJson, Store, World}
use tts_platform.Api.Wrappers.{Method, get, post, delete, put, other, Served, Binder}
use tts_platform.Api.Router.{found, no_route, Router, serve_api}

-- What a route leads to: a handler of `Server`, a page, or the routes of the OpenAPI document
pub data Page : Type 0 where
  metrics : Page
  docs : Page
  health : Page
  inference : Page
  admin_get : Page
  admin_set : Page
  admin_delete : Page
  admin_none : Page
  register : Page
  login : Page
  logout : Page
  ui : Page
  account : Page
  api : Page

pub record Entry : Type 0 where
  pub method : Method
  pub pattern : Bytes
  pub page : Page

abbrev pub entry : Method → Bytes → Page → Entry
entry m pattern page = record { method = m; pattern = pattern; page = page }

-- `Handle` registers a pattern for all methods.
abbrev pub handle : Bytes → Page → List Entry
handle pattern page = map (λ m. entry m pattern page) (get ∷ post ∷ delete ∷ put ∷ other ∷ [])

-- `Mount` registers the pattern, the pattern with a slash, and all below it.
abbrev pub mount : Bytes → Page → List Entry
mount pattern page =
    handle pattern page ++ handle (pattern ++ codes "/") page ++ handle (pattern ++ codes "/*") page

abbrev pub limit_pattern : Bytes
limit_pattern = codes "/v1/admin/users/{userId}/rate-limit"

-- `Route` mounts a router of its own: below /v1/admin, `admin_none` is its answer where none of its three
-- routes fits.
unfoldable pub entries : List Entry
entries =
    handle (codes "/metrics") metrics
    ++ (mount (codes "/docs") docs
        ++ (entry get (codes "/health") health
            ∷ entry get (codes "/livez") health
            ∷ entry get (codes "/v1/meta/inference") inference
            ∷ entry get limit_pattern admin_get
            ∷ entry put limit_pattern admin_set
            ∷ entry delete limit_pattern admin_delete
            ∷ (mount (codes "/v1/admin") admin_none
                ++ (entry post (codes "/v1/auth/register") register
                    ∷ entry post (codes "/v1/auth/login") login
                    ∷ entry post (codes "/v1/auth/logout") logout
                    ∷ entry get (codes "/") ui
                    ∷ (handle (codes "/assets/*") ui
                        ++ (entry get (codes "/v1/account/rate-limit") account
                            ∷ handle (codes "/*") api))))))

-- A page's handler is called with the path's parameter and the user of the context, or a middleware
-- answers, or the routes of the OpenAPI document do.
pub data Answer : Type 0 where
  called : Page → Bytes → Option User → Answer
  refused : ℕ → Bytes → Option Bytes → Answer
  by_api : Served → Answer

-- What comes of a middleware's verdict
unfoldable pub behind : Page → Bytes → Verdict → Answer
behind page param (pass user) = called page param user
behind page param (reply status body retry) = refused status body retry

module _ (router : Router) (binder : Binder) (num : Numbers) (crypto : Crypto) (vk : Valkey)
    (json : LimitsJson) (admin_key : Bytes) (limiter : Option Store) (unix : ℕ) where
  unfoldable pub serve_page :
      Page → Bytes → Method → Request → (Bytes → List Bytes) → World num vk → Answer × World num vk
  unfolding behind
  serve_page admin_get param m r query w =
      (behind admin_get param (admin_middleware admin_key r), w)
  serve_page admin_set param m r query w =
      (behind admin_set param (admin_middleware admin_key r), w)
  serve_page admin_delete param m r query w =
      (behind admin_delete param (admin_middleware admin_key r), w)
  serve_page admin_none param m r query w =
      (behind admin_none param (admin_middleware admin_key r), w)
  serve_page account param m r query w =
      let (v, db') = bearer_middleware num crypto r w.db in
      (behind account param v, record w { db = db' })
  serve_page api param m r query w =
      let (s, w') = serve_api router binder num crypto vk json limiter unix m r query w in
      (by_api s, w')
  serve_page metrics param m r query w = (called metrics param none, w)
  serve_page docs param m r query w = (called docs param none, w)
  serve_page health param m r query w = (called health param none, w)
  serve_page inference param m r query w = (called inference param none, w)
  serve_page register param m r query w = (called register param none, w)
  serve_page login param m r query w = (called login param none, w)
  serve_page logout param m r query w = (called logout param none, w)
  serve_page ui param m r query w = (called ui param none, w)

  -- `router.NotFound` gives the page too.
  unfoldable pub serve_root :
      Method → Request → (Bytes → List Bytes) → World num vk → Answer × World num vk
  unfolding serve_page entries
  serve_root m r query w =
      elim (router.route (λ (e : Entry). (e.method, e.pattern)) entries m r.path) [
        | no_route ↦ (called ui [] none, w)
        | found e param ↦ serve_page e.page param m r query w
      ]
