-- ===== src/Api/Wrappers.antt =====
-- The routes of api/internal/gen/openapi.go (`HandlerWithOptions`) and the wrappers that bind the
-- parameters of a request (`ServerInterfaceWrapper`). `HandlerFromMux` gives no middlewares and no
-- base URL. The functions of the package runtime that bind a parameter are a parameter.
use tts_platform.Common.{Option, none, some, List, [], ◌∷◌, ◌++◌, Bytes, codes, ℕ}
use tts_platform.Common.Int.{ℤ}
use tts_platform.Common.Results.{Result, ok, err, Error}
use tts_platform.Auth.Statements.{User}
use tts_platform.Speech.Job.{message}

-- `other` is a method that no route names.
pub data Method : Type 0 where
  get : Method
  post : Method
  delete : Method
  put : Method
  other : Method

-- The methods of `ServerInterface`
pub data Operation : Type 0 where
  get_health : Operation
  list_api_keys : Operation
  create_api_key : Operation
  revoke_api_key : Operation
  login_user : Operation
  logout_user : Operation
  register_user : Operation
  get_meta_voices : Operation
  create_async_tts : Operation
  get_async_job : Operation
  get_async_job_audio : Operation
  live_tts : Operation
  stream_tts : Operation
  list_usage : Operation
  get_wallet : Operation

abbrev pub operations : List Operation
operations =
    get_health ∷ list_api_keys ∷ create_api_key ∷ revoke_api_key ∷ login_user ∷ logout_user
    ∷ register_user ∷ get_meta_voices ∷ create_async_tts ∷ get_async_job ∷ get_async_job_audio
    ∷ live_tts ∷ stream_tts ∷ list_usage ∷ get_wallet ∷ []

-- The method and the pattern with which an operation is registered
unfoldable pub registered : Operation → Method × Bytes
registered get_health = (get, codes "/health")
registered list_api_keys = (get, codes "/v1/auth/api-keys")
registered create_api_key = (post, codes "/v1/auth/api-keys")
registered revoke_api_key = (delete, codes "/v1/auth/api-keys/{keyId}")
registered login_user = (post, codes "/v1/auth/login")
registered logout_user = (post, codes "/v1/auth/logout")
registered register_user = (post, codes "/v1/auth/register")
registered get_meta_voices = (get, codes "/v1/meta/voices")
registered create_async_tts = (post, codes "/v1/tts/async")
registered get_async_job = (get, codes "/v1/tts/async/{jobId}")
registered get_async_job_audio = (get, codes "/v1/tts/async/{jobId}/audio")
registered live_tts = (get, codes "/v1/tts/live")
registered stream_tts = (post, codes "/v1/tts/stream")
registered list_usage = (get, codes "/v1/usage")
registered get_wallet = (get, codes "/v1/wallet")

-- The values of the request's context
pub record Context : Type 0 where
  pub user : Option User
  pub scopes : Option (List Bytes)

-- What a handler is called with beside the request
pub data Args : Type 0 where
  no_args : Args
  id : Bytes → Args
  paging : Option ℤ → Option ℤ → Args

-- A handler is called, or the request is answered with a status, a text and the Retry-After header,
-- or no route fits.
pub data Served : Type 0 where
  handled : Operation → Args → Context → Served
  answered : ℕ → Bytes → Option Bytes → Served
  unrouted : Served

-- `runtime.BindStyledParameterWithOptions` for a UUID in the path, by its name and its text, and
-- `runtime.BindQueryParameter` for an optional integer, by its name and the values of the query
pub record Binder : Type 0 where
  pub uuid : Bytes → Bytes → Result Bytes
  pub integer : Bytes → (Bytes → List Bytes) → Result (Option ℤ)

-- `InvalidParamFormatError`, as the default `ErrorHandlerFunc` answers it
unfoldable pub invalid_param : Bytes → Error → Served
invalid_param name e =
    answered 400 (codes "Invalid format for parameter " ++ (name ++ (codes ": " ++ message e))) none

-- `context.WithValue(ctx, BearerAuthScopes, []string{})`
unfoldable pub with_scopes : Context → Context
with_scopes c = record c { scopes = some [] }

-- What a wrapper is given: the path's parameter and the query
pub record Input : Type 0 where
  pub param : Bytes
  pub query : Bytes → List Bytes

module _ (binder : Binder) where
  -- A wrapper with a UUID in the path
  unfoldable pub with_id : Bytes → Operation → Input → Context → Served
  unfolding invalid_param with_scopes
  with_id name op i c = elim (binder.uuid name i.param) [
    | err e ↦ invalid_param name e
    | ok id' ↦ handled op (id id') (with_scopes c)
  ]

  unfoldable pub serve_get_health : Input → Context → Served
  serve_get_health i c = handled get_health no_args c

  unfoldable pub serve_list_api_keys : Input → Context → Served
  unfolding with_scopes
  serve_list_api_keys i c = handled list_api_keys no_args (with_scopes c)

  unfoldable pub serve_create_api_key : Input → Context → Served
  unfolding with_scopes
  serve_create_api_key i c = handled create_api_key no_args (with_scopes c)

  unfoldable pub serve_revoke_api_key : Input → Context → Served
  unfolding with_id
  serve_revoke_api_key = with_id (codes "keyId") revoke_api_key

  unfoldable pub serve_login_user : Input → Context → Served
  serve_login_user i c = handled login_user no_args c

  unfoldable pub serve_logout_user : Input → Context → Served
  serve_logout_user i c = handled logout_user no_args c

  unfoldable pub serve_register_user : Input → Context → Served
  serve_register_user i c = handled register_user no_args c

  unfoldable pub serve_get_meta_voices : Input → Context → Served
  unfolding with_scopes
  serve_get_meta_voices i c = handled get_meta_voices no_args (with_scopes c)

  unfoldable pub serve_create_async_tts : Input → Context → Served
  unfolding with_scopes
  serve_create_async_tts i c = handled create_async_tts no_args (with_scopes c)

  unfoldable pub serve_get_async_job : Input → Context → Served
  unfolding with_id
  serve_get_async_job = with_id (codes "jobId") get_async_job

  unfoldable pub serve_get_async_job_audio : Input → Context → Served
  unfolding with_id
  serve_get_async_job_audio = with_id (codes "jobId") get_async_job_audio

  unfoldable pub serve_live_tts : Input → Context → Served
  unfolding with_scopes
  serve_live_tts i c = handled live_tts no_args (with_scopes c)

  unfoldable pub serve_stream_tts : Input → Context → Served
  unfolding with_scopes
  serve_stream_tts i c = handled stream_tts no_args (with_scopes c)

  unfoldable pub serve_list_usage : Input → Context → Served
  unfolding invalid_param with_scopes
  serve_list_usage i c = elim (binder.integer (codes "limit") i.query) [
    | err e ↦ invalid_param (codes "limit") e
    | ok limit ↦ elim (binder.integer (codes "offset") i.query) [
      | err e ↦ invalid_param (codes "offset") e
      | ok offset ↦ handled list_usage (paging limit offset) (with_scopes c)
    ]
  ]

  unfoldable pub serve_get_wallet : Input → Context → Served
  unfolding with_scopes
  serve_get_wallet i c = handled get_wallet no_args (with_scopes c)

  -- The wrapper that an operation is registered with
  unfoldable pub wrapper : Operation → Input → Context → Served
  unfolding serve_get_health serve_list_api_keys serve_create_api_key serve_revoke_api_key
      serve_login_user serve_logout_user serve_register_user serve_get_meta_voices
      serve_create_async_tts serve_get_async_job serve_get_async_job_audio serve_live_tts
      serve_stream_tts serve_list_usage serve_get_wallet
  wrapper get_health = serve_get_health
  wrapper list_api_keys = serve_list_api_keys
  wrapper create_api_key = serve_create_api_key
  wrapper revoke_api_key = serve_revoke_api_key
  wrapper login_user = serve_login_user
  wrapper logout_user = serve_logout_user
  wrapper register_user = serve_register_user
  wrapper get_meta_voices = serve_get_meta_voices
  wrapper create_async_tts = serve_create_async_tts
  wrapper get_async_job = serve_get_async_job
  wrapper get_async_job_audio = serve_get_async_job_audio
  wrapper live_tts = serve_live_tts
  wrapper stream_tts = serve_stream_tts
  wrapper list_usage = serve_list_usage
  wrapper get_wallet = serve_get_wallet
