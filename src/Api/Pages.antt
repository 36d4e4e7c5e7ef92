-- ===== src/Api/Pages.antt =====
-- What needs no state: `Handler` of api/internal/ui/embed.go and of api/internal/docs/docs.go, `GetHealth` and
-- `LiveTTSWebSocket` of api/internal/handler/server.go, and `Unimplemented` of api/internal/gen/openapi.go.
use tts_platform.Common.{
  ℕ, ◌≡◌, refl, inl, inr, Bool, true, Option, none, some, [], ◌∷◌, Bytes, codes, bytes_eq,
  has_prefix, drop, Bool-cases, if◌then◌else◌,
}
use tts_platform.Api.Wrappers.{
  Operation, get_health, list_api_keys, create_api_key, revoke_api_key, login_user, logout_user,
  register_user, get_meta_voices, create_async_tts, get_async_job, get_async_job_audio, live_tts,
  stream_tts, list_usage, get_wallet,
}

-- A file of the page's folder, or none: the folder cannot be opened.
pub data Shown : Type 0 where
  file : Bytes → Shown
  not_found : Shown

abbrev pub index : Bytes
index = codes "index.html"

-- `strings.TrimPrefix(r.URL.Path, "/")`, or the index
unfoldable pub page_path : Bytes → Bytes
page_path path = elim (if has_prefix path (codes "/") then drop 1 path else path) [
  | [] ↦ index
  | c ∷ s ↦ c ∷ s
]

-- `folder` tells which paths can be opened, if the folder can.
unfoldable pub serve_ui : Option (Bytes → Bool) → Bytes → Shown
unfolding page_path
serve_ui none path = not_found
serve_ui (some opens) path = if opens (page_path path) then file (page_path path) else file index

-- The type and the body of an answer: the specification, or the page that shows it
pub data Doc : Type 0 where
  spec : Bytes → Doc
  swagger : Bytes → Doc

-- After `http.StripPrefix("/docs", …)`, by the multiplexer of net/http
unfoldable pub serve_docs : Bytes → Doc
serve_docs path =
    if bytes_eq path (codes "/openapi.yaml")
    then spec (codes "application/yaml")
    else swagger (codes "text/html; charset=utf-8")

-- The status and the body of `GetHealth`
abbrev pub health_reply : ℕ × Bytes
health_reply = (200, codes "ok")

-- `LiveTTSWebSocket`: `live` is the handler of the socket, if there is one.
unfoldable pub live_route {ℓ} : {A : Type ℓ} → Option A → (ℕ → Bytes → A) → A
live_route (some live) fails = live
live_route none fails = fails 500 (codes "live TTS not configured")

-- The status that each method of `Unimplemented` writes
unfoldable pub unimplemented : Operation → ℕ
unimplemented get_health = 501
unimplemented list_api_keys = 501
unimplemented create_api_key = 501
unimplemented revoke_api_key = 501
unimplemented login_user = 501
unimplemented logout_user = 501
unimplemented register_user = 501
unimplemented get_meta_voices = 501
unimplemented create_async_tts = 501
unimplemented get_async_job = 501
unimplemented get_async_job_audio = 501
unimplemented live_tts = 501
unimplemented stream_tts = 501
unimplemented list_usage = 501
unimplemented get_wallet = 501

-- If the index can be opened, whatever is shown can be.
serve_ui-opens :
    (opens : Bytes → Bool) (path : Bytes)
    → opens index ≡ true
    → (f : Bytes) × (serve_ui (some opens) path ≡ file f) × (opens f ≡ true)
unfolding serve_ui
serve_ui-opens opens path h = elim (Bool-cases (opens (page_path path))) [
  | inl there ↦ (page_path path, rw there refl, there)
  | inr missing ↦ (index, rw missing refl, h)
]
