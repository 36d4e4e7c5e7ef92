-- ===== src/Speech/Admission.antt =====
-- What a request for speech passes before its stream starts (api/internal/handler/server.go: `admit`
-- and `acquireSynthesis`), `GetWallet`, and the health of the inference service
-- (api/internal/grpcclient/client.go, api/internal/handler/inference_meta.go). The gauge of a user's
-- balance is left out, but not the reading of the wallet that it makes.
use tts_platform.Common.{
  ℕ, ◌≡◌, refl, ◌⊎◌, inl, inr, Bool, true, false, ◌&&◌, Option, none, some, [], ◌++◌, Bytes, codes,
  arith, if◌then◌else◌,
}
use tts_platform.Common.Results.{Error, Result, ok, err, canceled, failure, Result-cases}
use tts_platform.Numbers.{Numbers}
use tts_platform.Valkey.{Valkey}
use tts_platform.Wallet.Cache.{WalletSnapshot, Codec, Group, World, get, has_balance}
use tts_platform.Synth.Limiter.{Limiter, acquire}

-- Whether the handler goes on, and if not, what the client is sent.
pub data Gate (A : Type 0) : Type 0 where
  enter : A → Gate A
  refuse : ℕ → Bytes → Gate A
  drop_silently : Gate A

pub Gate-cases :
    {A : Type 0} (g : Gate A)
    → ((a : A) × (g ≡ enter a))
      ⊎ (((status : ℕ) × (body : Bytes) × (g ≡ refuse status body)) ⊎ (g ≡ drop_silently))
Gate-cases (enter a) = inl (a, refl)
Gate-cases (refuse status body) = inr (inl (status, body, refl))
Gate-cases drop_silently = inr (inr refl)

module _ (num : Numbers) (vk : Valkey) (group : Group) (codec : Codec num) (def_ppm : num.Float)
    (per_user : Bool) where
  -- `observeWallet`
  unfoldable pub observe_wallet : Bytes → World num vk group → World num vk group
  observe_wallet user w = if per_user then (get num vk group codec def_ppm user w).1 else w

  unfoldable pub admit : Bytes → World num vk group → Gate (WalletSnapshot num) × World num vk group
  unfolding observe_wallet
  admit user w =
      let (r, w') = has_balance num vk group codec def_ppm user w in
      elim r [
        | err e ↦ (refuse 500 (codes "error"), w')
        | ok (enough, snap) ↦
            if enough
            then (enter snap, observe_wallet user w')
            else (refuse 402 (codes "insufficient balance"), w')
      ]

  -- `GetWallet`, for the context's user; its JSON rounds both numbers to 32 bits.
  unfoldable pub get_wallet :
      Option Bytes → World num vk group → Gate (WalletSnapshot num) × World num vk group
  get_wallet none w = (refuse 401 (codes "unauthorized"), w)
  get_wallet (some user) w =
      let (r, w') = get num vk group codec def_ppm user w in
      (elim r [ err e ↦ refuse 500 (codes "error") | ok snap ↦ enter snap ], w')

  -- The wallet of a request that is admitted was read just then, and its balance is above zero.
  pub admit-balance :
      (user : Bytes) (snap : WalletSnapshot num) (w : World num vk group)
      → (admit user w).0 ≡ enter snap
      → (has_balance num vk group codec def_ppm user w).0 ≡ ok (true, snap)
  unfolding admit
  admit-balance user snap w h =
      elim (Result-cases (has_balance num vk group codec def_ppm user w).0) [
        | inl ((true, s), found) ↦ ground arith
        | inl ((false, s), found) ↦ absurd (ground arith)
        | inr (e, failed) ↦ absurd (ground arith)
      ]

-- What `acquireSynthesis` makes of the error of `Acquire`: nothing is sent to a client that is gone.
unfoldable pub gate_of : Result (Unit {0}) → Gate (Unit {0})
gate_of (ok _) = enter tt
gate_of (err canceled) = drop_silently
gate_of (err e) = refuse 503 (codes "synthesis capacity exceeded")

-- A call that would block has no outcome.
unfoldable pub acquire_synthesis :
    Bool → Option Error → Option Limiter → Option (Gate (Unit {0}) × Option Limiter)
unfolding gate_of
acquire_synthesis pick ended none = some (enter tt, none)
acquire_synthesis pick ended (some l) = elim (acquire pick ended (some l)) [
  | none ↦ none
  | some (r, l') ↦ some (gate_of r, l')
]

-- A `HealthResponse` of the inference service
pub record Health : Type 0 where
  pub healthy : Bool
  pub backend : Bytes

-- `HealthDetail`: readiness, backend and error
unfoldable pub health_detail : Result Health → Bool × Bytes × Option Error
health_detail (err e) = (false, [], some e)
health_detail (ok h) = if h.healthy then (true, h.backend, none) else (
  false,
  h.backend,
  some (failure (codes "inference unhealthy (backend=" ++ (h.backend ++ codes ")"))),
)

abbrev pub is_none {ℓ} : {A : Type ℓ} → Option A → Bool
is_none none = true
is_none (some a) = false

-- `GetMetaInference`: the address, the backend and whether it is ready
unfoldable pub get_meta_inference : Bytes → Result Health → Bytes × Bytes × Bool
unfolding health_detail
get_meta_inference addr answer =
    let (ready, backend, e) = health_detail answer in (addr, backend, ready && is_none e)
