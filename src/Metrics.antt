-- ===== src/Metrics.antt =====
-- api/internal/metrics/metrics.go, and `HTTPMetricsMiddleware` of api/internal/handler/server.go. Prometheus's
-- registry is the state. Buckets and the registration are left out.
use tts_platform.Common.{
  ℕ, ◌≡◌, inl, inr, Bool, true, some, List, [], ◌∷◌, ◌++◌, Bytes, bytes_eq, bytes_eq_iff, subst,
  Bool-cases, if◌then◌else◌,
}
use tts_platform.Common.Decimal.{itoa}
use tts_platform.Common.Dict.{lookup, insert, lookup-insert_self, lookup-insert_ne}
use tts_platform.Common.Int.{ℤ, pos, ◌+ℤ◌, ◌-ℤ◌}
use tts_platform.Numbers.{Numbers}

-- The labels of `http_request_duration_seconds`
pub record HttpLabels : Type 0 where
  pub method : Bytes
  pub route : Bytes
  pub status : Bytes

-- A histogram keeps its observations, and a counter or gauge its value, each by its labels.
pub record Registry (num : Numbers) : Type 0 where
  pub ttfb : List (Bytes × num.Float)
  pub request_duration : List ((Bytes × Bytes) × num.Float)
  pub rtf : List (Bytes × num.Float)
  pub active_streams : ℤ
  pub audio_seconds : List (Bytes × num.Float)
  pub http_duration : List (HttpLabels × num.Float)
  pub cache_l2_miss : ℕ
  pub wallet_balance : List (Bytes × num.Float)

module _ (num : Numbers) where
  -- `TrackActiveStream`: the registry after the call, and the function that it returns
  unfoldable pub track_active_stream : Registry num → Registry num × (Registry num → Registry num)
  track_active_stream m = (
    record m { active_streams = m.active_streams +ℤ pos 1 },
    λ (later : Registry num). record later { active_streams = later.active_streams -ℤ pos 1 },
  )

  unfoldable pub observe_wallet_balance : Bool → Bytes → num.Float → Registry num → Registry num
  observe_wallet_balance enabled user balance m =
      if enabled then record m { wallet_balance = insert user balance m.wallet_balance } else m

  -- `HTTPMetricsMiddleware`: `next` gives its answer with the status that was written, and `took` are the
  -- seconds that it took.
  unfoldable pub http_metrics {ℓ} :
      {A : Type ℓ}
      → (Registry num → A × ℕ × Registry num)
      → Bytes
      → Bytes
      → num.Float
      → Registry num
      → A × Registry num
  http_metrics next method path took m =
      let (answer, status, m') = next m in
      let labels : HttpLabels = record { method = method; route = path; status = itoa status } in
      (answer, record m' { http_duration = m'.http_duration ++ (labels, took) ∷ [] })

  -- The gauge of a user shows the balance that was observed last, and the others are as they were.
  observe_wallet_balance-lookup :
      (user other : Bytes) (balance : num.Float) (m : Registry num)
      → lookup other (observe_wallet_balance true user balance m).wallet_balance
        ≡ (if bytes_eq user other then some balance else lookup other m.wallet_balance)
  unfolding observe_wallet_balance
  observe_wallet_balance-lookup user other balance m = elim (Bool-cases (bytes_eq user other)) [
    | inl same ↦ rw same (
        subst (λ o. lookup o (insert user balance m.wallet_balance) ≡ some balance)
          ((bytes_eq_iff user other).0 same) (lookup-insert_self user balance m.wallet_balance))
    | inr differs ↦ rw differs (lookup-insert_ne user other balance m.wallet_balance differs)
  ]
