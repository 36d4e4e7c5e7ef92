-- ===== src/Pipeline/Rows.antt =====
-- The rows of the events that a coalescer makes.
use tts_platform.Common.{
  ℕ, suc, ◌≤◌, ◌≡◌, ◌≢◌, refl, ap, ap₂, ◌∙◌, inl, inr, false, List, [], ◌∷◌, Bytes, bytes_eq,
  bytes_eq_iff, All, length, arith, Bool-cases,
}
use tts_platform.Common.Int.{ℤ, pos}
use tts_platform.Numbers.{Numbers}
use tts_platform.Postgres.{UsageRow}
use tts_platform.Valkey.{Valkey}
use tts_platform.Billing.Event.{Event, stamp}
use tts_platform.Billing.Coalescer.{idempotency_key}
use tts_platform.Billing.Calls.{total, Numbered}
use tts_platform.Billing.Keys.{idempotency_key-injective}
use tts_platform.Metering.Consumer.{Codec, has_usage, usage_row, cost_at}
use tts_platform.Metering.Debit.{charges}
use tts_platform.Pipeline.Sent.{stamped, stamp_about}
use tts_platform.Pipeline.Taken.{IsHis}
use tts_platform.Pipeline.Sound.{rows_of, IsNew}

module _ (num : Numbers) (user request transport : Bytes) where
  -- What a group of chunks costs at a price for a minute
  abbrev pub cost_of : List num.Float → num.Float → num.Float
  cost_of g p = num.mul (num.div (total num g) (num.float (pos 60))) p

  abbrev pub costs_of : List (List num.Float) → List num.Float → List num.Float
  costs_of [] prices = []
  costs_of (g ∷ gs) [] = []
  costs_of (g ∷ gs) (p ∷ prices) = cost_of g p ∷ costs_of gs prices

  -- One row for each group of chunks, numbered from `suc seq` on, with its cost at its price
  abbrev pub Recorded : ℕ → List (List num.Float) → List num.Float → List (UsageRow num) → Type 0
  Recorded seq [] [] [] = Unit {0}
  Recorded seq (g ∷ gs) (p ∷ ps) (r ∷ rs) =
      (r.user_id ≡ user)
      × (r.idempotency_key ≡ idempotency_key num request (suc seq))
      × (r.request_id ≡ request)
      × (r.transport ≡ transport)
      × (r.audio_seconds ≡ num.to_numeric (total num g))
      × (g ≢ [])
      × (r.cost_usd ≡ num.to_numeric (cost_of g p))
      × Recorded (suc seq) gs ps rs
  Recorded seq _ _ _ = ⊥

  key_apart :
      (m n : ℕ)
      → m ≢ n
      → bytes_eq (idempotency_key num request m) (idempotency_key num request n) ≡ false
  key_apart m n ne =
      elim (Bool-cases (bytes_eq (idempotency_key num request m) (idempotency_key num request n))) [
        | inl same ↦ absurd (
            ne
              (idempotency_key-injective num request request m n refl
                ((bytes_eq_iff _ _).0 same)).1)
        | inr other ↦ other
      ]

  pub Numbered-IsHis :
      (seq : ℕ) (groups : List (List num.Float)) (events : List (ℤ × Event num))
      → Numbered num user request transport seq groups events
      → All (IsHis num user) (stamped num events)
  Numbered-IsHis seq [] [] k = tt
  Numbered-IsHis seq [] (x ∷ events) k = absurd k
  Numbered-IsHis seq (g ∷ gs) [] k = absurd k
  Numbered-IsHis seq (g ∷ gs) ((now, e) ∷ events) (about, k) =
      ((stamp_about num now e).1 ∙ about.1, Numbered-IsHis (suc seq) gs events k)

  Numbered-apart :
      (m seq : ℕ) (groups : List (List num.Float)) (events : List (ℤ × Event num)) (key : Bytes)
      → key ≡ idempotency_key num request m
      → m ≤ seq
      → Numbered num user request transport seq groups events
      → All (λ (x : Event num). bytes_eq key x.idempotency_key ≡ false) (stamped num events)
  Numbered-apart m seq [] [] key is h k = tt
  Numbered-apart m seq [] (x ∷ events) key is h k = absurd k
  Numbered-apart m seq (g ∷ gs) [] key is h k = absurd k
  Numbered-apart m seq (g ∷ gs) ((now, e) ∷ events) key is h (about, k) = (
    ap₂ bytes_eq is ((stamp_about num now e).0 ∙ about.0)
        ∙ key_apart m (suc seq) (λ q. omega arith),
    Numbered-apart m (suc seq) gs events key is (omega arith) k,
  )

  pub Numbered-IsNew :
      (vk : Valkey) (codec : Codec num) (ppm : num.Float) (us : List (UsageRow num)) (seq : ℕ)
      (groups : List (List num.Float)) (events : List (ℤ × Event num))
      → ((k : ℕ) → has_usage num (idempotency_key num request k) us ≡ false)
      → Numbered num user request transport seq groups events
      → IsNew num vk codec ppm user us (stamped num events)
  Numbered-IsNew vk codec ppm us seq [] [] new k = tt
  Numbered-IsNew vk codec ppm us seq [] (x ∷ events) new k = absurd k
  Numbered-IsNew vk codec ppm us seq (g ∷ gs) [] new k = absurd k
  Numbered-IsNew vk codec ppm us seq (g ∷ gs) ((now, e) ∷ events) new (about, k) =
      let key = (stamp_about num now e).0 ∙ about.0 in
      (
        ap (λ j. has_usage num j us) key ∙ new (suc seq),
        Numbered-apart (suc seq) (suc seq) gs events (stamp num now e).idempotency_key key
            (omega arith) k,
        Numbered-IsNew vk codec ppm us (suc seq) gs events new k,
      )

  pub Numbered-Recorded :
      (vk : Valkey) (codec : Codec num) (ppm : num.Float) (seq : ℕ) (groups : List (List num.Float))
      (events : List (ℤ × Event num)) (prices : List num.Float)
      → length prices ≡ length (stamped num events)
      → Numbered num user request transport seq groups events
      → Recorded seq groups prices (rows_of num vk codec ppm user (stamped num events) prices)
  unfolding usage_row cost_at
  Numbered-Recorded vk codec ppm seq [] [] [] len k = tt
  Numbered-Recorded vk codec ppm seq [] [] (q ∷ prices) len k = absurd (omega (arith, len))
  Numbered-Recorded vk codec ppm seq [] (x ∷ events) prices len k = absurd k
  Numbered-Recorded vk codec ppm seq (g ∷ gs) [] prices len k = absurd k
  Numbered-Recorded vk codec ppm seq (g ∷ gs) ((now, e) ∷ events) [] len k = absurd (omega arith)
  Numbered-Recorded vk codec ppm seq (g ∷ gs) ((now, e) ∷ events) (q ∷ prices) len
        ((key, his, req, tr, secs, full), k) =
      let (key', _, req', tr', secs') = stamp_about num now e in
      (
        refl,
        key' ∙ key,
        req' ∙ req,
        tr' ∙ tr,
        ap num.to_numeric (secs' ∙ secs),
        full,
        ap (λ x. num.to_numeric (num.mul (num.div x (num.float (pos 60))) q)) (secs' ∙ secs),
        Numbered-Recorded vk codec ppm (suc seq) gs events prices (omega arith) k,
      )

  pub Numbered-costs :
      (vk : Valkey) (codec : Codec num) (ppm : num.Float) (seq : ℕ) (groups : List (List num.Float))
      (events : List (ℤ × Event num)) (prices : List num.Float)
      → Numbered num user request transport seq groups events
      → charges num vk codec ppm (stamped num events) prices ≡ costs_of groups prices
  unfolding cost_at
  Numbered-costs vk codec ppm seq [] [] prices k = refl
  Numbered-costs vk codec ppm seq [] (x ∷ events) prices k = absurd k
  Numbered-costs vk codec ppm seq (g ∷ gs) [] prices k = absurd k
  Numbered-costs vk codec ppm seq (g ∷ gs) ((now, e) ∷ events) [] k = refl
  Numbered-costs vk codec ppm seq (g ∷ gs) ((now, e) ∷ events) (q ∷ prices)
        ((_, _, _, _, secs, _), k) =
      let (_, _, _, _, secs') = stamp_about num now e in
      ap₂ (λ x xs. num.mul (num.div x (num.float (pos 60))) q ∷ xs) (secs' ∙ secs)
        (Numbered-costs vk codec ppm (suc seq) gs events prices k)
