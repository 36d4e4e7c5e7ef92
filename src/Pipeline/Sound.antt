-- ===== src/Pipeline/Sound.antt =====
-- A debit on a database that does not fail succeeds, and inserts a row for each event whose key is new.
use tts_platform.Common.{
  suc, ◌≡◌, refl, sym, ap, ◌∙◌, inl, inr, false, Option, List, [], ◌∷◌, ◌++◌, append-nil,
  append_assoc, Bytes, bytes_eq, All, length, arith, Bool-cases, Option-cases,
}
use tts_platform.Common.Results.{ok}
use tts_platform.Numbers.{Numbers, zero_float}
use tts_platform.Postgres.{Tables, UsageRow, exec}
use tts_platform.Valkey.{Valkey}
use tts_platform.Billing.Event.{Event}
use tts_platform.Metering.Consumer.{
  Codec, World, wallet_key, has_usage, insert_usage, update_wallets, select_price, find_user,
  cached_price, or_default, price_per_minute, cost_at, usage_row, record_usage, charge_event,
  charge_events, settle, first_request, debit_user,
}
use tts_platform.Metering.Invariants.{has_usage-concat}
use tts_platform.Metering.Debit.{record_all}

module _ (num : Numbers) (vk : Valkey) (codec : Codec num) (ppm : num.Float) (user : Bytes)
    (p : Option num.Numeric) where
  -- No statement will fail, and the user is there.
  abbrev pub IsSound : World num vk codec ppm → Type 0
  IsSound w = (w.db.faults ≡ []) × (find_user num user w.db.tables.users ≡ ok p)

  price-Sound :
      (w : World num vk codec ppm)
      → IsSound w
      → (q : num.Float) × ((price_per_minute num vk codec ppm user w).0 ≡ ok q)
        × IsSound (price_per_minute num vk codec ppm user w).1
  unfolding price_per_minute select_price exec
  price-Sound w (sound, there) =
      let (val, redis') = vk.get (wallet_key user) w.redis in
      elim (Option-cases (cached_price num vk codec ppm val)) [
        | inr (q, hit) ↦
            (q, rw (hit, price_per_minute) refl, rw (hit, price_per_minute) (sound, there))
        | inl miss ↦ (
          or_default num vk codec ppm p,
          rw (miss, price_per_minute) (ground arith),
          rw (miss, price_per_minute) (ground arith, ground arith),
        )
      ]

  record-Sound :
      (e : Event num) (cost total : num.Float) (w : World num vk codec ppm)
      → IsSound w
      → ((record_usage num vk codec ppm user e cost total w).0 ≡ ok (num.add total cost))
        × IsSound (record_usage num vk codec ppm user e cost total w).1
  unfolding record_usage insert_usage exec
  record-Sound e cost total w (sound, there) = ground arith

  charge_event-Sound :
      (e : Event num) (total : num.Float) (w : World num vk codec ppm)
      → IsSound w
      → (total' : num.Float) × ((charge_event num vk codec ppm user e total w).0 ≡ ok total')
        × IsSound (charge_event num vk codec ppm user e total w).1
  unfolding charge_event
  charge_event-Sound e total w sound =
      let (q, priced, sound') = price-Sound w sound in
      let w' = (price_per_minute num vk codec ppm user w).1 in
      let cost = cost_at num vk codec ppm e q in
      let (paid, sound'') = record-Sound e cost total w' sound' in
      (num.add total cost, rw (priced, charge_event) paid, rw (priced, charge_event) sound'')

  charge_events-Sound :
      (es : List (Event num)) (total : num.Float) (w : World num vk codec ppm)
      → IsSound w
      → (total' : num.Float) × ((charge_events num vk codec ppm user es total w).0 ≡ ok total')
        × IsSound (charge_events num vk codec ppm user es total w).1
  unfolding charge_events
  charge_events-Sound [] total w sound = (total, refl, sound)
  charge_events-Sound (e ∷ es) total w sound =
      let (mid, charged, sound') = charge_event-Sound e total w sound in
      let w' = (charge_event num vk codec ppm user e total w).1 in
      let (total', all, sound'') = charge_events-Sound es mid w' sound' in
      (total', rw (charged, charge_events) all, rw (charged, charge_events) sound'')

  settle-Sound :
      (reference : Bytes) (total : num.Float) (w : World num vk codec ppm)
      → IsSound w
      → (settle num vk codec ppm user reference total w).0 ≡ ok tt
  unfolding settle update_wallets exec
  settle-Sound reference total w (sound, there) = ground arith

  -- The debit reports no error.
  pub debit_user-Sound :
      (es : List (Event num)) (w : World num vk codec ppm)
      → IsSound w
      → (debit_user num vk codec ppm user es w).0 ≡ ok tt
  unfolding debit_user
  debit_user-Sound es w sound =
      let (total, charged, sound') = charge_events-Sound es (zero_float num) w sound in
      let w' = (charge_events num vk codec ppm user es (zero_float num) w).1 in
      elim (Bool-cases (num.le total (zero_float num))) [
        | inl nothing ↦ rw (charged, debit_user, nothing) refl
        | inr due ↦
            rw (charged, debit_user, due)
              (settle-Sound (first_request num vk codec ppm es) total w' sound')
      ]

module _ (num : Numbers) (vk : Valkey) (codec : Codec num) (ppm : num.Float) (user : Bytes) where
  -- The rows of a batch
  abbrev pub rows_of : List (Event num) → List num.Float → List (UsageRow num)
  rows_of [] prices = []
  rows_of (e ∷ es) [] = []
  rows_of (e ∷ es) (q ∷ prices) =
      usage_row num vk codec ppm user e (cost_at num vk codec ppm e q) ∷ rows_of es prices

  pub length-rows_of :
      (es : List (Event num)) (prices : List num.Float)
      → length prices ≡ length es
      → length (rows_of es prices) ≡ length es
  length-rows_of [] prices len = refl
  length-rows_of (e ∷ es) [] len = absurd (omega arith)
  length-rows_of (e ∷ es) (q ∷ prices) len = ap suc (length-rows_of es prices (omega arith))

  -- Events whose keys are not recorded, and not shared
  abbrev pub IsNew : List (UsageRow num) → List (Event num) → Type 0
  IsNew us [] = Unit {0}
  IsNew us (e ∷ es) =
      (has_usage num e.idempotency_key us ≡ false)
      × All (λ (x : Event num). bytes_eq e.idempotency_key x.idempotency_key ≡ false) es
      × IsNew us es

  IsNew-recorded :
      (us : List (UsageRow num)) (row : UsageRow num) (es : List (Event num))
      → All (λ (x : Event num). bytes_eq row.idempotency_key x.idempotency_key ≡ false) es
      → IsNew us es
      → IsNew (us ++ row ∷ []) es
  IsNew-recorded us row [] other h = tt
  IsNew-recorded us row (e ∷ es) (o, other) (new, alone, h) =
      (has_usage-concat num e.idempotency_key us row new o, alone, IsNew-recorded us row es other h)

  insert_new :
      (row : UsageRow num) (t : Tables num)
      → has_usage num row.idempotency_key t.usage_events ≡ false
      → (insert_usage num row t).1 ≡ record t { usage_events = t.usage_events ++ row ∷ [] }
  unfolding insert_usage
  insert_new row t new = rw new refl

  pub record_all-New :
      (es : List (Event num)) (prices : List num.Float) (t : Tables num)
      → IsNew t.usage_events es
      → (record_all num vk codec ppm user es prices t).usage_events
        ≡ t.usage_events ++ rows_of es prices
  unfolding insert_usage usage_row
  record_all-New [] prices t h = sym (append-nil _)
  record_all-New (e ∷ es) [] t h = sym (append-nil _)
  record_all-New (e ∷ es) (q ∷ prices) t (new, alone, h) =
      let row = usage_row num vk codec ppm user e (cost_at num vk codec ppm e q) in
      let t' : Tables num = record t { usage_events = t.usage_events ++ row ∷ [] } in
      ap (λ (x : Tables num). (record_all num vk codec ppm user es prices x).usage_events)
        (insert_new row t new)
      ∙ (record_all-New es prices t' (IsNew-recorded t.usage_events row es alone h)
          ∙ append_assoc t.usage_events (row ∷ []) (rows_of es prices))
