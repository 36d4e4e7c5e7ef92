-- ===== src/Metering/Keeps.antt =====
-- What the statements of the consumer keep of the tables, every run of the consumer keeps, whatever
-- fails on the way.
use tts_platform.Common.{◌≡◌, refl, inl, inr, List, [], ◌∷◌, Bytes, arith, Bool-cases, Option-cases}
use tts_platform.Common.Results.{Result-cases}
use tts_platform.Numbers.{Numbers, zero_float}
use tts_platform.Postgres.{Tables, exec, exec-keeps, UsageRow}
use tts_platform.Valkey.{Valkey}
use tts_platform.Billing.Event.{Event}
use tts_platform.Metering.Consumer.{
  Codec, World, Consumer, insert_usage, update_wallets, insert_transaction, select_price,
  price_per_minute, record_usage, usage_row, cost_at, charge_event, charge_events, settle,
  first_request, debit_user, flush_user, flush_batch, flush, on_message, Happening, message, tick,
  step, run,
}

module _ (num : Numbers) (vk : Valkey) (codec : Codec num) (ppm : num.Float) where
  -- Looking up a price changes no table.
  pub price-tables :
      (user : Bytes) (w : World num vk codec ppm)
      → (price_per_minute num vk codec ppm user w).1.db.tables ≡ w.db.tables
  unfolding price_per_minute select_price
  price-tables user w =
      ground (arith, exec-keeps (λ t. t ≡ w.db.tables) (select_price num user) w.db (λ t h. h) refl)

module _ (num : Numbers) (vk : Valkey) (codec : Codec num) (ppm : num.Float)
    (P : Tables num → Type 0)
    (keep_usage : (row : UsageRow num) (t : Tables num) → P t → P (insert_usage num row t).1) where
  record_usage-keeps :
      (user : Bytes) (e : Event num) (cost total : num.Float) (w : World num vk codec ppm)
      → P w.db.tables
      → P (record_usage num vk codec ppm user e cost total w).1.db.tables
  unfolding record_usage
  record_usage-keeps user e cost total w h =
      let row = usage_row num vk codec ppm user e cost in
      let kept = exec-keeps P (insert_usage num row) w.db (keep_usage row) h in
      elim (Result-cases (exec (insert_usage num row) w.db).0) [
        | inl (_, r) ↦ rw (r, record_usage) kept
        | inr (_, r) ↦ rw (r, record_usage) kept
      ]

  charge_event-keeps :
      (user : Bytes) (e : Event num) (total : num.Float) (w : World num vk codec ppm)
      → P w.db.tables
      → P (charge_event num vk codec ppm user e total w).1.db.tables
  unfolding charge_event
  charge_event-keeps user e total w h =
      let (price, w') = price_per_minute num vk codec ppm user w in
      let h' : P w'.db.tables = rw (price-tables num vk codec ppm user w) h in
      elim (Result-cases price) [
        | inl (p, r) ↦
            rw (r, charge_event)
              (record_usage-keeps user e (cost_at num vk codec ppm e p) total w' h')
        | inr (_, r) ↦ rw (r, charge_event) h'
      ]

  pub charge_events-keeps :
      (user : Bytes) (es : List (Event num)) (total : num.Float) (w : World num vk codec ppm)
      → P w.db.tables
      → P (charge_events num vk codec ppm user es total w).1.db.tables
  unfolding charge_events
  charge_events-keeps user [] total w h = h
  charge_events-keeps user (e ∷ es) total w h =
      let (r, w') = charge_event num vk codec ppm user e total w in
      let h' = charge_event-keeps user e total w h in
      elim (Result-cases r) [
        | inl (total', q) ↦ rw (q, charge_events) (charge_events-keeps user es total' w' h')
        | inr (_, q) ↦ rw (q, charge_events) h'
      ]

module _ (num : Numbers) (vk : Valkey) (codec : Codec num) (ppm : num.Float)
    (P : Tables num → Type 0)
    (keep_usage : (row : UsageRow num) (t : Tables num) → P t → P (insert_usage num row t).1)
    (keep_wallets : (user : Bytes) (cost : num.Float) (t : Tables num)
      → P t
      → P (update_wallets num user cost t).1)
    (keep_transactions : (user : Bytes) (amount : num.Float) (reference : Bytes) (t : Tables num)
      → P t
      → P (insert_transaction num user amount reference t).1) where
  settle-keeps :
      (user reference : Bytes) (total : num.Float) (w : World num vk codec ppm)
      → P w.db.tables
      → P (settle num vk codec ppm user reference total w).1.db.tables
  unfolding settle
  settle-keeps user reference total w h =
      let upd = exec (update_wallets num user total) w.db in
      let h' = exec-keeps P (update_wallets num user total) w.db (keep_wallets user total) h in
      elim (Result-cases upd.0) [
        | inl (_, q) ↦
            rw (q, settle)
              (exec-keeps P (insert_transaction num user (num.neg total) reference) upd.1
                (keep_transactions user (num.neg total) reference) h')
        | inr (_, q) ↦ rw (q, settle) h'
      ]

  debit_user-keeps :
      (user : Bytes) (es : List (Event num)) (w : World num vk codec ppm)
      → P w.db.tables
      → P (debit_user num vk codec ppm user es w).1.db.tables
  unfolding debit_user
  debit_user-keeps user es w h =
      let (r, w') = charge_events num vk codec ppm user es (zero_float num) w in
      let h' = charge_events-keeps num vk codec ppm P keep_usage user es (zero_float num) w h in
      elim (Result-cases r) [
        | inl (total, q) ↦ elim (Bool-cases (num.le total (zero_float num))) [
          | inl nothing ↦ rw (q, debit_user, nothing) h'
          | inr due ↦
              rw (q, debit_user, due)
                (settle-keeps user (first_request num vk codec ppm es) total w' h')
        ]
        | inr (_, q) ↦ rw (q, debit_user) h'
      ]

  flush_batch-keeps :
      (batch : List (Bytes × List (Event num))) (c : Consumer num vk codec ppm)
      → P c.world.db.tables
      → P (flush_batch num vk codec ppm batch c).world.db.tables
  unfolding flush_batch
  flush_batch-keeps [] c h = h
  flush_batch-keeps ((user, es) ∷ batch) c h =
      elim (Result-cases (debit_user num vk codec ppm user es c.world).0) [
        | inl (_, q) ↦ flush_batch-keeps batch _ (rw (q, flush_user) h')
        | inr (_, q) ↦ flush_batch-keeps batch _ (rw (q, flush_user) h')
      ]
    where
      h' : P (debit_user num vk codec ppm user es c.world).1.db.tables
      h' = debit_user-keeps user es c.world h

  step-keeps :
      (x : Happening num vk codec ppm) (c : Consumer num vk codec ppm)
      → P c.world.db.tables
      → P (step num vk codec ppm x c).world.db.tables
  unfolding step on_message flush
  step-keeps (message msg) c h = elim (Option-cases (codec.unmarshal_event msg)) [
    | inl bad ↦ rw (bad, on_message) h
    | inr (e, good) ↦ rw (good, on_message) h
  ]
  step-keeps tick c h = flush_batch-keeps c.pending (record c { pending = [] }) h

  pub run-keeps :
      (xs : List (Happening num vk codec ppm)) (c : Consumer num vk codec ppm)
      → P c.world.db.tables
      → P (run num vk codec ppm xs c).world.db.tables
  unfolding run
  run-keeps [] c h = h
  run-keeps (x ∷ xs) c h = run-keeps xs (step num vk codec ppm x c) (step-keeps x c h)
