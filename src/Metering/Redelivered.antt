-- ===== src/Metering/Redelivered.antt =====
-- A batch that comes again, and one whose debit fails after its rows are in.
use tts_platform.Common.{
  ◌≡◌, refl, ap, ◌∙◌, true, false, Option, some, List, [], ◌∷◌, map, Bytes, All, length, arith,
  if◌then◌else◌,
}
use tts_platform.Common.Results.{ok, err, failure}
use tts_platform.Numbers.{Numbers, zero_float}
use tts_platform.Postgres.{Tables, exec}
use tts_platform.Valkey.{Valkey}
use tts_platform.Billing.Event.{Event}
use tts_platform.Metering.Consumer.{
  Codec, World, has_usage, insert_usage, debit_wallet, usage_row, charge_events, settle,
  first_request, debit_user,
}
use tts_platform.Metering.Debit.{
  total_of, record_all, charge_events-ok, record_all-wallets, debit_user-Debited,
}

module _ (num : Numbers) (vk : Valkey) (codec : Codec num) (ppm : num.Float) where
  -- Events whose keys are all recorded add no row.
  record_all-recorded :
      (user : Bytes) (es : List (Event num)) (prices : List num.Float) (t : Tables num)
      → All (λ e. has_usage num e.idempotency_key t.usage_events ≡ true) es
      → record_all num vk codec ppm user es prices t ≡ t
  unfolding insert_usage usage_row
  record_all-recorded user [] prices t h = refl
  record_all-recorded user (e ∷ es) [] t h = refl
  record_all-recorded user (e ∷ es) (p ∷ prices) t (old, h) =
      rw old (record_all-recorded user es prices t h)

-- A batch that is delivered again, so that every key is recorded already, adds no usage row; yet a
-- debit that reports no error takes the sum of its costs, if above zero, from the wallet once more.
pub debit_user_again :
    (num : Numbers) (vk : Valkey) (codec : Codec num) (ppm : num.Float) (user : Bytes)
    (es : List (Event num)) (w : World num vk codec ppm)
    → All (λ e. has_usage num e.idempotency_key w.db.tables.usage_events ≡ true) es
    → (debit_user num vk codec ppm user es w).0 ≡ ok tt
    → let t' = (debit_user num vk codec ppm user es w).1.db.tables in
      (prices : List num.Float) × (length prices ≡ length es)
      × (t'.usage_events ≡ w.db.tables.usage_events)
      × (t'.wallets ≡ (
          if num.le (total_of num vk codec ppm es prices) (zero_float num)
          then w.db.tables.wallets
          else map
              (debit_wallet num user (total_of num vk codec ppm es prices))
              w.db.tables.wallets))
debit_user_again num vk codec ppm user es w known h =
    let (prices, len, _, (usage, wallets)) = debit_user-Debited num vk codec ppm user es w h in
    (
      prices,
      len,
      usage
          ∙ ap (λ t. t.usage_events)
              (record_all-recorded num vk codec ppm user es prices w.db.tables known),
      wallets,
    )

settle_fault :
    (num : Numbers) (vk : Valkey) (codec : Codec num) (ppm : num.Float) (user reference : Bytes)
    (total : num.Float) (w : World num vk codec ppm) (x : Bytes) (rest : List (Option Bytes))
    → w.db.faults ≡ some x ∷ rest
    → settle num vk codec ppm user reference total w
      ≡ (err (failure x), record w { db = record { tables = w.db.tables; faults = rest } })
unfolding settle exec
settle_fault num vk codec ppm user reference total w x rest e = ground arith

-- If the statement that debits the wallet fails after the rows of the batch are in, the debit
-- reports that error: the rows stay, and the wallets are as they were.
pub debit_user_lost :
    (num : Numbers) (vk : Valkey) (codec : Codec num) (ppm : num.Float) (user : Bytes)
    (es : List (Event num)) (w : World num vk codec ppm) (total : num.Float) (x : Bytes)
    (rest : List (Option Bytes))
    → (charge_events num vk codec ppm user es (zero_float num) w).0 ≡ ok total
    → num.le total (zero_float num) ≡ false
    → (charge_events num vk codec ppm user es (zero_float num) w).1.db.faults ≡ some x ∷ rest
    → let (r, w') = debit_user num vk codec ppm user es w in
      (prices : List num.Float) × (length prices ≡ length es)
      × (r ≡ err (failure x))
      × (w'.db.tables ≡ record_all num vk codec ppm user es prices w.db.tables)
      × (w'.db.tables.wallets ≡ w.db.tables.wallets)
unfolding debit_user
debit_user_lost num vk codec ppm user es w total x rest q due fault =
    let (prices, len, _, sum, tables) =
      charge_events-ok num vk codec ppm user es (zero_float num) total w q in
    let same =
      ap (λ t. t.wallets) tables ∙ record_all-wallets num vk codec ppm user es prices w.db.tables in
    let failed =
      settle_fault num vk codec ppm user (first_request num vk codec ppm es) total
        (charge_events num vk codec ppm user es (zero_float num) w).1 x rest fault in
    (
      prices,
      len,
      rw (q, debit_user, due, failed),
      rw (q, debit_user, due, failed) tables,
      rw (q, debit_user, due, failed) same,
    )
