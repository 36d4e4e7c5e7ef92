-- ===== src/Metering/Consumer.antt =====
-- metering/internal/consumer/consumer.go: billable events are gathered by user, and a ticker has
-- each user's batch written to the ledger. A batch's users are visited in the order of the list:
-- Go's order of a map is any.
use tts_platform.Common.{
  ℕ, ◌+◌, Bool, false, ◌||◌, Option, none, some, List, [], ◌∷◌, ◌++◌, map, Bytes, codes, bytes_eq,
  length, if◌then◌else◌,
}
use tts_platform.Common.Int.{pos}
use tts_platform.Common.Results.{Result, ok, err, no_rows}
use tts_platform.Numbers.{Numbers, zero_float}
use tts_platform.Postgres.{Tables, Db, exec, UserRow, WalletRow, UsageRow}
use tts_platform.Valkey.{Valkey}
use tts_platform.Billing.Event.{Event}
use tts_platform.Common.Dict.{lookup, insert}

-- `json.Unmarshal` into an event, and into the struct with the price alone.
pub record Codec (num : Numbers) : Type 0 where
  pub unmarshal_event : Bytes → Option (Event num)
  pub unmarshal_price : Bytes → Option num.Float

-- `"user:"+userID+":wallet"`
abbrev pub wallet_key : Bytes → Bytes
wallet_key user = codes "user:" ++ (user ++ codes ":wallet")

module _ (num : Numbers) where
  open num use {
    Float, float, add, mul, div, neg, le, lt, Numeric, to_numeric, to_float, minus, less,
  }

  abbrev pub zero_numeric : Numeric
  zero_numeric = to_numeric (zero_float num)

  -- SQL's GREATEST of two values.
  unfoldable pub greatest : Numeric → Numeric → Numeric
  greatest a b = if less a b then b else a

  unfoldable pub has_usage : Bytes → List (UsageRow num) → Bool
  has_usage k [] = false
  has_usage k (r ∷ rs) = bytes_eq r.idempotency_key k || has_usage k rs

  -- INSERT INTO usage_events … ON CONFLICT (idempotency_key) DO NOTHING
  unfoldable pub insert_usage : UsageRow num → Tables num → Result (Unit {0}) × Tables num
  insert_usage row t =
      if has_usage row.idempotency_key t.usage_events
      then (ok tt, t)
      else (ok tt, record t { usage_events = t.usage_events ++ row ∷ [] })

  unfoldable pub debit_wallet : Bytes → Float → WalletRow num → WalletRow num
  unfolding greatest
  debit_wallet user cost w =
      if bytes_eq w.user_id user
      then record w { balance_usd = greatest (minus w.balance_usd (to_numeric cost)) zero_numeric }
      else w

  -- UPDATE wallets SET balance_usd = GREATEST(balance_usd - $2, 0) WHERE user_id = $1
  unfoldable pub update_wallets : Bytes → Float → Tables num → Result (Unit {0}) × Tables num
  unfolding debit_wallet
  update_wallets user cost t =
      (ok tt, record t { wallets = map (debit_wallet user cost) t.wallets })

  -- INSERT INTO wallet_transactions
  unfoldable pub insert_transaction :
      Bytes → Float → Bytes → Tables num → Result (Unit {0}) × Tables num
  insert_transaction user amount reference t = (
    ok tt,
    record t {
      wallet_transactions =
          t.wallet_transactions
          ++ record { user_id = user; amount_usd = to_numeric amount; reference_id = reference }
            ∷ [];
    },
  )

  unfoldable pub find_user : Bytes → List (UserRow num) → Result (Option Numeric)
  find_user user [] = err no_rows
  find_user user (u ∷ us) =
      if bytes_eq u.id user then ok u.price_per_audio_minute_usd else find_user user us

  -- SELECT price_per_audio_minute_usd FROM users WHERE id = $1
  unfoldable pub select_price : Bytes → Tables num → Result (Option Numeric) × Tables num
  select_price user t = (find_user user t.users, t)

  module _ (vk : Valkey) (codec : Codec num) (default_ppm : Float) where
    open vk use {Store}

    -- The connections of a consumer.
    pub record World : Type 0 where
      pub redis : Store
      pub db : Db num

    -- The price in a cached snapshot, if there is one above zero.
    unfoldable pub cached_price : Result Bytes → Option Float
    cached_price (err e) = none
    cached_price (ok val) = elim (codec.unmarshal_price val) [
      | none ↦ none
      | some ppm ↦ if lt (zero_float num) ppm then some ppm else none
    ]

    unfoldable pub or_default : Option Numeric → Float
    or_default none = default_ppm
    or_default (some ppm) = to_float ppm

    -- `pricePerMinute`; its callers drop the price that comes with an error.
    unfoldable pub price_per_minute : Bytes → World → Result Float × World
    unfolding cached_price or_default
    price_per_minute user w =
        let (val, redis') = vk.get (wallet_key user) w.redis in
        elim (cached_price val) [
          | some ppm ↦ (ok ppm, record w { redis = redis' })
          | none ↦
              let (r, db') = exec (select_price user) w.db in
              let w' : World = record { redis = redis'; db = db' } in
              elim r [ err e ↦ (err e, w') | ok ppm ↦ (ok (or_default ppm), w') ]
        ]

    unfoldable pub cost_at : Event num → Float → Float
    cost_at e ppm = mul (div e.audio_seconds (float (pos 60))) ppm

    unfoldable pub usage_row : Bytes → Event num → Float → UsageRow num
    usage_row user e cost = record {
      user_id = user;
      idempotency_key = e.idempotency_key;
      request_id = e.request_id;
      transport = e.transport;
      audio_seconds = to_numeric e.audio_seconds;
      cost_usd = to_numeric cost;
      occurred_at = e.occurred_at;
    }

    -- The insertion of one event's row, and the total with its cost.
    unfoldable pub record_usage : Bytes → Event num → Float → Float → World → Result Float × World
    record_usage user e cost total w =
        let (r, db') = exec (insert_usage (usage_row user e cost)) w.db in
        let w' : World = record w { db = db' } in
        elim r [ err x ↦ (err x, w') | ok _ ↦ (ok (add total cost), w') ]

    -- One round of the loop in `debitUser`.
    unfoldable pub charge_event : Bytes → Event num → Float → World → Result Float × World
    unfolding record_usage
    charge_event user e total w =
        let (price, w') = price_per_minute user w in
        elim price [ err x ↦ (err x, w') | ok ppm ↦ record_usage user e (cost_at e ppm) total w' ]

    unfoldable pub charge_events : Bytes → List (Event num) → Float → World → Result Float × World
    charge_events user [] total w = (ok total, w)
    charge_events user (e ∷ es) total w =
        let (r, w') = charge_event user e total w in
        elim r [ err x ↦ (err x, w') | ok total' ↦ charge_events user es total' w' ]

    -- The debit once the total is known. The transaction's error and the cache's are dropped.
    unfoldable pub settle : Bytes → Bytes → Float → World → Result (Unit {0}) × World
    settle user reference total w =
        let (r, db') = exec (update_wallets user total) w.db in
        elim r [
          | err x ↦ (err x, record w { db = db' })
          | ok _ ↦
              let (_, db'') = exec (insert_transaction user (neg total) reference) db' in
              let (_, redis') = vk.del (wallet_key user) w.redis in
              (ok tt, record { redis = redis'; db = db'' })
        ]

    -- `events[0].RequestID`; a batch has at least one event.
    unfoldable pub first_request : List (Event num) → Bytes
    first_request [] = []
    first_request (e ∷ es) = e.request_id

    unfoldable pub debit_user : Bytes → List (Event num) → World → Result (Unit {0}) × World
    unfolding settle first_request
    debit_user user events w =
        let (r, w') = charge_events user events (zero_float num) w in
        elim r [
          | err x ↦ (err x, w')
          | ok total ↦
              if le total (zero_float num)
              then (ok tt, w')
              else settle user (first_request events) total w'
        ]

    pub record Consumer : Type 0 where
      pub world : World
      pub pending : List (Bytes × List (Event num))
      pub events_processed : ℕ
      pub debit_errors : ℕ

    unfoldable pub flush_user : Bytes × List (Event num) → Consumer → Consumer
    flush_user (user, events) c =
        let (r, w') = debit_user user events c.world in
        elim r [
          | err x ↦ record c { world = w'; debit_errors = c.debit_errors + 1 }
          | ok _ ↦ record c { world = w'; events_processed = c.events_processed + length events }
        ]

    unfoldable pub flush_batch : List (Bytes × List (Event num)) → Consumer → Consumer
    unfolding flush_user
    flush_batch [] c = c
    flush_batch (b ∷ batch) c = flush_batch batch (flush_user b c)

    unfoldable pub flush : Consumer → Consumer
    unfolding flush_batch
    flush c = flush_batch c.pending (record c { pending = [] })

    -- `c.pending[e.UserID]`, which is empty if it is missing.
    unfoldable pub pending_of : Bytes → Consumer → List (Event num)
    pending_of user c = elim (lookup user c.pending) [ none ↦ [] | some es ↦ es ]

    -- The callback of `QueueSubscribe`.
    unfoldable pub on_message : Bytes → Consumer → Consumer
    unfolding pending_of
    on_message msg c = elim (codec.unmarshal_event msg) [
      | none ↦ c
      | some e ↦ record c {
        pending = insert e.user_id (pending_of e.user_id c ++ e ∷ []) c.pending;
      }
    ]

    -- What happens to a running consumer, one thing at a time.
    pub data Happening : Type 0 where
      message : Bytes → Happening
      tick : Happening

    unfoldable pub step : Happening → Consumer → Consumer
    step (message msg) c = on_message msg c
    step tick c = flush c

    unfoldable pub run : List Happening → Consumer → Consumer
    unfolding step
    run [] c = c
    run (h ∷ hs) c = run hs (step h c)
