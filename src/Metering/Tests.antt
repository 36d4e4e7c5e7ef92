-- ===== src/Metering/Tests.antt =====
-- The metering consumer at concrete inputs, in millionths of a dollar.
use tts_platform.Common.{◌≡◌, refl, none, some, List, [], ◌∷◌, map, codes, length, if◌then◌else◌}
use tts_platform.Common.Int.{ℤ, pos, ◌+ℤ◌, ◌-ℤ◌, ◌*ℤ◌, div_ℤ, leb_ℤ}
use tts_platform.Common.Results.{err, failure}
use tts_platform.Numbers.{zero_float}
use tts_platform.Numbers.Fixed.{fixed}
use tts_platform.Numbers.Laws.{fixed_numeric_laws}
use tts_platform.Postgres.{Tables, exec, empty_tables}
use tts_platform.Valkey.Memory.{memory, empty_memory}
use tts_platform.Billing.Event.{Event}
use tts_platform.Metering.Consumer.{
  Codec, World, Consumer, Happening, message, tick, debit_user, debit_wallet, charge_events, run,
  has_usage, insert_usage, update_wallets, insert_transaction, price_per_minute, charge_event,
  usage_row, cost_at, flush, on_message, select_price, find_user,
}
use tts_platform.Metering.Invariants.{IsSolvent, IsUnique, run-IsSolvent, run-IsUnique}
use tts_platform.Metering.Redelivered.{debit_user_again, debit_user_lost}
use tts_platform.Metering.Prices.{ArePrices}
use tts_platform.Metering.Debit.{Debited, total_of, record_all, debit_user-Debited}

-- A minute of audio for user u1.
abbrev pub event : Event fixed
event = record {
  idempotency_key = codes "r1:1";
  user_id = codes "u1";
  request_id = codes "r1";
  transport = codes "http_stream";
  audio_seconds = pos 60_000_000;
  occurred_at = pos 5;
}

abbrev pub codec : Codec fixed
codec = record { unmarshal_event = λ b. some event; unmarshal_price = λ b. none }

abbrev pub price : ℤ
price = pos 50_000

abbrev pub tables : Tables fixed
tables = record (empty_tables fixed) {
  users =
      record {
        id = codes "u1";
        username = codes "dev";
        password_hash = [];
        price_per_audio_minute_usd = none;
      }
      ∷ [];
  wallets = record { user_id = codes "u1"; balance_usd = pos 80_000 } ∷ [];
}

abbrev pub world : World fixed memory codec price
world = record { redis = empty_memory; db = record { tables = tables; faults = [] } }

abbrev pub consumer : Consumer fixed memory codec price
consumer = record { world = world; pending = []; events_processed = 0; debit_errors = 0 }

abbrev pub delivered_twice : List (Happening fixed memory codec price)
delivered_twice = message [] ∷ tick ∷ message [] ∷ tick ∷ []

-- The same event twice leaves one row, and the wallet pays twice: 80000, 30000, 0.
charged_twice :
    let t = (run fixed memory codec price delivered_twice consumer).world.db.tables in
    (length t.usage_events ≡ 1)
    × (t.wallets ≡ record { user_id = codes "u1"; balance_usd = pos 0 } ∷ [])
unfolding run flush on_message debit_user charge_events charge_event price_per_minute select_price
    find_user insert_usage has_usage update_wallets insert_transaction usage_row cost_at exec
    debit_wallet ◌+ℤ◌ ◌-ℤ◌ ◌*ℤ◌ div_ℤ
charged_twice = (refl, refl)

run-IsSolvent_example :
    IsSolvent fixed (run fixed memory codec price delivered_twice consumer).world.db.tables
unfolding ◌*ℤ◌
run-IsSolvent_example =
    run-IsSolvent fixed fixed_numeric_laws memory codec price delivered_twice consumer (refl, tt)

run-IsUnique_example :
    IsUnique fixed (run fixed memory codec price delivered_twice consumer).world.db.tables
run-IsUnique_example = run-IsUnique fixed memory codec price delivered_twice consumer tt

debit_user-Debited_example :
    (prices : List ℤ) × (length prices ≡ 1)
    × ArePrices fixed memory codec price (codes "u1") tables.users world.redis prices
    × Debited fixed memory codec price
        (codes "u1")
        (event ∷ [])
        prices
        tables
        (debit_user fixed memory codec price (codes "u1") (event ∷ []) world).1.db.tables
unfolding debit_user charge_events charge_event price_per_minute select_price find_user insert_usage
    has_usage update_wallets insert_transaction usage_row cost_at exec debit_wallet ◌+ℤ◌ ◌-ℤ◌ ◌*ℤ◌
    div_ℤ
debit_user-Debited_example =
    debit_user-Debited fixed memory codec price (codes "u1") (event ∷ []) world refl

-- The event's row is there already.
abbrev recorded : World fixed memory codec price
recorded = record world {
  db = record {
    tables = record tables {
      usage_events =
          record {
            user_id = codes "u1";
            idempotency_key = codes "r1:1";
            request_id = codes "r1";
            transport = codes "http_stream";
            audio_seconds = pos 60_000_000;
            cost_usd = pos 50_000;
            occurred_at = pos 5;
          }
          ∷ [];
    };
    faults = [];
  };
}

debit_user_again_example :
    let t = (debit_user fixed memory codec price (codes "u1") (event ∷ []) recorded).1.db.tables in
    (prices : List ℤ) × (length prices ≡ 1)
    × (t.usage_events ≡ recorded.db.tables.usage_events)
    × (t.wallets ≡ (
        if leb_ℤ (total_of fixed memory codec price (event ∷ []) prices) (zero_float fixed)
        then recorded.db.tables.wallets
        else map
            (debit_wallet fixed
              (codes "u1")
              (total_of fixed memory codec price (event ∷ []) prices))
            recorded.db.tables.wallets))
unfolding debit_user charge_events charge_event price_per_minute select_price find_user insert_usage
    has_usage update_wallets insert_transaction usage_row cost_at exec debit_wallet ◌+ℤ◌ ◌-ℤ◌ ◌*ℤ◌
    div_ℤ
debit_user_again_example =
    debit_user_again fixed memory codec price (codes "u1") (event ∷ []) recorded (refl, tt) refl

-- The connection is lost before the wallet's update.
abbrev failing : World fixed memory codec price
failing = record world {
  db = record { tables = tables; faults = none ∷ none ∷ some (codes "conn closed") ∷ [] };
}

debit_user_lost_example :
    let (r, w') = debit_user fixed memory codec price (codes "u1") (event ∷ []) failing in
    (prices : List ℤ) × (length prices ≡ 1)
    × (r ≡ err (failure (codes "conn closed")))
    × (w'.db.tables ≡ record_all fixed memory codec price (codes "u1") (event ∷ []) prices tables)
    × (w'.db.tables.wallets ≡ tables.wallets)
unfolding charge_events charge_event price_per_minute select_price find_user insert_usage has_usage
    usage_row cost_at exec ◌+ℤ◌ ◌*ℤ◌ div_ℤ
debit_user_lost_example =
    debit_user_lost fixed memory codec price (codes "u1") (event ∷ []) failing (pos 50_000)
      (codes "conn closed") [] refl refl refl
