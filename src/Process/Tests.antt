-- ===== src/Process/Tests.antt =====
-- Both services at concrete inputs.
use tts_platform.Common.{◌≡◌, refl, none, true, List, [], ◌++◌, map, Bytes, All, codes}
use tts_platform.Common.Results.{ok}
use tts_platform.Numbers.Fixed.{fixed}
use tts_platform.Postgres.{empty_tables, exec}
use tts_platform.Valkey.Memory.{memory}
use tts_platform.Auth.Accounts.{World, create_api_key, generate_api_key}
use tts_platform.Auth.Statements.{user_by_name, insert_user, insert_wallet, insert_key}
use tts_platform.Auth.Token.{encode_hex}
use tts_platform.Auth.Handlers.{select_id, seed_user, ensure_default_user}
use tts_platform.Auth.Tests.{toy}
use tts_platform.Config.Load.{Config, load}
use tts_platform.Speech.Admission.{health_detail}
use tts_platform.Metering.Consumer.{Consumer, run}
use tts_platform.Metering.Ledger.{Posting, IsPriced, errors_of, processed_of, post_all, collected}
use tts_platform.Metering.Conserved.{events_for}
use tts_platform.Metering.Tests.{codec, price, world, consumer, delivered_twice}
use tts_platform.Process.Dial.{target_of, dial, dial_by, is_balanced, contains_text}
use tts_platform.Process.Boot.{
  Outside, changed, Serving, assemble, serving, seed, boot, steps, migrate, connect, first_fatal,
}
use tts_platform.Process.Restart.{boot_again}
use tts_platform.Process.Meter.{
  Settings, Links, metering_steps, new_consumer, metering, over, metering-Ledger,
}

-- A host's name goes by the resolver.
named : target_of (codes "inference:50051") ≡ codes "dns:///inference:50051"
unfolding target_of is_balanced contains_text
named = refl

-- The tables are those of the migrations already.
abbrev outside : Outside fixed
outside = record {
  source = none;
  migrator = λ u. none;
  up = λ t. (changed, t);
  pool = λ u. none;
  ping = none;
  nats = λ u. none;
  dial_context = λ t o. ok tt;
  health = ok (record { healthy = true; backend = codes "vllm" });
}

abbrev cfg : Config fixed
cfg = load fixed (λ b. none) (λ k. [])

abbrev empty : World fixed toy
empty = record { db = record { tables = empty_tables fixed; faults = [] }; random = 7 }

abbrev srv : Serving fixed
srv = assemble cfg (codes "sk-090909090909090909090909090909090909090909090909")

serves : (boot fixed toy outside cfg empty).0 ≡ serving srv
unfolding boot seed steps first_fatal migrate connect health_detail dial dial_by assemble load
    ensure_default_user select_id seed_user user_by_name insert_user insert_wallet insert_key
    create_api_key generate_api_key encode_hex exec
serves = refl

boot_again_example :
    let w' = (boot fixed toy outside cfg empty).1 in
    let (b, w'') = boot fixed toy outside cfg w' in
    (w''.db.tables ≡ w'.db.tables) × ((srv' : Serving fixed) → b ≡ serving srv' → srv'.new_key ≡ [])
boot_again_example = boot_again fixed toy outside outside cfg empty srv serves refl

abbrev links : Links
links = record { pool = λ u. none; nats = λ u. none; subscribe = λ s q. none }

abbrev local : Settings fixed
local = record { dsn = []; valkey = []; nats_url = []; default_price = price; port = [] }

abbrev ended : Consumer fixed memory codec price
ended = run fixed memory codec price delivered_twice consumer

metered : metering fixed memory codec links local world delivered_twice ≡ over ended
unfolding metering metering_steps first_fatal new_consumer
metered = refl

metering-Ledger_example :
    (ps : List (Posting fixed)) × All (IsPriced fixed) ps
    × ((user : Bytes)
        → collected fixed user (map (λ (p : Posting fixed). p.0) ps)
            ++ collected fixed user ended.pending
          ≡ events_for fixed memory codec price user delivered_twice)
    × (ended.world.db.tables.wallets ≡ post_all fixed memory codec price ps world.db.tables.wallets)
    × (ended.debit_errors ≡ errors_of fixed ps)
    × (ended.events_processed ≡ processed_of fixed ps)
metering-Ledger_example =
    metering-Ledger fixed memory codec links local world delivered_twice ended metered
