-- ===== src/Process/Boot.antt =====
-- `main` of api/cmd/api/main.go up to the router, with `Migrate` and `Connect` of api/internal/db/db.go.
-- What the libraries answer is a parameter, and so is what the migrations make of the tables. That Valkey
-- answers no ping is logged only.
use tts_platform.Common.{Bool, true, Option, none, some, List, [], ◌∷◌, ◌++◌, Bytes, codes}
use tts_platform.Common.Int.{ℤ}
use tts_platform.Common.Results.{Error, Result, ok, err, failure}
use tts_platform.Numbers.{Numbers}
use tts_platform.Postgres.{Tables}
use tts_platform.Auth.Accounts.{Crypto, World}
use tts_platform.Auth.Handlers.{ensure_default_user}
use tts_platform.Config.Env.{redis_addr}
use tts_platform.Config.Load.{Config}
use tts_platform.RateLimit.Store.{Store}
use tts_platform.Speech.Admission.{Health, health_detail}
use tts_platform.Speech.Job.{message}
use tts_platform.Synth.Limiter.{Limiter, new}
use tts_platform.Process.Dial.{DialOption, dial}

-- What `m.Up()` answers
pub data Upgrade : Type 0 where
  changed : Upgrade
  no_change : Upgrade
  not_upgraded : Error → Upgrade

-- What the libraries answer, each `Option Error` an error or nil: `iofs.New`, `NewWithSourceInstance` and
-- `m.Up` of migrate with the tables that it leaves, `pgxpool.New` and the pool's ping, `nats.Connect`, `grpc.DialContext`, and the inference
-- service's health
pub record Outside (num : Numbers) : Type 0 where
  pub source : Option Error
  pub migrator : Bytes → Option Error
  pub up : Tables num → Upgrade × Tables num
  pub pool : Bytes → Option Error
  pub ping : Option Error
  pub nats : Bytes → Option Error
  pub dial_context : Bytes → List DialOption → Result (Unit {0})
  pub health : Result Health

-- `fmt.Errorf` with an error at its end
abbrev pub wrapped : Bytes → Error → Error
wrapped text e = failure (text ++ message e)

abbrev pub upgraded : Upgrade → Option Error
upgraded changed = none
upgraded no_change = none
upgraded (not_upgraded e) = some e

-- The first of two steps that fails
abbrev pub or_then : Option Error → Option Error → Option Error
or_then (some e) later = some e
or_then none later = later

abbrev pub map_error : (Error → Error) → Option Error → Option Error
map_error f none = none
map_error f (some e) = some (f e)

-- `Migrate`, with the tables that it leaves
unfoldable pub migrate :
    {num : Numbers} → Outside num → Bytes → Tables num → Option Error × Tables num
migrate o url t = elim o.source [
  | some e ↦ (some e, t)
  | none ↦ elim (o.migrator url) [
    | some e ↦ (some e, t)
    | none ↦ let (answer, t') = o.up t in (upgraded answer, t')
  ]
]

-- `Connect`
unfoldable pub connect : {num : Numbers} → Outside num → Bytes → Option Error
connect o url =
    or_then (map_error (wrapped (codes "pgx pool: ")) (o.pool url))
      (map_error (wrapped (codes "postgres ping: ")) o.ping)

abbrev pub error_of {ℓ} : {A : Type ℓ} → Result A → Option Error
error_of (ok a) = none
error_of (err e) = some e

-- The steps before the default user, in order, each with the text that `log.Fatalf` puts before its error
unfoldable pub steps :
    {num : Numbers} → Outside num → Config num → Tables num → List (Bytes × Option Error)
unfolding migrate connect
steps o cfg t =
    (codes "migrate: ", (migrate o cfg.database_url t).0)
    ∷ (codes "db: ", connect o cfg.database_url)
    ∷ (codes "nats: ", o.nats cfg.nats_url)
    ∷ (
      codes "inference grpc dial " ++ (cfg.inference_grpc_addr ++ codes ": "),
      error_of (dial o.dial_context cfg.inference_grpc_addr),
    )
    ∷ (
      codes "inference grpc health " ++ (cfg.inference_grpc_addr ++ codes ": "),
      (health_detail o.health).2,
    )
    ∷ []

-- The text of the first step that fails
unfoldable pub first_fatal : List (Bytes × Option Error) → Option Bytes
first_fatal [] = none
first_fatal ((label, none) ∷ rest) = first_fatal rest
first_fatal ((label, some e) ∷ rest) = some (label ++ message e)

-- The process as it begins to serve: the parts of `Server`, of `LiveHandler` and of what they share, the
-- address to listen on, and the key that is logged
pub record Serving (num : Numbers) : Type 0 where
  pub cfg : Config num
  pub valkey : Bytes
  pub listen : Bytes
  pub default_price : num.Float
  pub synth : Limiter
  pub limits : Store
  pub coalesce : ℤ
  pub refresh : ℤ
  pub has_gauge : Bool
  pub new_key : Bytes

unfoldable pub assemble : {num : Numbers} → Config num → Bytes → Serving num
assemble cfg key = record {
  cfg = cfg;
  valkey = redis_addr cfg.valkey_url;
  listen = codes ":" ++ cfg.api_port;
  default_price = cfg.platform_default_price_per_minute;
  synth = new cfg.max_concurrent_synthesis;
  limits = record {
    has_redis = true;
    has_pool = true;
    defaults = record {
      rpm = cfg.rate_limit_rpm;
      rph = cfg.rate_limit_rph;
      rpd = cfg.rate_limit_rpd;
    };
  };
  coalesce = cfg.billing_coalesce;
  refresh = cfg.delivery_refresh_ws;
  has_gauge = cfg.metrics_wallet_per_user;
  new_key = key;
}

pub data Boot (num : Numbers) : Type 0 where
  fatal : Bytes → Boot num
  serving : Serving num → Boot num

module _ (num : Numbers) (crypto : Crypto) where
  unfoldable pub seed : Config num → World num crypto → Boot num × World num crypto
  unfolding assemble
  seed cfg w =
      let (r, w') =
        ensure_default_user num crypto cfg.default_username cfg.default_password
          cfg.default_wallet_usd cfg.platform_default_price_per_minute w in
      (
        elim r [
          | err e ↦ fatal (codes "seed user: " ++ message e)
          | ok (id, key) ↦ serving (assemble cfg key)
        ],
        w',
      )

  -- The database that `Migrate` leaves
  abbrev pub migrated : Outside num → Config num → World num crypto → World num crypto
  migrated o cfg w = record w {
    db = record w.db { tables = (migrate o cfg.database_url w.db.tables).1 };
  }

  unfoldable pub boot : Outside num → Config num → World num crypto → Boot num × World num crypto
  unfolding first_fatal steps seed
  boot o cfg w = elim (first_fatal (steps o cfg w.db.tables)) [
    | some text ↦ (fatal text, migrated o cfg w)
    | none ↦ seed cfg (migrated o cfg w)
  ]
