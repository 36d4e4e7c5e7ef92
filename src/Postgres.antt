-- ===== src/Postgres.antt =====
-- The database that both services use: the tables of api/internal/db/migrations, and a connection
-- on which any statement may fail. What a statement does is written where the code has its SQL.
use tts_platform.Common.{◌≡◌, refl, ◌⊎◌, inl, inr, Bool, Option, none, some, List, [], ◌∷◌, Bytes}
use tts_platform.Common.Int.{ℤ}
use tts_platform.Common.Results.{Result, err, failure}
use tts_platform.Numbers.{Numbers}

-- A row of `users`. A UUID is its canonical text.
pub record UserRow (num : Numbers) : Type 0 where
  pub id : Bytes
  pub username : Bytes
  pub password_hash : Bytes
  pub price_per_audio_minute_usd : Option num.Numeric

pub record ApiKeyRow : Type 0 where
  pub id : Bytes
  pub user_id : Bytes
  pub key_prefix : Bytes
  pub key_hash : Bytes
  pub revoked : Bool

pub record WalletRow (num : Numbers) : Type 0 where
  pub user_id : Bytes
  pub balance_usd : num.Numeric

pub record TransactionRow (num : Numbers) : Type 0 where
  pub user_id : Bytes
  pub amount_usd : num.Numeric
  pub reference_id : Bytes

pub record UsageRow (num : Numbers) : Type 0 where
  pub user_id : Bytes
  pub idempotency_key : Bytes
  pub request_id : Bytes
  pub transport : Bytes
  pub audio_seconds : num.Numeric
  pub cost_usd : num.Numeric
  pub occurred_at : ℤ

pub data JobStatus : Type 0 where
  pending : JobStatus
  running : JobStatus
  completed : JobStatus
  failed : JobStatus

pub record JobRow : Type 0 where
  pub id : Bytes
  pub user_id : Bytes
  pub status : JobStatus
  pub input : Bytes
  pub voice : Bytes
  pub audio_data : Option Bytes
  pub error : Option Bytes

pub record LimitRow : Type 0 where
  pub user_id : Bytes
  pub rpm : ℤ
  pub rph : ℤ
  pub rpd : ℤ

pub record Tables (num : Numbers) : Type 0 where
  pub users : List (UserRow num)
  pub api_keys : List ApiKeyRow
  pub wallets : List (WalletRow num)
  pub wallet_transactions : List (TransactionRow num)
  pub usage_events : List (UsageRow num)
  pub tts_jobs : List JobRow
  pub user_rate_limits : List LimitRow

abbrev pub empty_tables : (num : Numbers) → Tables num
empty_tables num = record {
  users = [];
  api_keys = [];
  wallets = [];
  wallet_transactions = [];
  usage_events = [];
  tts_jobs = [];
  user_rate_limits = [];
}

-- The tables, and what will come of the statements to follow: `some e` is one that fails with the text `e`
-- (the connection, a cast, a constraint) and changes nothing. Past the end all succeed.
pub record Db (num : Numbers) : Type 0 where
  pub tables : Tables num
  pub faults : List (Option Bytes)

module _ {num : Numbers} {A : Type 0} where
  -- One statement, run in its own transaction.
  unfoldable pub exec : (Tables num → Result A × Tables num) → Db num → Result A × Db num
  exec stmt db = elim db.faults [
    | [] ↦ let (r, t) = stmt db.tables in (r, record { tables = t; faults = [] })
    | f ∷ rest ↦ elim f [
      | none ↦ let (r, t) = stmt db.tables in (r, record { tables = t; faults = rest })
      | some e ↦ (err (failure e), record db { faults = rest })
    ]
  ]

  -- A statement either is run or leaves the tables as they are, and then it reports an error.
  pub exec-cases :
      (stmt : Tables num → Result A × Tables num) (db : Db num)
      → ((rest : List (Option Bytes)) × (exec stmt db
            ≡ ((stmt db.tables).0, record { tables = (stmt db.tables).1; faults = rest })))
        ⊎ ((e : Bytes) × (rest : List (Option Bytes)) × (exec stmt db
              ≡ (err (failure e), record db { faults = rest })))
  unfolding exec
  exec-cases stmt db = go db.faults refl
    where
      go :
          (fs : List (Option Bytes))
          → db.faults ≡ fs
          → ((rest : List (Option Bytes)) × (exec stmt db
                ≡ ((stmt db.tables).0, record { tables = (stmt db.tables).1; faults = rest })))
            ⊎ ((e : Bytes) × (rest : List (Option Bytes)) × (exec stmt db
                  ≡ (err (failure e), record db { faults = rest })))
      go [] e = inl ([], rw (e, exec))
      go (none ∷ rest) e = inl (rest, rw (e, exec))
      go (some x ∷ rest) e = inr (x, rest, rw (e, exec))

  -- What a statement reports is its own answer, or the fault that is next.
  pub exec-answers :
      (stmt : Tables num → Result A × Tables num) (db : Db num)
      → ((exec stmt db).0 ≡ (stmt db.tables).0)
        ⊎ ((e : Bytes) × (rest : List (Option Bytes)) × (db.faults ≡ some e ∷ rest)
            × ((exec stmt db).0 ≡ err (failure e)))
  unfolding exec
  exec-answers stmt db = go db.faults refl
    where
      go :
          (fs : List (Option Bytes))
          → db.faults ≡ fs
          → ((exec stmt db).0 ≡ (stmt db.tables).0)
            ⊎ ((e : Bytes) × (rest : List (Option Bytes)) × (db.faults ≡ some e ∷ rest)
                × ((exec stmt db).0 ≡ err (failure e)))
      go [] h = inl (rw (h, exec) refl)
      go (none ∷ rest) h = inl (rw (h, exec) refl)
      go (some x ∷ rest) h = inr (x, rest, h, rw (h, exec) refl)

-- What every statement of a kind keeps, a call keeps that may also fail.
pub exec-keeps {ℓ} :
    {num : Numbers} {A : Type 0} (P : Tables num → Type ℓ)
    (stmt : Tables num → Result A × Tables num) (db : Db num)
    → ((t : Tables num) → P t → P (stmt t).1)
    → P db.tables
    → P (exec stmt db).1.tables
exec-keeps P stmt db keep h = elim (exec-cases stmt db) [
  | inl (rest, e) ↦ rw e (keep db.tables h)
  | inr (x, rest, e) ↦ rw e h
]
