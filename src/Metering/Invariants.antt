-- ===== src/Metering/Invariants.antt =====
-- The ledger's invariants: no wallet goes below zero, and no idempotency key is recorded twice.
use tts_platform.Common.{
  ◌≡◌, refl, inl, inr, false, List, [], ◌∷◌, ◌++◌, map, Bytes, bytes_eq, bytes_eq_comm, All, arith,
  Bool-cases,
}
use tts_platform.Numbers.{Numbers, NumericLaws}
use tts_platform.Postgres.{Tables, UsageRow, WalletRow}
use tts_platform.Valkey.{Valkey}
use tts_platform.Metering.Consumer.{
  Codec, Consumer, zero_numeric, has_usage, insert_usage, debit_wallet, update_wallets,
  insert_transaction, Happening, run,
}
use tts_platform.Metering.Keeps.{run-keeps}

module _ (num : Numbers) where
  abbrev pub IsSolvent : Tables num → Type 0
  IsSolvent t = All (λ w. num.less w.balance_usd (zero_numeric num) ≡ false) t.wallets

  -- No key stands in two rows.
  abbrev pub HasUniqueKeys : List (UsageRow num) → Type 0
  HasUniqueKeys [] = Unit {0}
  HasUniqueKeys (r ∷ rs) = (has_usage num r.idempotency_key rs ≡ false) × HasUniqueKeys rs

  abbrev pub IsUnique : Tables num → Type 0
  IsUnique t = HasUniqueKeys t.usage_events

  debit_wallet-solvent :
      (laws : NumericLaws num) (user : Bytes) (cost : num.Float) (w : WalletRow num)
      → num.less w.balance_usd (zero_numeric num) ≡ false
      → num.less (debit_wallet num user cost w).balance_usd (zero_numeric num) ≡ false
  unfolding debit_wallet
  debit_wallet-solvent laws user cost w h = ground (arith, laws.less_irrefl (zero_numeric num))

  map-solvent :
      (laws : NumericLaws num) (user : Bytes) (cost : num.Float) (ws : List (WalletRow num))
      → All (λ w. num.less w.balance_usd (zero_numeric num) ≡ false) ws
      → All
          (λ w. num.less w.balance_usd (zero_numeric num) ≡ false)
          (map (debit_wallet num user cost) ws)
  map-solvent laws user cost [] h = tt
  map-solvent laws user cost (w ∷ ws) h =
      (debit_wallet-solvent laws user cost w h.0, map-solvent laws user cost ws h.1)

  -- A row with a new key, at the end.
  pub has_usage-concat :
      (k : Bytes) (rs : List (UsageRow num)) (row : UsageRow num)
      → has_usage num k rs ≡ false
      → bytes_eq row.idempotency_key k ≡ false
      → has_usage num k (rs ++ row ∷ []) ≡ false
  unfolding has_usage
  has_usage-concat k [] row h ne = rw ne
  has_usage-concat k (r ∷ rs) row h ne = ground (arith, has_usage-concat k rs row)

  concat-HasUniqueKeys :
      (rs : List (UsageRow num)) (row : UsageRow num)
      → has_usage num row.idempotency_key rs ≡ false
      → HasUniqueKeys rs
      → HasUniqueKeys (rs ++ row ∷ [])
  unfolding has_usage
  concat-HasUniqueKeys [] row new u = (refl, tt)
  concat-HasUniqueKeys (r ∷ rs) row new (u, us) = (
    has_usage-concat r.idempotency_key rs row u ground
        (arith, bytes_eq_comm r.idempotency_key row.idempotency_key),
    concat-HasUniqueKeys rs row (ground arith) us,
  )

  insert_usage-IsUnique :
      (row : UsageRow num) (t : Tables num) → IsUnique t → IsUnique (insert_usage num row t).1
  unfolding insert_usage
  insert_usage-IsUnique row t u =
      elim (Bool-cases (has_usage num row.idempotency_key t.usage_events)) [
        | inl old ↦ rw old u
        | inr new ↦ rw new (concat-HasUniqueKeys t.usage_events row new u)
      ]

-- No run of the consumer (messages and ticks in any order, any statement failing) takes a wallet
-- below zero, if none is below zero when it starts.
pub run-IsSolvent :
    (num : Numbers) (laws : NumericLaws num) (vk : Valkey) (codec : Codec num) (ppm : num.Float)
    (xs : List (Happening num vk codec ppm)) (c : Consumer num vk codec ppm)
    → IsSolvent num c.world.db.tables
    → IsSolvent num (run num vk codec ppm xs c).world.db.tables
unfolding insert_usage update_wallets insert_transaction
run-IsSolvent num laws vk codec ppm =
    run-keeps num vk codec ppm (IsSolvent num) (λ row t h. ground arith)
      (λ user cost t h. map-solvent num laws user cost t.wallets h) (λ user amount reference t h. h)

-- A run records no idempotency key twice, also if events are delivered again or statements fail.
pub run-IsUnique :
    (num : Numbers) (vk : Valkey) (codec : Codec num) (ppm : num.Float)
    (xs : List (Happening num vk codec ppm)) (c : Consumer num vk codec ppm)
    → IsUnique num c.world.db.tables
    → IsUnique num (run num vk codec ppm xs c).world.db.tables
unfolding update_wallets insert_transaction
run-IsUnique num vk codec ppm =
    run-keeps num vk codec ppm (IsUnique num) (insert_usage-IsUnique num) (λ user cost t u. u)
      (λ user amount reference t u. u)
