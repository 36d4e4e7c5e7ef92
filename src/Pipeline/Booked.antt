-- ===== src/Pipeline/Booked.antt =====
-- What a user's events come to, when one tick takes them and no statement fails.
use tts_platform.Common.{
  ◌+◌, ◌≡◌, refl, sym, ◌∙◌, subst, Option, List, [], ◌∷◌, ◌++◌, append-nil, map, Bytes, All, length,
  arith, if◌then◌else◌,
}
use tts_platform.Numbers.{Numbers, zero_float, AddLaws}
use tts_platform.Postgres.{WalletRow}
use tts_platform.Valkey.{Valkey}
use tts_platform.Billing.Event.{Event}
use tts_platform.Metering.Consumer.{
  Codec, Consumer, tick, debit_wallet, flush_user, flush_batch, flush, step, run,
}
use tts_platform.Metering.Debit.{total_of, debit_user-Debited}
use tts_platform.Metering.Prices.{ArePrices}
use tts_platform.Pipeline.Sent.{Reads}
use tts_platform.Pipeline.Taken.{IsHis, messages, run_batch}
use tts_platform.Pipeline.Sound.{IsSound, debit_user-Sound, rows_of, IsNew, record_all-New}

module _ (num : Numbers) (user : Bytes) where
  -- The wallets after a sum is due
  abbrev pub paid : num.Float → List (WalletRow num) → List (WalletRow num)
  paid due ws = if num.le due (zero_float num) then ws else map (debit_wallet num user due) ws

module _ (num : Numbers) (laws : AddLaws num) (vk : Valkey) (codec : Codec num) (ppm : num.Float)
    (user : Bytes) (p : Option num.Numeric) where
  -- A consumer has posted a user's events.
  abbrev pub HasBooked :
      List (Event num)
      → List num.Float
      → Consumer num vk codec ppm
      → Consumer num vk codec ppm
      → Type 0
  HasBooked es prices c c' =
      (c'.world.db.tables.usage_events
        ≡ c.world.db.tables.usage_events ++ rows_of num vk codec ppm user es prices)
      × (c'.world.db.tables.wallets
          ≡ paid num user (total_of num vk codec ppm es prices) c.world.db.tables.wallets)
      × (c'.events_processed ≡ c.events_processed + length es)
      × (c'.pending ≡ [])

  flush_user-HasBooked :
      (es : List (Event num)) (c : Consumer num vk codec ppm)
      → c.pending ≡ []
      → IsSound num vk codec ppm user p c.world
      → IsNew num vk codec ppm user c.world.db.tables.usage_events es
      → (prices : List num.Float) × (length prices ≡ length es)
        × ArePrices num vk codec ppm user c.world.db.tables.users c.world.redis prices
        × HasBooked es prices c (flush_user num vk codec ppm (user, es) c)
  unfolding flush_user
  flush_user-HasBooked es c none_wait sound new =
      let fine = debit_user-Sound num vk codec ppm user p es c.world sound in
      let (prices, len, priced, (usage, wallets)) =
        debit_user-Debited num vk codec ppm user es c.world fine in
      (
        prices,
        len,
        priced,
        (
          rw (fine, flush_user)
              (usage ∙ record_all-New num vk codec ppm user es prices c.world.db.tables new),
          rw (fine, flush_user) wallets,
          rw (fine, flush_user) refl,
          rw (fine, flush_user) none_wait,
        ),
      )

  pub run-HasBooked :
      (bs : List Bytes) (es : List (Event num)) (c : Consumer num vk codec ppm)
      → Reads num codec bs es
      → All (IsHis num user) es
      → IsSound num vk codec ppm user p c.world
      → IsNew num vk codec ppm user c.world.db.tables.usage_events es
      → let first : Consumer num vk codec ppm = record c { pending = [] } in
        (prices : List num.Float) × (length prices ≡ length es)
        × ArePrices num vk codec ppm user c.world.db.tables.users c.world.redis prices
        × HasBooked es prices first
            (run num vk codec ppm (messages num vk codec ppm user bs ++ tick ∷ []) first)
  unfolding run step flush flush_batch
  run-HasBooked [] [] c reads his sound new =
      ([], refl, tt, (sym (append-nil _), rw laws.zero_le refl, omega arith, refl))
  run-HasBooked [] (e ∷ es) c reads his sound new = absurd reads
  run-HasBooked (b ∷ bs) [] c reads his sound new = absurd reads
  run-HasBooked (b ∷ bs) (e ∷ es) c reads his sound new =
      let first : Consumer num vk codec ppm = record c { pending = [] } in
      subst
        (λ d.
          (prices : List num.Float) × (length prices ≡ length (e ∷ es))
          × ArePrices num vk codec ppm user c.world.db.tables.users c.world.redis prices
          × HasBooked (e ∷ es) prices first d)
        (sym (run_batch num vk codec ppm user b e bs es c reads his))
        (flush_user-HasBooked (e ∷ es) first refl sound new)
