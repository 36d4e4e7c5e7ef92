-- ===== src/Metering/Debit.antt =====
-- What a debit that succeeds has done to the ledger, and what one that fails leaves behind.
use tts_platform.Common.{
  suc, ◌≡◌, refl, ap, ◌∙◌, subst, inl, inr, List, [], ◌∷◌, map, foldl, Bytes, length, arith,
  Bool-cases, if◌then◌else◌,
}
use tts_platform.Common.Results.{ok, Result-cases}
use tts_platform.Numbers.{Numbers, zero_float}
use tts_platform.Postgres.{Tables, UsageRow, exec, exec-cases}
use tts_platform.Valkey.{Valkey}
use tts_platform.Billing.Event.{Event}
use tts_platform.Metering.Consumer.{
  Codec, World, insert_usage, debit_wallet, update_wallets, insert_transaction, price_per_minute,
  cost_at, usage_row, record_usage, charge_event, charge_events, settle, first_request, debit_user,
  wallet_key,
}
use tts_platform.Metering.Keeps.{price-tables}
use tts_platform.Metering.Prices.{IsPrice, ArePrices, price-redis, price_per_minute-IsPrice}

module _ (num : Numbers) (vk : Valkey) (codec : Codec num) (ppm : num.Float) where
  -- The cost of each event of a batch at the price that was looked up for it.
  abbrev pub charges : List (Event num) → List num.Float → List num.Float
  charges [] prices = []
  charges (e ∷ es) [] = []
  charges (e ∷ es) (p ∷ prices) = cost_at num vk codec ppm e p ∷ charges es prices

  abbrev pub total_of : List (Event num) → List num.Float → num.Float
  total_of es prices = foldl num.add (zero_float num) (charges es prices)

  -- The tables after the rows of a batch are inserted in order.
  abbrev pub record_all : Bytes → List (Event num) → List num.Float → Tables num → Tables num
  record_all user [] prices t = t
  record_all user (e ∷ es) [] t = t
  record_all user (e ∷ es) (p ∷ prices) t =
      record_all user es prices
        (insert_usage num (usage_row num vk codec ppm user e (cost_at num vk codec ppm e p)) t).1

  record_usage-ok :
      (user : Bytes) (e : Event num) (cost total total' : num.Float) (w : World num vk codec ppm)
      → (record_usage num vk codec ppm user e cost total w).0 ≡ ok total'
      → (total' ≡ num.add total cost)
        × ((record_usage num vk codec ppm user e cost total w).1.db.tables
            ≡ (insert_usage num (usage_row num vk codec ppm user e cost) w.db.tables).1)
  unfolding record_usage insert_usage
  record_usage-ok user e cost total total' w h =
      ground (arith, exec-cases (insert_usage num (usage_row num vk codec ppm user e cost)) w.db)

  record_usage-redis :
      (user : Bytes) (e : Event num) (cost total : num.Float) (w : World num vk codec ppm)
      → (record_usage num vk codec ppm user e cost total w).1.redis ≡ w.redis
  unfolding record_usage
  record_usage-redis user e cost total w = ground arith

  insert_usage-users :
      (row : UsageRow num) (t : Tables num) → (insert_usage num row t).1.users ≡ t.users
  unfolding insert_usage
  insert_usage-users row t = ground arith

  charge_event-ok :
      (user : Bytes) (e : Event num) (total total' : num.Float) (w : World num vk codec ppm)
      → (charge_event num vk codec ppm user e total w).0 ≡ ok total'
      → (p : num.Float) × (total' ≡ num.add total (cost_at num vk codec ppm e p))
        × IsPrice num vk codec ppm user (vk.get (wallet_key user) w.redis).0 w.db.tables.users p
        × ((charge_event num vk codec ppm user e total w).1.redis
            ≡ (vk.get (wallet_key user) w.redis).1)
        × ((charge_event num vk codec ppm user e total w).1.db.tables
            ≡ (insert_usage num
                (usage_row num vk codec ppm user e (cost_at num vk codec ppm e p))
                w.db.tables).1)
  unfolding charge_event
  charge_event-ok user e total total' w h =
      elim (Result-cases (price_per_minute num vk codec ppm user w).0) [
        | inl (p, q) ↦
            let r =
              record_usage-ok user e (cost_at num vk codec ppm e p) total total'
                (price_per_minute num vk codec ppm user w).1 (rw (q, charge_event) at h) in
            (
              p,
              r.0,
              price_per_minute-IsPrice num vk codec ppm user w p q,
              rw (q, charge_event)
                  (record_usage-redis user e (cost_at num vk codec ppm e p) total _
                    ∙ price-redis num vk codec ppm user w),
              rw (q, charge_event)
                  (r.1
                    ∙ ap
                        (λ t.
                          (insert_usage num
                            (usage_row num vk codec ppm user e (cost_at num vk codec ppm e p)) t).1)
                        (price-tables num vk codec ppm user w)),
            )
        | inr (x, q) ↦ absurd (cc (rw (q, charge_event) at h))
      ]

  -- The total and the tables of a loop that succeeds, for the prices that it looked up.
  abbrev pub Charged :
      Bytes → List (Event num) → num.Float → num.Float → vk.Store → Tables num → Tables num → Type 0
  Charged user es total total' redis t t' =
      (prices : List num.Float) × (length prices ≡ length es)
      × ArePrices num vk codec ppm user t.users redis prices
      × (total' ≡ foldl num.add total (charges es prices))
      × (t' ≡ record_all user es prices t)

  pub charge_events-ok :
      (user : Bytes) (es : List (Event num)) (total total' : num.Float) (w : World num vk codec ppm)
      → (charge_events num vk codec ppm user es total w).0 ≡ ok total'
      → Charged user es total total' w.redis w.db.tables
          (charge_events num vk codec ppm user es total w).1.db.tables
  unfolding charge_events
  charge_events-ok user [] total total' w h = ([], refl, tt, cc h, refl)
  charge_events-ok user (e ∷ es) total total' w h =
      elim (Result-cases (charge_event num vk codec ppm user e total w).0) [
        | inl (mid, q) ↦
            let (p, sum, priced, kept, tables) = charge_event-ok user e total mid w q in
            let (prices, len, all, sum', tables') =
              charge_events-ok user es mid total' (charge_event num vk codec ppm user e total w).1
                (rw (q, charge_events) at h) in
            (
              p ∷ prices,
              ap suc len,
              (
                priced,
                subst
                    (λ us.
                      ArePrices num vk codec ppm user us (vk.get (wallet_key user) w.redis).1
                        prices)
                    (ap (λ t. t.users) tables ∙ insert_usage-users _ w.db.tables)
                    (subst
                      (λ k.
                        ArePrices num vk codec ppm user
                          (charge_event num vk codec ppm user e total w).1.db.tables.users k prices)
                      kept all),
              ),
              sum' ∙ ap (λ a. foldl num.add a (charges es prices)) sum,
              rw (q, charge_events) (tables' ∙ ap (record_all user es prices) tables),
            )
        | inr (x, q) ↦ absurd (cc (rw (q, charge_events) at h))
      ]

  pub record_all-wallets :
      (user : Bytes) (es : List (Event num)) (prices : List num.Float) (t : Tables num)
      → (record_all user es prices t).wallets ≡ t.wallets
  unfolding insert_usage
  record_all-wallets user [] prices t = refl
  record_all-wallets user (e ∷ es) [] t = refl
  record_all-wallets user (e ∷ es) (p ∷ prices) t =
      record_all-wallets user es prices _ ∙ ground arith

  settle-ok :
      (user reference : Bytes) (total : num.Float) (w : World num vk codec ppm)
      → (settle num vk codec ppm user reference total w).0 ≡ ok tt
      → ((settle num vk codec ppm user reference total w).1.db.tables.wallets
          ≡ map (debit_wallet num user total) w.db.tables.wallets)
        × ((settle num vk codec ppm user reference total w).1.db.tables.usage_events
            ≡ w.db.tables.usage_events)
  unfolding settle update_wallets insert_transaction
  settle-ok user reference total w h = ground (
    arith,
    exec-cases (update_wallets num user total) w.db,
    exec-cases (insert_transaction num user (num.neg total) reference)
        (exec (update_wallets num user total) w.db).1,
  )

  -- What a successful debit leaves: the batch's rows, and the wallet less the total if it is due.
  abbrev pub Debited : Bytes → List (Event num) → List num.Float → Tables num → Tables num → Type 0
  Debited user es prices t t' =
      (t'.usage_events ≡ (record_all user es prices t).usage_events)
      × (t'.wallets ≡ (
          if num.le (total_of es prices) (zero_float num)
          then t.wallets
          else map (debit_wallet num user (total_of es prices)) t.wallets))

-- A debit that reports no error has found a price for each event of the batch, one after the other: the one in
-- Valkey's answer, if it is above zero, else that of the user's row, or the default, if the row has none. It has inserted
-- the row of each event whose key was not there, with its cost at that price, and has taken the sum
-- of all the costs, if that is above zero, from the user's wallet (down to zero at most), and from
-- no other.
pub debit_user-Debited :
    (num : Numbers) (vk : Valkey) (codec : Codec num) (ppm : num.Float) (user : Bytes)
    (es : List (Event num)) (w : World num vk codec ppm)
    → (debit_user num vk codec ppm user es w).0 ≡ ok tt
    → (prices : List num.Float) × (length prices ≡ length es)
      × ArePrices num vk codec ppm user w.db.tables.users w.redis prices
      × Debited num vk codec ppm user es prices w.db.tables
          (debit_user num vk codec ppm user es w).1.db.tables
unfolding debit_user
debit_user-Debited num vk codec ppm user es w h =
    elim (Result-cases (charge_events num vk codec ppm user es (zero_float num) w).0) [
      | inl (total, q) ↦
          let (prices, len, priced, sum, tables) =
            charge_events-ok num vk codec ppm user es (zero_float num) total w q in
          let same : (charge_events num vk codec ppm user es (zero_float num) w).1.db.tables.wallets
              ≡ w.db.tables.wallets =
            ap (λ t. t.wallets) tables
            ∙ record_all-wallets num vk codec ppm user es prices w.db.tables in
          elim (Bool-cases (num.le total (zero_float num))) [
            | inl nothing ↦ (
              prices,
              len,
              priced,
              (
                rw (q, debit_user, nothing) (ap (λ t. t.usage_events) tables),
                rw (q, debit_user, nothing, ← sum, nothing) same,
              ),
            )
            | inr due ↦
                let (wallets, usage) =
                  settle-ok num vk codec ppm user (first_request num vk codec ppm es) total
                    (charge_events num vk codec ppm user es (zero_float num) w).1
                    (rw (q, debit_user, due) at h) in
                (
                  prices,
                  len,
                  priced,
                  (
                    rw (q, debit_user, due) (usage ∙ ap (λ t. t.usage_events) tables),
                    rw (q, debit_user, due, ← sum, due)
                        (wallets ∙ ap (map (debit_wallet num user total)) same),
                  ),
                )
          ]
      | inr (x, q) ↦ absurd (cc (rw (q, debit_user) at h))
    ]
