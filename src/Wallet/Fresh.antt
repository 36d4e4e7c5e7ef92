-- ===== src/Wallet/Fresh.antt =====
-- What `Refresh` and `HasBalance` say about the wallet in the database.
use tts_platform.Common.{
  ◌≡◌, refl, sym, ap, ◌∙◌, inl, inr, Option, none, some, List, [], ◌∷◌, Bytes, arith, map,
}
use tts_platform.Common.Results.{Error, ok, err, Result-cases}
use tts_platform.Numbers.{Numbers}
use tts_platform.Postgres.{exec-cases, WalletRow, UserRow}
use tts_platform.Valkey.{Valkey, ValkeyLaws}
use tts_platform.Metering.Consumer.{debit_wallet, update_wallets, greatest, zero_numeric}
use tts_platform.Wallet.Cache.{
  WalletSnapshot, Codec, Group, World, wallet_key, find_wallet, select_wallet, snapshot_of, load_db,
  from_l2, load_and_keep, load_l2_or_db, invalidate, refresh,
}

-- The services name a wallet's entry in Valkey alike, so the debit of the one drops the copy of the
-- other.
pub wallet_key-agrees :
    (user : Bytes) → wallet_key user ≡ tts_platform.Metering.Consumer.wallet_key user
unfolding wallet_key
wallet_key-agrees user = refl

module _ {num : Numbers} where
  -- A debit shows in the row that the join finds.
  find_wallet-debit :
      (user : Bytes) (cost : num.Float) (us : List (UserRow num)) (ws : List (WalletRow num))
      (balance : num.Numeric) (price : Option num.Numeric)
      → find_wallet user us ws ≡ ok (balance, price)
      → find_wallet user us (map (debit_wallet num user cost) ws)
        ≡ ok (greatest num (num.minus balance (num.to_numeric cost)) (zero_numeric num), price)
  unfolding find_wallet debit_wallet
  find_wallet-debit user cost us [] balance price h = cc
  find_wallet-debit user cost us (w ∷ ws) balance price h =
      ground (arith, find_wallet-debit user cost us ws balance price)

module _ (num : Numbers) (vk : Valkey) (group : Group) (codec : Codec num)
    (def_ppm : num.Float) where
  load_and_keep-fresh :
      (user : Bytes) (w : World num vk group) (snap : WalletSnapshot num)
      → (load_and_keep num vk group codec def_ppm user w).0 ≡ ok snap
      → (row : num.Numeric × Option num.Numeric) × (find_wallet user w.db.tables.users
            w.db.tables.wallets
          ≡ ok row)
        × (snap ≡ snapshot_of num def_ppm row)
  unfolding load_and_keep load_db select_wallet
  load_and_keep-fresh user w snap h =
      elim (Result-cases (find_wallet user w.db.tables.users w.db.tables.wallets)) [
        | inl (row, found) ↦ (row, found, ground (arith, exec-cases (select_wallet num user) w.db))
        | inr (e, missing) ↦ absurd (ground (arith, exec-cases (select_wallet num user) w.db))
      ]

  -- A copy that is not there leaves the answer to the database.
  load_l2_or_db-missed :
      (user : Bytes) (w : World num vk group) (e : Error)
      → (vk.get (wallet_key user) w.redis).0 ≡ err e
      → load_l2_or_db num vk group codec def_ppm user w
        ≡ load_and_keep num vk group codec def_ppm user
            (record w { redis = (vk.get (wallet_key user) w.redis).1 })
  unfolding load_l2_or_db from_l2
  load_l2_or_db-missed user w e missed = rw (load_l2_or_db, missed) refl

-- If Valkey acknowledges the deletion of the copy, what `Refresh` answers without an error is the
-- balance that the database has at that time, with the user's price or the default one.
refresh-fresh :
    (num : Numbers) (vk : Valkey) (laws : ValkeyLaws vk) (group : Group) (codec : Codec num)
    (def_ppm : num.Float) (user : Bytes) (w : World num vk group) (snap : WalletSnapshot num)
    → (vk.del (wallet_key user) w.redis).0 ≡ ok tt
    → (refresh num vk group codec def_ppm user w).0 ≡ ok snap
    → (row : num.Numeric × Option num.Numeric) × (find_wallet user w.db.tables.users
          w.db.tables.wallets
        ≡ ok row)
      × (snap ≡ snapshot_of num def_ppm row)
unfolding refresh load_l2_or_db from_l2 invalidate
refresh-fresh num vk laws group codec def_ppm user w snap gone h =
    let (e, missed) = laws.get-del (wallet_key user) w.redis gone in
    load_and_keep-fresh num vk group codec def_ppm user
      (record (invalidate num vk group codec def_ppm user w) {
        redis = (vk.get (wallet_key user) (vk.del (wallet_key user) w.redis).1).1;
      })
      snap
      (sym (
          ap (λ r. r.0)
            (load_l2_or_db-missed num vk group codec def_ppm user
              (invalidate num vk group codec def_ppm user w) e missed))
        ∙ h)

-- If the metering service has debited the wallet in the database, and Valkey acknowledges the deletion
-- of the copy, then the balance that `Refresh` answers without an error is the one after the debit.
pub refresh-debited :
    (num : Numbers) (vk : Valkey) (laws : ValkeyLaws vk) (group : Group) (codec : Codec num)
    (def_ppm : num.Float) (user : Bytes) (cost : num.Float) (w : World num vk group)
    (balance : num.Numeric) (price : Option num.Numeric) (snap : WalletSnapshot num)
    → find_wallet user w.db.tables.users w.db.tables.wallets ≡ ok (balance, price)
    → (vk.del (wallet_key user) w.redis).0 ≡ ok tt
    → let w' : World num vk group = record w {
      db = record w.db { tables = (update_wallets num user cost w.db.tables).1 };
    } in
      (refresh num vk group codec def_ppm user w').0 ≡ ok snap
      → snap.balance_usd
        ≡ num.to_float (greatest num (num.minus balance (num.to_numeric cost)) (zero_numeric num))
unfolding update_wallets snapshot_of
refresh-debited num vk laws group codec def_ppm user cost w balance price snap found gone h =
    let ((b, p), at_time, is) =
      refresh-fresh num vk laws group codec def_ppm user
        (record w { db = record w.db { tables = (update_wallets num user cost w.db.tables).1 } })
        snap gone h in
    snapshot-balance b p is
    ∙ ap num.to_float (
        cc (
          sym at_time
          ∙ find_wallet-debit user cost w.db.tables.users w.db.tables.wallets balance price found))
  where
    snapshot-balance :
        (b : num.Numeric) (p : Option num.Numeric)
        → snap ≡ snapshot_of num def_ppm (b, p)
        → snap.balance_usd ≡ num.to_float b
    snapshot-balance b none e = ap (λ s. s.balance_usd) e
    snapshot-balance b (some x) e = ap (λ s. s.balance_usd) e
