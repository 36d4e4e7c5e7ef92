-- ===== src/Wallet/Reads.antt =====
-- Reading a wallet (`Get` of api/internal/cache/wallet.go) leaves the tables as they are.
use tts_platform.Common.{◌≡◌, refl, inl, inr, ap, Bytes, Option-cases}
use tts_platform.Common.Results.{Result-cases}
use tts_platform.Numbers.{Numbers}
use tts_platform.Postgres.{Db, exec-cases}
use tts_platform.Valkey.{Valkey}
use tts_platform.Wallet.Cache.{
  Codec, Group, World, wallet_key, select_wallet, load_db, from_l2, load_and_keep, load_l2_or_db,
  getter, group_get, has_balance, get,
}

load_db-tables :
    (num : Numbers) (def_ppm : num.Float) (user : Bytes) (db : Db num)
    → (load_db num def_ppm user db).1.tables ≡ db.tables
unfolding load_db select_wallet
load_db-tables num def_ppm user db = elim (exec-cases (select_wallet num user) db) [
  | inl (rest, e) ↦ ap (λ o. o.1.tables) e
  | inr (x, rest, e) ↦ ap (λ o. o.1.tables) e
]

module _ (num : Numbers) (vk : Valkey) (group : Group) (codec : Codec num)
    (def_ppm : num.Float) where
  load_and_keep-tables :
      (user : Bytes) (w : World num vk group)
      → (load_and_keep num vk group codec def_ppm user w).1.db.tables ≡ w.db.tables
  unfolding load_and_keep
  load_and_keep-tables user w = elim (Result-cases (load_db num def_ppm user w.db).0) [
    | inl (snap, fine) ↦ rw (fine, load_and_keep) (load_db-tables num def_ppm user w.db)
    | inr (e, bad) ↦ rw (bad, load_and_keep) (load_db-tables num def_ppm user w.db)
  ]

  load_l2_or_db-tables :
      (user : Bytes) (w : World num vk group)
      → (load_l2_or_db num vk group codec def_ppm user w).1.db.tables ≡ w.db.tables
  unfolding load_l2_or_db
  load_l2_or_db-tables user w =
      let w' : World num vk group = record w { redis = (vk.get (wallet_key user) w.redis).1 } in
      elim (Option-cases (from_l2 num codec (vk.get (wallet_key user) w.redis).0)) [
        | inl missed ↦ rw (missed, load_l2_or_db) (load_and_keep-tables user w')
        | inr (snap, found) ↦ rw (found, load_l2_or_db) refl
      ]

  getter-tables :
      (key : Bytes) (w : World num vk group)
      → (getter num vk group codec def_ppm key w).1.db.tables ≡ w.db.tables
  unfolding getter
  getter-tables key w = elim (Result-cases (codec.parse_uuid key)) [
    | inr (e, bad) ↦ rw (bad, getter) refl
    | inl (user, fine) ↦ elim (Result-cases (load_l2_or_db num vk group codec def_ppm user w).0) [
      | inl (snap, found) ↦ rw (fine, getter, found) (load_l2_or_db-tables user w)
      | inr (e, lost) ↦ rw (fine, getter, lost) (load_l2_or_db-tables user w)
    ]
  ]

  group_get-tables :
      (key : Bytes) (w : World num vk group)
      → (group_get num vk group codec def_ppm key w).1.db.tables ≡ w.db.tables
  unfolding group_get
  group_get-tables key w =
      let w' : World num vk group = record w { cache = (group.lookup key w.cache).1 } in
      elim (Option-cases (group.lookup key w.cache).0) [
        | inr (b, hit) ↦ rw (hit, group_get) refl
        | inl missed ↦ elim (Result-cases (getter num vk group codec def_ppm key w').0) [
          | inl (b, found) ↦ rw (missed, group_get, found) (getter-tables key w')
          | inr (e, lost) ↦ rw (missed, group_get, lost) (getter-tables key w')
        ]
      ]

  pub get-tables :
      (user : Bytes) (w : World num vk group)
      → (get num vk group codec def_ppm user w).1.db.tables ≡ w.db.tables
  unfolding get
  get-tables user w = group_get-tables user w

  pub has_balance-tables :
      (user : Bytes) (w : World num vk group)
      → (has_balance num vk group codec def_ppm user w).1.db.tables ≡ w.db.tables
  unfolding has_balance
  has_balance-tables user w = get-tables user w
