-- ===== src/Wallet/Cache.antt =====
-- api/internal/cache/wallet.go: a user's balance and price, in the process (groupcache), in Valkey
-- and in Postgres. The counter of misses is left out.
use tts_platform.Common.{
  Bool, Option, none, some, List, [], ◌∷◌, ◌++◌, Bytes, codes, bytes_eq, if◌then◌else◌,
}
use tts_platform.Common.Int.{ℤ, pos}
use tts_platform.Common.Results.{Error, Result, ok, err, no_rows, failure}
use tts_platform.Numbers.{Numbers, zero_float}
use tts_platform.Postgres.{Tables, Db, exec, UserRow, WalletRow}
use tts_platform.Valkey.{Valkey}

pub record WalletSnapshot (num : Numbers) : Type 0 where
  pub balance_usd : num.Float
  pub price_per_audio_minute_usd : num.Float

-- `json.Marshal` and `json.Unmarshal` of a snapshot, and `uuid.Parse`.
pub record Codec (num : Numbers) : Type 0 where
  pub marshal : WalletSnapshot num → Result Bytes
  pub unmarshal : Bytes → Option (WalletSnapshot num)
  pub parse_uuid : Bytes → Result Bytes

-- A group of groupcache: what it holds for a key, what a successful getter leaves in it, and the
-- removal of a key.
pub record Group : Type 1 where
  pub Cache : Type 0
  pub lookup : Bytes → Cache → Option Bytes × Cache
  pub fill : Bytes → Bytes → Cache → Cache
  pub remove : Bytes → Cache → Result (Unit {0}) × Cache

abbrev pub bad_json : Error
bad_json = failure (codes "invalid JSON")

-- Forty-five seconds, in nanoseconds.
abbrev pub wallet_ttl : ℤ
wallet_ttl = pos 45_000_000_000

-- `fmt.Sprintf("user:%s:wallet", userID.String())`
unfoldable pub wallet_key : Bytes → Bytes
wallet_key user = codes "user:" ++ (user ++ codes ":wallet")

module _ {num : Numbers} where
  unfoldable pub price_of : Bytes → List (UserRow num) → Option (Option num.Numeric)
  price_of user [] = none
  price_of user (u ∷ us) =
      if bytes_eq u.id user then some u.price_per_audio_minute_usd else price_of user us

  -- The first row of the join of wallets and users.
  unfoldable pub find_wallet :
      Bytes → List (UserRow num) → List (WalletRow num) → Result (num.Numeric × Option num.Numeric)
  unfolding price_of
  find_wallet user us [] = err no_rows
  find_wallet user us (w ∷ ws) =
      let rest = find_wallet user us ws in
      if bytes_eq w.user_id user
      then elim (price_of user us) [ none ↦ rest | some p ↦ ok (w.balance_usd, p) ]
      else rest

module _ (num : Numbers) (vk : Valkey) (group : Group) where
  pub record World : Type 0 where
    pub db : Db num
    pub redis : vk.Store
    pub cache : group.Cache

-- `b, _ := json.Marshal(snap)`
unfoldable pub bytes_of : Result Bytes → Bytes
bytes_of (err e) = []
bytes_of (ok b) = b

module _ (num : Numbers) where
  -- SELECT w.balance_usd, u.price_per_audio_minute_usd FROM wallets w JOIN users u …
  unfoldable pub select_wallet :
      Bytes → Tables num → Result (num.Numeric × Option num.Numeric) × Tables num
  unfolding find_wallet
  select_wallet user t = (find_wallet user t.users t.wallets, t)

module _ (num : Numbers) (def_ppm : num.Float) where
  open num use {to_float}

  unfoldable pub snapshot_of : num.Numeric × Option num.Numeric → WalletSnapshot num
  snapshot_of (balance, none) = record {
    balance_usd = to_float balance;
    price_per_audio_minute_usd = def_ppm;
  }
  snapshot_of (balance, some price) = record {
    balance_usd = to_float balance;
    price_per_audio_minute_usd = to_float price;
  }

  unfoldable pub load_db : Bytes → Db num → Result (WalletSnapshot num) × Db num
  unfolding snapshot_of select_wallet
  load_db user db =
      let (r, db') = exec (select_wallet num user) db in
      (elim r [ err e ↦ err e | ok row ↦ ok (snapshot_of row) ], db')

module _ (num : Numbers) (codec : Codec num) where
  -- What Valkey's answer settles
  unfoldable pub from_l2 : Result Bytes → Option (WalletSnapshot num)
  from_l2 (err e) = none
  from_l2 (ok val) = codec.unmarshal val

  -- What `Get` makes of the group's bytes
  unfoldable pub decode : Result Bytes → Result (WalletSnapshot num)
  decode (err e) = err e
  decode (ok raw) = elim (codec.unmarshal raw) [ none ↦ err bad_json | some snap ↦ ok snap ]

module _ (num : Numbers) (vk : Valkey) (group : Group) (codec : Codec num)
    (def_ppm : num.Float) where
  -- `loadL2OrDB` after a miss
  unfoldable pub load_and_keep :
      Bytes → World num vk group → Result (WalletSnapshot num) × World num vk group
  unfolding load_db bytes_of
  load_and_keep user w =
      let (r, db') = load_db num def_ppm user w.db in
      let w' : World num vk group = record w { db = db' } in
      elim r [
        | err e ↦ (err e, w')
        | ok snap ↦ (
          ok snap,
          record w' {
            redis =
                (vk.set (wallet_key user) (bytes_of (codec.marshal snap)) wallet_ttl w'.redis).1;
          },
        )
      ]

  unfoldable pub load_l2_or_db :
      Bytes → World num vk group → Result (WalletSnapshot num) × World num vk group
  unfolding load_and_keep from_l2
  load_l2_or_db user w =
      let (val, redis') = vk.get (wallet_key user) w.redis in
      let w' : World num vk group = record w { redis = redis' } in
      elim (from_l2 num codec val) [ some snap ↦ (ok snap, w') | none ↦ load_and_keep user w' ]

  -- The getter that the group calls on a miss
  unfoldable pub getter : Bytes → World num vk group → Result Bytes × World num vk group
  unfolding load_l2_or_db
  getter key w = elim (codec.parse_uuid key) [
    | err e ↦ (err e, w)
    | ok user ↦
        let (r, w') = load_l2_or_db user w in
        elim r [ err e ↦ (err e, w') | ok snap ↦ (codec.marshal snap, w') ]
  ]

  -- `c.group.Get`
  unfoldable pub group_get : Bytes → World num vk group → Result Bytes × World num vk group
  unfolding getter
  group_get key w =
      let (hit, cache') = group.lookup key w.cache in
      let w' : World num vk group = record w { cache = cache' } in
      elim hit [
        | some b ↦ (ok b, w')
        | none ↦
            let (r, w'') = getter key w' in
            elim r [
              | err e ↦ (err e, w'')
              | ok b ↦ (ok b, record w'' { cache = group.fill key b w''.cache })
            ]
      ]

  unfoldable pub get : Bytes → World num vk group → Result (WalletSnapshot num) × World num vk group
  unfolding group_get decode
  get user w = let (r, w') = group_get user w in (decode num codec r, w')

  unfoldable pub invalidate : Bytes → World num vk group → World num vk group
  invalidate user w = record w {
    cache = (group.remove user w.cache).1;
    redis = (vk.del (wallet_key user) w.redis).1;
  }

  -- Whether the balance is above zero, with the snapshot
  unfoldable pub has_balance :
      Bytes → World num vk group → Result (Bool × WalletSnapshot num) × World num vk group
  unfolding get
  has_balance user w =
      let (r, w') = get user w in
      (elim r [ err e ↦ err e | ok snap ↦ ok (num.lt (zero_float num) snap.balance_usd, snap) ], w')

  unfoldable pub refresh :
      Bytes → World num vk group → Result (WalletSnapshot num) × World num vk group
  unfolding invalidate load_l2_or_db
  refresh user w = load_l2_or_db user (invalidate user w)
