-- ===== src/Auth/Statements.antt =====
-- The queries of api/internal/auth/auth.go on the tables of users, wallets and API keys.
use tts_platform.Common.{
  ℕ, ◌+◌, Bool, true, false, ◌&&◌, not, Option, none, some, List, [], ◌∷◌, ◌++◌, Bytes, codes,
  bytes_eq, if◌then◌else◌,
}
use tts_platform.Common.Results.{Result, ok, err, no_rows, failure}
use tts_platform.Numbers.{Numbers}
use tts_platform.Postgres.{Tables, UserRow, ApiKeyRow}

pub record User : Type 0 where
  pub id : Bytes
  pub username : Bytes

-- The join's condition on a key.
unfoldable pub matches : Bytes → Bytes → ApiKeyRow → Bool
matches prefix hash k = bytes_eq k.key_prefix prefix && (bytes_eq k.key_hash hash && not k.revoked)

abbrev pub revokes : Bytes → Bytes → ApiKeyRow → Bool
revokes user key k = bytes_eq k.id key && (bytes_eq k.user_id user && not k.revoked)

unfoldable pub revoke_row : Bytes → Bytes → ApiKeyRow → ApiKeyRow
revoke_row user key k = if revokes user key k then record k { revoked = true } else k

-- The rows, with the number of them that the update affects.
unfoldable pub revoke_rows : Bytes → Bytes → List ApiKeyRow → ℕ × List ApiKeyRow
unfolding revoke_row
revoke_rows user key [] = (0, [])
revoke_rows user key (k ∷ ks) =
    let (n, ks') = revoke_rows user key ks in
    ((if revokes user key k then 1 else 0) + n, revoke_row user key k ∷ ks')

unfoldable pub keys_of : Bytes → List ApiKeyRow → List ApiKeyRow
keys_of user [] = []
keys_of user (k ∷ ks) =
    let rest = keys_of user ks in if bytes_eq k.user_id user then rest ++ k ∷ [] else rest

module _ {num : Numbers} where
  unfoldable pub user_by_id : Bytes → List (UserRow num) → Option User
  user_by_id id [] = none
  user_by_id id (u ∷ us) =
      if bytes_eq u.id id
      then some (record { id = u.id; username = u.username })
      else user_by_id id us

  unfoldable pub user_by_name : Bytes → List (UserRow num) → Option (UserRow num)
  user_by_name name [] = none
  user_by_name name (u ∷ us) = if bytes_eq u.username name then some u else user_by_name name us

  -- The first row of the join of keys and users.
  unfoldable pub find_key : Bytes → Bytes → List (UserRow num) → List ApiKeyRow → Result User
  unfolding matches user_by_id
  find_key prefix hash us [] = err no_rows
  find_key prefix hash us (k ∷ ks) =
      let rest = find_key prefix hash us ks in
      if matches prefix hash k
      then elim (user_by_id k.user_id us) [ none ↦ rest | some u ↦ ok u ]
      else rest

module _ (num : Numbers) where
  open num use {Float, Numeric, to_numeric}

  -- SELECT u.id, u.username FROM api_keys k JOIN users u … WHERE k.revoked_at IS NULL
  unfoldable pub select_key_user : Bytes → Bytes → Tables num → Result User × Tables num
  unfolding find_key
  select_key_user prefix hash t = (find_key prefix hash t.users t.api_keys, t)

  -- INSERT INTO api_keys (user_id, key_prefix, key_hash) … RETURNING id
  unfoldable pub insert_key : Bytes → Bytes → Bytes → Bytes → Tables num → Result Bytes × Tables num
  insert_key id user prefix hash t = (
    ok id,
    record t {
      api_keys =
          t.api_keys
          ++ record {
            id = id;
            user_id = user;
            key_prefix = prefix;
            key_hash = hash;
            revoked = false;
          }
            ∷ [];
    },
  )

  -- UPDATE api_keys SET revoked_at = now() WHERE id = $1 AND user_id = $2 AND revoked_at IS NULL
  unfoldable pub update_revoked : Bytes → Bytes → Tables num → Result ℕ × Tables num
  unfolding revoke_rows
  update_revoked user key t =
      let (n, ks) = revoke_rows user key t.api_keys in (ok n, record t { api_keys = ks })

  -- SELECT id, user_id, key_prefix, key_hash, … ORDER BY created_at DESC
  unfoldable pub select_keys : Bytes → Tables num → Result (List ApiKeyRow) × Tables num
  select_keys user t = (ok (keys_of user t.api_keys), t)

  -- INSERT INTO users … RETURNING id, username; a name is unique
  unfoldable pub insert_user :
      Bytes → Bytes → Bytes → Option Numeric → Tables num → Result User × Tables num
  insert_user id name hash price t = elim (user_by_name name t.users) [
    | some u ↦ (err (failure (codes "duplicate key value violates unique constraint")), t)
    | none ↦ (
      ok (record { id = id; username = name }),
      record t {
        users =
            t.users
            ++ record {
              id = id;
              username = name;
              password_hash = hash;
              price_per_audio_minute_usd = price;
            }
              ∷ [];
      },
    )
  ]

  -- INSERT INTO wallets (user_id, balance_usd)
  unfoldable pub insert_wallet : Bytes → Float → Tables num → Result (Unit {0}) × Tables num
  insert_wallet user balance t = (
    ok tt,
    record t {
      wallets = t.wallets ++ record { user_id = user; balance_usd = to_numeric balance } ∷ [];
    },
  )

  -- SELECT id, username, password_hash FROM users WHERE username = $1
  unfoldable pub select_user : Bytes → Tables num → Result (UserRow num) × Tables num
  select_user name t = (elim (user_by_name name t.users) [ none ↦ err no_rows | some u ↦ ok u ], t)
