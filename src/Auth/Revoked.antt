-- ===== src/Auth/Revoked.antt =====
-- What a revoked key is good for, and what revoking it leaves alone.
use tts_platform.Common.{◌≡◌, true, false, Bytes, bytes_eq, arith, All}
use tts_platform.Common.Results.{ok, err, no_rows}
use tts_platform.Numbers.{Numbers}
use tts_platform.Postgres.{Db, exec-cases}
use tts_platform.Auth.Accounts.{Crypto, revoke_api_key}
use tts_platform.Auth.Statements.{matches, keys_of, select_key_user, update_revoked}
use tts_platform.Auth.Keys.{find_key-revoked, keys_of-revoke_rows}

-- If `RevokeAPIKey` reports no error, and all active keys with a secret's prefix and hash are the one
-- that was revoked, then a lookup of that prefix and hash, as in `ResolveAPIKey`, finds no user
-- any more.
pub revoke_api_key-find_key :
    (num : Numbers) (crypto : Crypto) (user key prefix hash : Bytes) (db : Db num)
    → (revoke_api_key num crypto user key db).0 ≡ ok tt
    → All (λ k. matches prefix hash k ≡ true → (k.id ≡ key) × (k.user_id ≡ user)) db.tables.api_keys
    → let t = (revoke_api_key num crypto user key db).1.tables in
      (select_key_user num prefix hash t).0 ≡ err no_rows
unfolding revoke_api_key select_key_user
revoke_api_key-find_key num crypto user key prefix hash db h only = ground (
  arith,
  exec-cases (update_revoked num user key) db,
  find_key-revoked prefix hash user key db.tables.users db.tables.api_keys only,
)

-- `RevokeAPIKey` for one user leaves the keys of every other user as they are, and all other tables.
revoke_api_key-keys_of :
    (num : Numbers) (crypto : Crypto) (user key other : Bytes) (db : Db num)
    → bytes_eq user other ≡ false
    → let t = (revoke_api_key num crypto user key db).1.tables in
      (keys_of other t.api_keys ≡ keys_of other db.tables.api_keys)
      × (record t { api_keys = db.tables.api_keys } ≡ db.tables)
unfolding revoke_api_key
revoke_api_key-keys_of num crypto user key other db ne = (
  ground (
    arith,
    exec-cases (update_revoked num user key) db,
    keys_of-revoke_rows user key other db.tables.api_keys ne,
  ),
  ground (arith, exec-cases (update_revoked num user key) db),
)
