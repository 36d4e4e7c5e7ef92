-- ===== src/Auth/Lifecycle.antt =====
-- What a key and a password are good for after they are made, and a key after it is revoked.
use tts_platform.Common.{
  ◌≡◌, refl, sym, inl, inr, false, none, some, [], ◌∷◌, ◌++◌, Bytes, bytes_eq_refl, arith,
  Option-cases, length, take, subst,
}
use tts_platform.Common.Results.{ok, err, no_rows, Result-cases}
use tts_platform.Numbers.{Numbers}
use tts_platform.Postgres.{Db, exec, exec-cases, exec-answers, UserRow, ApiKeyRow}
use tts_platform.Auth.Token.{encode_hex, api_key_prefix, with_prefix, key_prefix}
use tts_platform.Auth.Accounts.{
  Crypto, World, hash_api_key, generate_api_key, resolve_secret, resolve_api_key, create_api_key,
  register, check_row, authenticate_password,
}
use tts_platform.Auth.Statements.{
  User, matches, user_by_id, user_by_name, find_key, select_key_user, insert_key, insert_user,
  insert_wallet, select_user,
}
use tts_platform.Auth.Keys.{
  Says, CryptoLaws, trim_space-secret, length-encode_hex, find_key-append, user_by_name-append,
}

module _ (num : Numbers) (crypto : Crypto) where
  -- The text of a new key is long enough, and its prefix is found in it again.
  secret-form :
      (laws : CryptoLaws crypto) (r : crypto.Random) (prefix secret : Bytes)
      → (generate_api_key num crypto r).0 ≡ ok (prefix, secret)
      → (b : Bytes) × (secret ≡ api_key_prefix ++ encode_hex b)
        × (prefix ≡ take 8 (encode_hex b))
        × (length (encode_hex b) ≡ 48)
  unfolding generate_api_key
  secret-form laws r prefix secret h = elim (Result-cases (crypto.read 24 r).0) [
    | inl (b, read) ↦ (
      b,
      ground arith,
      ground arith,
      omega (arith, length-encode_hex b, laws.read-length 24 r b read),
    )
    | inr (e, failed) ↦ absurd (cc (rw (failed, generate_api_key) at h))
  ]

  resolve-secret :
      (b secret : Bytes) (db : Db num)
      → secret ≡ api_key_prefix ++ encode_hex b
      → resolve_api_key num crypto secret db ≡ resolve_secret num crypto secret db
  unfolding with_prefix resolve_api_key resolve_secret
  resolve-secret b secret db e = rw (e, resolve_api_key, trim_space-secret b) refl

  resolve_secret-Says :
      (b secret : Bytes) (u : User) (db : Db num)
      → secret ≡ api_key_prefix ++ encode_hex b
      → length (encode_hex b) ≡ 48
      → find_key
          (take 8 (encode_hex b))
          (hash_api_key num crypto secret)
          db.tables.users
          db.tables.api_keys
        ≡ ok u
      → Says u db (resolve_secret num crypto secret db).0
  unfolding resolve_secret select_key_user
  resolve_secret-Says b secret u db e long found =
      let prefix_is : key_prefix secret ≡ take 8 (encode_hex b) = rw e refl in
      let enough : length secret ≡ 51 = rw e (omega (arith, long)) in
      let stmt = select_key_user num (key_prefix secret) (hash_api_key num crypto secret) in
      elim (exec-answers stmt db) [
        | inl answered ↦ inl (ground arith)
        | inr (x, rest, faulty, lost) ↦ inr (x, rest, faulty, ground arith)
      ]

  create_api_key-Created :
      (user id prefix secret : Bytes) (w : World num crypto)
      → (create_api_key num crypto user w).0 ≡ ok (id, prefix, secret)
      → ((generate_api_key num crypto w.random).0 ≡ ok (prefix, secret))
        × ((create_api_key num crypto user w).1.db.tables
            ≡ (insert_key num id user prefix (hash_api_key num crypto secret) w.db.tables).1)
  unfolding create_api_key insert_key
  create_api_key-Created user id prefix secret w h =
      elim (Result-cases (generate_api_key num crypto w.random).0) [
        | inl ((p, s), made) ↦ (
          ground (
            arith,
            exec-cases
                (insert_key num (crypto.uuid (generate_api_key num crypto w.random).1).0 user p
                  (hash_api_key num crypto s))
                w.db,
          ),
          ground (
            arith,
            exec-cases
                (insert_key num (crypto.uuid (generate_api_key num crypto w.random).1).0 user p
                  (hash_api_key num crypto s))
                w.db,
          ),
        )
        | inr (e, failed) ↦ absurd (cc (rw (failed, create_api_key) at h))
      ]

  register-Registered :
      (name password : Bytes) (initial : num.Float) (u : User) (w : World num crypto)
      → (register num crypto name password initial w).0 ≡ ok u
      → (h : Bytes) × (row : UserRow num) × ((crypto.generate_from_password password w.random).0
          ≡ ok h)
        × (user_by_name name w.db.tables.users ≡ none)
        × ((register num crypto name password initial w).1.db.tables.users
            ≡ w.db.tables.users ++ row ∷ [])
        × (row.username ≡ name)
        × (row.password_hash ≡ h)
        × (u ≡ record { id = row.id; username = name })
  unfolding register insert_user insert_wallet
  register-Registered name password initial u w h =
      elim (Result-cases (crypto.generate_from_password password w.random).0) [
        | inl (hash, made) ↦ elim (Option-cases (user_by_name name w.db.tables.users)) [
          | inl free ↦
              let id = (crypto.uuid (crypto.generate_from_password password w.random).1).0 in
              (
                hash,
                record {
                  id = id;
                  username = name;
                  password_hash = hash;
                  price_per_audio_minute_usd = none;
                },
                made,
                free,
                ground (
                  arith,
                  exec-cases (insert_user num id name hash none) w.db,
                  exec-cases (insert_wallet num id initial)
                      (exec (insert_user num id name hash none) w.db).1,
                ),
                refl,
                refl,
                ground (
                  arith,
                  exec-cases (insert_user num id name hash none) w.db,
                  exec-cases (insert_wallet num id initial)
                      (exec (insert_user num id name hash none) w.db).1,
                ),
              )
          | inr (old, taken) ↦ absurd (
              ground (
                arith,
                exec-cases
                    (insert_user num
                      (crypto.uuid (crypto.generate_from_password password w.random).1).0 name hash
                      none)
                    w.db,
              ))
        ]
        | inr (e, failed) ↦ absurd (cc (rw (failed, register) at h))
      ]

-- If `CreateAPIKey` reports a new key for a user who is in the table, and no active key was stored
-- with its prefix and hash before, then `ResolveAPIKey` on the secret says that user, unless its one
-- statement fails; then it reports the statement's error.
pub create_api_key-resolves :
    (num : Numbers) (crypto : Crypto) (laws : CryptoLaws crypto) (user id prefix secret : Bytes)
    (u : User) (w : World num crypto)
    → (create_api_key num crypto user w).0 ≡ ok (id, prefix, secret)
    → user_by_id user w.db.tables.users ≡ some u
    → find_key prefix (hash_api_key num crypto secret) w.db.tables.users w.db.tables.api_keys
      ≡ err no_rows
    → let db = (create_api_key num crypto user w).1.db in
      Says u db (resolve_api_key num crypto secret db).0
unfolding insert_key matches
create_api_key-resolves num crypto laws user id prefix secret u w h known fresh =
    let (made, stored) = create_api_key-Created num crypto user id prefix secret w h in
    let (b, secret_is, prefix_is, long) = secret-form num crypto laws w.random prefix secret made in
    let db = (create_api_key num crypto user w).1.db in
    let key : ApiKeyRow = record {
      id = id;
      user_id = user;
      key_prefix = prefix;
      key_hash = hash_api_key num crypto secret;
      revoked = false;
    } in
    let found =
      find_key-append prefix (hash_api_key num crypto secret) w.db.tables.users w.db.tables.api_keys
        key u fresh (rw (bytes_eq_refl prefix, bytes_eq_refl (hash_api_key num crypto secret)) refl)
        known in
    rw (resolve-secret num crypto b secret db secret_is) (
      resolve_secret-Says num crypto b secret u db secret_is long (
        subst
          (λ t.
            find_key (take 8 (encode_hex b)) (hash_api_key num crypto secret) t.users t.api_keys
            ≡ ok u)
          (sym stored)
          (subst
            (λ p.
              find_key p (hash_api_key num crypto secret) w.db.tables.users
                (w.db.tables.api_keys ++ key ∷ [])
              ≡ ok u)
            prefix_is found)))

-- If `Register` reports a user, `AuthenticatePassword` with the same name and password says that user,
-- unless its one statement fails; then it reports the statement's error.
pub register-authenticates :
    (num : Numbers) (crypto : Crypto) (laws : CryptoLaws crypto) (name password : Bytes)
    (initial : num.Float) (u : User) (w : World num crypto)
    → (register num crypto name password initial w).0 ≡ ok u
    → let db = (register num crypto name password initial w).1.db in
      Says u db (authenticate_password num crypto name password db).0
unfolding authenticate_password select_user check_row
register-authenticates num crypto laws name password initial u w h =
    let (hash, row, made, free, users, named, hashed, u_is) =
      register-Registered num crypto name password initial u w h in
    let db = (register num crypto name password initial w).1.db in
    let found : user_by_name name db.tables.users ≡ some row =
      rw users (user_by_name-append name w.db.tables.users row free named) in
    let good = laws.compare-generate password hash w.random made in
    elim (exec-answers (select_user num name) db) [
      | inl answered ↦ inl (ground arith)
      | inr (x, rest, faulty, lost) ↦ inr (x, rest, faulty, ground arith)
    ]
