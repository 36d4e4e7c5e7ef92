-- ===== src/Auth/Accounts.antt =====
-- api/internal/auth/auth.go: users, passwords and API keys.
use tts_platform.Common.{
  ℕ, Bool, none, List, [], ◌∷◌, ◌++◌, Bytes, codes, ltb, length, take, if◌then◌else◌,
}
use tts_platform.Common.Results.{Error, Result, ok, err, no_rows, failure}
use tts_platform.Numbers.{Numbers}
use tts_platform.Postgres.{Db, exec, UserRow, ApiKeyRow}
use tts_platform.Auth.Token.{trim_space, encode_hex, api_key_prefix, with_prefix, key_prefix}
use tts_platform.Auth.Statements.{
  User, select_key_user, insert_key, update_revoked, select_keys, insert_user, insert_wallet,
  select_user,
}

-- The cryptographic packages and the source of randomness, which Postgres's UUIDs come from too.
pub record Crypto : Type 1 where
  pub Random : Type 0
  pub read : ℕ → Random → Result Bytes × Random
  pub uuid : Random → Bytes × Random
  pub sha256 : Bytes → Bytes
  pub generate_from_password : Bytes → Random → Result Bytes × Random
  pub compare_hash_and_password : Bytes → Bytes → Bool

abbrev pub invalid_credentials : Error
invalid_credentials = failure (codes "invalid credentials")

abbrev pub missing_token : Error
missing_token = failure (codes "missing token")

abbrev pub invalid_key : Error
invalid_key = failure (codes "invalid key")

-- `errors.Is(err, pgx.ErrNoRows)` replaces the error by another one.
abbrev pub or_error {ℓ} : {A : Type ℓ} → Error → Result A → Result A
or_error e (ok a) = ok a
or_error e (err no_rows) = err e
or_error e (err x) = err x

module _ (num : Numbers) (crypto : Crypto) where
  open num use {Float, Numeric, to_numeric}
  open crypto use {Random}

  pub record World : Type 0 where
    pub db : Db num
    pub random : Random

  -- `HashAPIKey`
  unfoldable pub hash_api_key : Bytes → Bytes
  hash_api_key secret = encode_hex (crypto.sha256 secret)

  -- `GenerateAPIKey`, the prefix and the secret
  unfoldable pub generate_api_key : Random → Result (Bytes × Bytes) × Random
  generate_api_key random =
      let (raw, random') = crypto.read 24 random in
      elim raw [
        | err e ↦ (err e, random')
        | ok b ↦ (ok (take 8 (encode_hex b), api_key_prefix ++ encode_hex b), random')
      ]

  -- `ResolveAPIKey` once the secret is known
  unfoldable pub resolve_secret : Bytes → Db num → Result User × Db num
  resolve_secret secret db =
      if ltb (length secret) 11
      then (err invalid_key, db)
      else (let (r, db') =
            exec (select_key_user num (key_prefix secret) (hash_api_key secret)) db in
          (or_error invalid_key r, db'))

  unfoldable pub resolve_api_key : Bytes → Db num → Result User × Db num
  unfolding resolve_secret
  resolve_api_key token db = elim (trim_space token) [
    | [] ↦ (err missing_token, db)
    | c ∷ s ↦ resolve_secret (with_prefix (c ∷ s)) db
  ]

  -- The id, the prefix and the secret of the new key
  unfoldable pub create_api_key : Bytes → World → Result (Bytes × Bytes × Bytes) × World
  unfolding generate_api_key insert_key
  create_api_key user w =
      let (generated, random') = generate_api_key w.random in
      elim generated [
        | err e ↦ (err e, record w { random = random' })
        | ok (prefix, secret) ↦
            let (id, random'') = crypto.uuid random' in
            let (r, db') = exec (insert_key num id user prefix (hash_api_key secret)) w.db in
            (
              elim r [ err e ↦ err e | ok i ↦ ok (i, prefix, secret) ],
              record { db = db'; random = random'' },
            )
      ]

  unfoldable pub list_api_keys : Bytes → Db num → Result (List ApiKeyRow) × Db num
  list_api_keys user db = exec (select_keys num user) db

  abbrev pub affected : Result ℕ → Result (Unit {0})
  affected (err e) = err e
  affected (ok n) = if ltb 0 n then ok tt else err no_rows

  unfoldable pub revoke_api_key : Bytes → Bytes → Db num → Result (Unit {0}) × Db num
  unfolding update_revoked
  revoke_api_key user key db =
      let (r, db') = exec (update_revoked num user key) db in (affected r, db')

  -- `Register` returns the user also if the wallet's insertion fails; its callers look at the error.
  unfoldable pub register : Bytes → Bytes → Float → World → Result User × World
  unfolding insert_user insert_wallet
  register name password initial w =
      let (hash, random') = crypto.generate_from_password password w.random in
      elim hash [
        | err e ↦ (err e, record w { random = random' })
        | ok h ↦
            let (id, random'') = crypto.uuid random' in
            let (r, db') = exec (insert_user num id name h none) w.db in
            elim r [
              | err e ↦ (err e, record { db = db'; random = random'' })
              | ok u ↦
                  let (r', db'') = exec (insert_wallet num u.id initial) db' in
                  (elim r' [ err e ↦ err e | ok _ ↦ ok u ], record { db = db''; random = random'' })
            ]
      ]

  -- What `AuthenticatePassword` makes of the query's answer
  unfoldable pub check_row : Bytes → Result (UserRow num) → Result User
  check_row password (err e) = or_error invalid_credentials (err e)
  check_row password (ok u) =
      if crypto.compare_hash_and_password u.password_hash password
      then ok (record { id = u.id; username = u.username })
      else err invalid_credentials

  unfoldable pub authenticate_password : Bytes → Bytes → Db num → Result User × Db num
  unfolding check_row select_user
  authenticate_password name password db =
      let (r, db') = exec (select_user num name) db in (check_row password r, db')
