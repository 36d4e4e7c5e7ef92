-- ===== src/Auth/Handlers.antt =====
-- The routes of accounts and keys (api/internal/handler/server.go), and `EnsureDefaultUser` of
-- api/internal/auth/auth.go.
use tts_platform.Common.{ℕ, ◌≡◌, ◌⊎◌, Option, none, some, List, [], map, Bytes, codes, arith}
use tts_platform.Common.Int.{ℤ, pos, negsuc}
use tts_platform.Common.Results.{Result, ok, err, no_rows, failure}
use tts_platform.Numbers.{Numbers}
use tts_platform.Postgres.{Tables, Db, exec, exec-cases, UserRow, ApiKeyRow}
use tts_platform.Auth.Accounts.{
  Crypto, World, create_api_key, list_api_keys, revoke_api_key, register, authenticate_password,
}
use tts_platform.Auth.Statements.{User, user_by_name, insert_user, insert_wallet}

pub record Credentials : Type 0 where
  pub username : Bytes
  pub password : Bytes

-- The cookie of `SetAuthCookie` and `ClearAuthCookie`: its value and Max-Age. The others of its
-- attributes are the same in both.
pub record Cookie : Type 0 where
  pub value : Bytes
  pub max_age : ℤ

-- What these routes write.
pub data Reply : Type 0 where
  session : ℕ → User → Bytes → Cookie → Reply
  created_key : Bytes → Bytes → Bytes → Reply
  keys : List (Bytes × Bytes) → Reply
  no_content : Option Cookie → Reply
  error : ℕ → Bytes → Reply

-- `SetAuthCookie`: thirty days
unfoldable pub auth_cookie : Bytes → Cookie
auth_cookie token = record { value = token; max_age = pos 2_592_000 }

-- `ClearAuthCookie`
abbrev pub cleared_cookie : Cookie
cleared_cookie = record { value = []; max_age = negsuc 0 }

-- `writeAuthSession`
unfoldable pub write_auth_session : ℕ → User → Bytes → Reply
unfolding auth_cookie
write_auth_session code u api_key = session code u api_key (auth_cookie api_key)

abbrev pub summary : ApiKeyRow → Bytes × Bytes
summary k = (k.id, k.key_prefix)

abbrev pub logout_user : Reply
logout_user = no_content (some cleared_cookie)

module _ (num : Numbers) (crypto : Crypto) where
  open num use {Float, to_numeric}

  -- A session for a user who is known, with a new key
  unfoldable pub open_session : ℕ → User → World num crypto → Reply × World num crypto
  unfolding write_auth_session
  open_session code u w =
      let (r, w') = create_api_key num crypto u.id w in
      (
        elim r [
          | err e ↦ error 500 (codes "error")
          | ok (id, prefix, secret) ↦ write_auth_session code u secret
        ],
        w',
      )

  -- `req` is the decoded body.
  unfoldable pub register_user :
      Float → Option Credentials → World num crypto → Reply × World num crypto
  unfolding open_session
  register_user default_wallet none w = (error 400 (codes "bad request"), w)
  register_user default_wallet (some req) w =
      let (r, w') = register num crypto req.username req.password default_wallet w in
      elim r [ err e ↦ (error 409 (codes "conflict"), w') | ok u ↦ open_session 201 u w' ]

  unfoldable pub login_user : Option Credentials → World num crypto → Reply × World num crypto
  unfolding open_session
  login_user none w = (error 400 (codes "bad request"), w)
  login_user (some req) w =
      let (r, db') = authenticate_password num crypto req.username req.password w.db in
      let w' : World num crypto = record w { db = db' } in
      elim r [
        | err e ↦ (error 401 (codes "{\"error\":\"invalid credentials\"}"), w')
        | ok u ↦ open_session 200 u w'
      ]

  -- `user` is the context's user.
  unfoldable pub create_key_route : Option User → World num crypto → Reply × World num crypto
  create_key_route none w = (error 401 (codes "unauthorized"), w)
  create_key_route (some u) w =
      let (r, w') = create_api_key num crypto u.id w in
      (
        elim r [
          | err e ↦ error 500 (codes "error")
          | ok (id, prefix, secret) ↦ created_key id prefix secret
        ],
        w',
      )

  unfoldable pub list_keys_route : Option User → Db num → Reply × Db num
  list_keys_route none db = (error 401 (codes "unauthorized"), db)
  list_keys_route (some u) db =
      let (r, db') = list_api_keys num crypto u.id db in
      (elim r [ err e ↦ error 500 (codes "error") | ok ks ↦ keys (map summary ks) ], db')

  -- The reply to what `RevokeAPIKey` reports
  unfoldable pub revoked_reply : Result (Unit {0}) → Reply
  revoked_reply (ok _) = no_content none
  revoked_reply (err no_rows) = error 404 (codes "not found")
  revoked_reply (err e) = error 500 (codes "error")

  unfoldable pub revoke_key_route : Option User → Bytes → Db num → Reply × Db num
  unfolding revoked_reply
  revoke_key_route none key db = (error 401 (codes "unauthorized"), db)
  revoke_key_route (some u) key db =
      let (r, db') = revoke_api_key num crypto u.id key db in (revoked_reply r, db')

  -- SELECT id FROM users WHERE username = $1
  unfoldable pub select_id : Bytes → Tables num → Result Bytes × Tables num
  select_id name t = (elim (user_by_name name t.users) [ none ↦ err no_rows | some u ↦ ok u.id ], t)

  -- `EnsureDefaultUser` once it is known that the user is missing: the user's id and the secret
  unfoldable pub seed_user :
      Bytes → Bytes → Float → Float → World num crypto → Result (Bytes × Bytes) × World num crypto
  seed_user name password wallet price w =
      let (hash, random') = crypto.generate_from_password password w.random in
      elim hash [
        | err e ↦ (err e, record w { random = random' })
        | ok h ↦
            let (id, random'') = crypto.uuid random' in
            let (r, db') = exec (insert_user num id name h (some (to_numeric price))) w.db in
            elim r [
              | err e ↦ (err e, record { db = db'; random = random'' })
              | ok u ↦
                  let (r', db'') = exec (insert_wallet num u.id wallet) db' in
                  let w' : World num crypto = record { db = db''; random = random'' } in
                  elim r' [
                    | err e ↦ (err e, w')
                    | ok _ ↦
                        let (k, w'') = create_api_key num crypto u.id w' in
                        (elim k [ err e ↦ err e | ok (_, _, secret) ↦ ok (u.id, secret) ], w'')
                  ]
            ]
      ]

  unfoldable pub ensure_default_user :
      Bytes → Bytes → Float → Float → World num crypto → Result (Bytes × Bytes) × World num crypto
  unfolding seed_user select_id
  ensure_default_user name password wallet price w =
      let (r, db') = exec (select_id name) w.db in
      let w' : World num crypto = record w { db = db' } in
      elim r [
        | ok id ↦ (ok (id, []), w')
        | err no_rows ↦ seed_user name password wallet price w'
        | err e ↦ (err e, w')
      ]

-- If the user is there, `EnsureDefaultUser` changes no table, whatever the password, and makes no key: it
-- answers the user's id and no secret, or the failure of the query.
pub ensure_default_user_again :
    (num : Numbers) (crypto : Crypto) (name password : Bytes) (wallet price : num.Float)
    (w : World num crypto) (row : UserRow num)
    → user_by_name name w.db.tables.users ≡ some row
    → let (r, w') = ensure_default_user num crypto name password wallet price w in
      (w'.db.tables ≡ w.db.tables) × ((r ≡ ok (row.id, [])) ⊎ ((e : Bytes) × (r ≡ err (failure e))))
unfolding ensure_default_user select_id
ensure_default_user_again num crypto name password wallet price w row there = (
  ground (arith, exec-cases (select_id num crypto name) w.db),
  ground (arith, exec-cases (select_id num crypto name) w.db),
)
