-- ===== src/Process/Seeded.antt =====
-- `EnsureDefaultUser` leaves the user in the table.
use tts_platform.Common.{◌≡◌, refl, ap, ◌∙◌, inl, inr, Option, some, List, Bytes, Option-cases}
use tts_platform.Common.Results.{ok, no_rows, redis_nil, canceled, eof, failure, Result-cases}
use tts_platform.Numbers.{Numbers}
use tts_platform.Postgres.{Tables, Db, exec, exec-cases, exec-keeps, UserRow}
use tts_platform.Auth.Accounts.{Crypto, World, hash_api_key, generate_api_key, create_api_key}
use tts_platform.Auth.Statements.{User, user_by_name, insert_key, insert_user, insert_wallet}
use tts_platform.Auth.Keys.{user_by_name-append}
use tts_platform.Auth.Handlers.{select_id, seed_user, ensure_default_user}

module _ (num : Numbers) (crypto : Crypto) where
  create_api_key-users :
      (user : Bytes) (w : World num crypto)
      → (create_api_key num crypto user w).1.db.tables.users ≡ w.db.tables.users
  unfolding create_api_key insert_key
  create_api_key-users user w = elim (Result-cases (generate_api_key num crypto w.random).0) [
    | inl ((p, s), made) ↦
        rw (made, create_api_key)
          (exec-keeps (λ t. t.users ≡ w.db.tables.users)
            (insert_key num (crypto.uuid (generate_api_key num crypto w.random).1).0 user p
              (hash_api_key num crypto s))
            w.db (λ t h. h) refl)
    | inr (e, bad) ↦ rw (bad, create_api_key) refl
  ]

  -- The user of a name is in the table.
  abbrev pub Has : Bytes → Tables num → Type 0
  Has name t = (row : UserRow num) × (user_by_name name t.users ≡ some row)

  insert_user-Has :
      (id name hash : Bytes) (price : Option num.Numeric) (db : Db num) (u : User)
      → (exec (insert_user num id name hash price) db).0 ≡ ok u
      → Has name (exec (insert_user num id name hash price) db).1.tables
  unfolding insert_user
  insert_user-Has id name hash price db u h =
      elim (exec-cases (insert_user num id name hash price) db) [
        | inr (x, rest, e) ↦ absurd (cc (ap (λ o. o.0) e, h))
        | inl (rest, e) ↦ elim (Option-cases (user_by_name name db.tables.users)) [
          | inr (old, taken) ↦ absurd (cc (rw (taken, insert_user) at (ap (λ o. o.0) e), h))
          | inl free ↦
              let row : UserRow num = record {
                id = id;
                username = name;
                password_hash = hash;
                price_per_audio_minute_usd = price;
              } in
              (
                row,
                ap (λ o. user_by_name name o.1.tables.users) e
                    ∙ rw (free, insert_user)
                        (user_by_name-append name db.tables.users row free refl),
              )
        ]
      ]

  wallet_users :
      (user : Bytes) (balance : num.Float) (us : List (UserRow num)) (t : Tables num)
      → t.users ≡ us
      → (insert_wallet num user balance t).1.users ≡ us
  unfolding insert_wallet
  wallet_users user balance us t h = h

  select_id-Has :
      (name id : Bytes) (db : Db num)
      → (exec (select_id num crypto name) db).0 ≡ ok id
      → Has name (exec (select_id num crypto name) db).1.tables
  unfolding select_id
  select_id-Has name id db h = elim (exec-cases (select_id num crypto name) db) [
    | inr (x, rest, e) ↦ absurd (cc (ap (λ o. o.0) e, h))
    | inl (rest, e) ↦ elim (Option-cases (user_by_name name db.tables.users)) [
      | inl nobody ↦ absurd (cc (rw (nobody, select_id) at (ap (λ o. o.0) e), h))
      | inr (row, there) ↦ (row, ap (λ o. user_by_name name o.1.tables.users) e ∙ there)
    ]
  ]

  seed_user-Has :
      (name password : Bytes) (wallet price : num.Float) (w : World num crypto)
      (made : Bytes × Bytes)
      → (seed_user num crypto name password wallet price w).0 ≡ ok made
      → Has name (seed_user num crypto name password wallet price w).1.db.tables
  unfolding seed_user
  seed_user-Has name password wallet price w made h =
      let (hash, random') = crypto.generate_from_password password w.random in
      elim (Result-cases hash) [
        | inr (e, bad) ↦ absurd (cc (rw (bad, seed_user) at h))
        | inl (hashed, good) ↦
            let (id, random'') = crypto.uuid random' in
            let stmt = insert_user num id name hashed (some (num.to_numeric price)) in
            let (r, db') = exec stmt w.db in
            elim (Result-cases r) [
              | inr (e, bad) ↦ absurd (cc (rw (good, seed_user, bad) at h))
              | inl (u, inserted) ↦
                  let (row, there) =
                    insert_user-Has id name hashed (some (num.to_numeric price)) w.db u inserted in
                  let stmt' = insert_wallet num u.id wallet in
                  let (r', db'') = exec stmt' db' in
                  let kept : db''.tables.users ≡ db'.tables.users =
                    exec-keeps (λ t. t.users ≡ db'.tables.users) stmt' db'
                      (wallet_users u.id wallet db'.tables.users) refl in
                  let made_by : World num crypto = record { db = db''; random = random'' } in
                  elim (Result-cases r') [
                    | inr (e, bad) ↦ absurd (cc (rw (good, seed_user, inserted, bad) at h))
                    | inl (_, paid) ↦ (
                      row,
                      rw (good, seed_user, inserted, paid)
                          (ap (user_by_name name) (create_api_key-users u.id made_by ∙ kept)
                            ∙ there),
                    )
                  ]
            ]
      ]

  -- Once `EnsureDefaultUser` has answered, the user is in the table.
  pub ensure_default_user-Has :
      (name password : Bytes) (wallet price : num.Float) (w : World num crypto)
      (made : Bytes × Bytes)
      → (ensure_default_user num crypto name password wallet price w).0 ≡ ok made
      → Has name (ensure_default_user num crypto name password wallet price w).1.db.tables
  unfolding ensure_default_user
  ensure_default_user-Has name password wallet price w made h =
      let (r, db') = exec (select_id num crypto name) w.db in
      elim (Result-cases r) [
        | inl (id, found) ↦ rw (found, ensure_default_user) (select_id-Has name id w.db found)
        | inr (no_rows, missing) ↦
            rw (missing, ensure_default_user)
              (seed_user-Has name password wallet price (record w { db = db' }) made
                (rw (missing, ensure_default_user) at h))
        | inr (redis_nil, bad) ↦ absurd (cc (rw (bad, ensure_default_user) at h))
        | inr (canceled, bad) ↦ absurd (cc (rw (bad, ensure_default_user) at h))
        | inr (eof, bad) ↦ absurd (cc (rw (bad, ensure_default_user) at h))
        | inr (failure e, bad) ↦ absurd (cc (rw (bad, ensure_default_user) at h))
      ]
