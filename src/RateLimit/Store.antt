-- ===== src/RateLimit/Store.antt =====
-- api/internal/ratelimit/store.go: the caps of a user, from Valkey, then Postgres, then the defaults.
use tts_platform.Common.{
  Bool, true, false, ◌&&◌, not, Option, none, some, List, [], ◌∷◌, ◌++◌, Bytes, codes, bytes_eq,
  if◌then◌else◌,
}
use tts_platform.Common.Int.{ℤ, pos, ltb_ℤ}
use tts_platform.Common.Results.{Error, Result, ok, err, no_rows, redis_nil, failure}
use tts_platform.Numbers.{Numbers}
use tts_platform.Postgres.{Tables, Db, exec, LimitRow}
use tts_platform.Valkey.{Valkey}

pub record Limits : Type 0 where
  pub rpm : ℤ
  pub rph : ℤ
  pub rpd : ℤ

unfoldable pub valid : Limits → Bool
valid l = ltb_ℤ (pos 0) l.rpm && (ltb_ℤ (pos 0) l.rph && ltb_ℤ (pos 0) l.rpd)

-- `json.Marshal` and `json.Unmarshal` of `Limits`.
pub record LimitsJson : Type 0 where
  pub marshal : Limits → Result Bytes
  pub unmarshal : Bytes → Option Limits

-- Which of the two clients are not nil, and the caps for users without an override.
pub record Store : Type 0 where
  pub has_redis : Bool
  pub has_pool : Bool
  pub defaults : Limits

-- `fmt.Sprintf("rlcfg:%s", userID.String())`
unfoldable pub cache_key : Bytes → Bytes
cache_key user = codes "rlcfg:" ++ user

-- Five minutes, in nanoseconds.
abbrev pub cache_ttl : ℤ
cache_ttl = pos 300_000_000_000

abbrev pub not_positive : Error
not_positive = failure (codes "rpm, rph, and rpd must be positive")

abbrev pub not_configured : Error
not_configured = failure (codes "database not configured")

unfoldable pub find_limits : Bytes → List LimitRow → Result Limits
find_limits user [] = err no_rows
find_limits user (r ∷ rs) =
    if bytes_eq r.user_id user
    then ok (record { rpm = r.rpm; rph = r.rph; rpd = r.rpd })
    else find_limits user rs

unfoldable pub upsert_row : Bytes → Limits → List LimitRow → List LimitRow
upsert_row user l [] = record { user_id = user; rpm = l.rpm; rph = l.rph; rpd = l.rpd } ∷ []
upsert_row user l (r ∷ rs) =
    if bytes_eq r.user_id user
    then record r { rpm = l.rpm; rph = l.rph; rpd = l.rpd } ∷ rs
    else r ∷ upsert_row user l rs

unfoldable pub delete_rows : Bytes → List LimitRow → List LimitRow
delete_rows user [] = []
delete_rows user (r ∷ rs) =
    if bytes_eq r.user_id user then delete_rows user rs else r ∷ delete_rows user rs

pub record World (num : Numbers) (vk : Valkey) : Type 0 where
  pub redis : vk.Store
  pub db : Db num

-- What the answer of Valkey settles: the caps, an error, or nothing.
unfoldable pub from_cache : LimitsJson → Result Bytes → Option (Result (Limits × Bool))
from_cache json (err redis_nil) = none
from_cache json (err e) = some (err e)
from_cache json (ok raw) = elim (json.unmarshal raw) [
  | none ↦ none
  | some l ↦ if valid l then some (ok (l, true)) else none
]

module _ (num : Numbers) where
  -- SELECT rpm, rph, rpd FROM user_rate_limits WHERE user_id = $1
  unfoldable pub select_limits : Bytes → Tables num → Result Limits × Tables num
  select_limits user t = (find_limits user t.user_rate_limits, t)

  -- INSERT INTO user_rate_limits … ON CONFLICT (user_id) DO UPDATE
  unfoldable pub upsert_limits : Bytes → Limits → Tables num → Result (Unit {0}) × Tables num
  upsert_limits user l t =
      (ok tt, record t { user_rate_limits = upsert_row user l t.user_rate_limits })

  -- DELETE FROM user_rate_limits WHERE user_id = $1
  unfoldable pub delete_limits : Bytes → Tables num → Result (Unit {0}) × Tables num
  delete_limits user t =
      (ok tt, record t { user_rate_limits = delete_rows user t.user_rate_limits })

  module _ (vk : Valkey) (json : LimitsJson) (s : Store) where
    -- `cache`
    unfoldable pub cache : Bytes → Limits → World num vk → Result (Unit {0}) × World num vk
    cache user l w =
        if s.has_redis
        then elim (json.marshal l) [
          | err e ↦ (err e, w)
          | ok b ↦
              let (r, redis') = vk.set (cache_key user) b cache_ttl w.redis in
              (r, record w { redis = redis' })
        ]
        else (ok tt, w)

    -- The second half of `Effective`, and what it makes of the query's answer.
    unfoldable pub from_row :
        Bytes → Result Limits → World num vk → Result (Limits × Bool) × World num vk
    unfolding cache
    from_row user (ok l) w = let (_, w') = cache user l w in (ok (l, true), w')
    from_row user (err no_rows) w = (ok (s.defaults, false), w)
    from_row user (err e) w = (err e, w)

    unfoldable pub effective_db : Bytes → World num vk → Result (Limits × Bool) × World num vk
    unfolding from_row
    effective_db user w =
        if s.has_pool
        then (let (r, db') = exec (select_limits user) w.db in
            from_row user r (record w { db = db' }))
        else (ok (s.defaults, false), w)

    unfoldable pub effective : Bytes → World num vk → Result (Limits × Bool) × World num vk
    unfolding from_cache effective_db
    effective user w =
        if s.has_redis
        then (let (raw, redis') = vk.get (cache_key user) w.redis in
            let w' : World num vk = record w { redis = redis' } in
            elim (from_cache json raw) [ some r ↦ (r, w') | none ↦ effective_db user w' ])
        else effective_db user w

    unfoldable pub set_override : Bytes → Limits → World num vk → Result (Unit {0}) × World num vk
    unfolding cache
    set_override user l w =
        if not (valid l)
        then (err not_positive, w)
        else if not s.has_pool
        then (err not_configured, w)
        else (let (r, db') = exec (upsert_limits user l) w.db in
            let w' : World num vk = record w { db = db' } in
            elim r [ err e ↦ (err e, w') | ok _ ↦ cache user l w' ])

    -- The deletion of the cached caps, whose error is dropped.
    unfoldable pub forget : Bytes → World num vk → World num vk
    forget user w =
        if s.has_redis then record w { redis = (vk.del (cache_key user) w.redis).1 } else w

    unfoldable pub clear_override : Bytes → World num vk → Result (Unit {0}) × World num vk
    unfolding forget
    clear_override user w =
        if s.has_pool
        then (let (r, db') = exec (delete_limits user) w.db in
            let w' : World num vk = record w { db = db' } in
            elim r [ err e ↦ (err e, w') | ok _ ↦ (ok tt, forget user w') ])
        else (ok tt, forget user w)
