-- ===== src/RateLimit/Overrides.antt =====
-- What `Effective` says after an override is set or cleared.
use tts_platform.Common.{
  ◌≡◌, refl, ◌⊎◌, inl, inr, Bool, true, false, some, List, [], ◌∷◌, Bytes, bytes_eq, bytes_eq_refl,
  arith, Bool-cases,
}
use tts_platform.Common.Results.{Error, Result, ok, err, no_rows}
use tts_platform.Numbers.{Numbers}
use tts_platform.Postgres.{exec, exec-cases, LimitRow}
use tts_platform.Valkey.{Valkey, ValkeyLaws}
use tts_platform.RateLimit.Store.{
  Limits, LimitsJson, Store, World, valid, cache_key, cache_ttl, find_limits, upsert_row,
  delete_rows, select_limits, upsert_limits, delete_limits, cache, from_cache, effective_db,
  effective, set_override, clear_override,
}

find-upsert :
    (user : Bytes) (l : Limits) (rs : List LimitRow)
    → find_limits user (upsert_row user l rs) ≡ ok l
unfolding find_limits upsert_row
find-upsert user l [] = rw (bytes_eq_refl user)
find-upsert user l (r ∷ rs) = elim (Bool-cases (bytes_eq r.user_id user)) [
  | inl mine ↦ rw (mine, mine)
  | inr other ↦ rw (other, other) (find-upsert user l rs)
]

find-delete :
    (user : Bytes) (rs : List LimitRow) → find_limits user (delete_rows user rs) ≡ err no_rows
unfolding find_limits delete_rows
find-delete user [] = refl
find-delete user (r ∷ rs) = elim (Bool-cases (bytes_eq r.user_id user)) [
  | inl mine ↦ rw mine (find-delete user rs)
  | inr other ↦ rw (other, other) (find-delete user rs)
]

-- The answer is this one, or a failure that is reported.
abbrev pub Answers : Limits × Bool → Result (Limits × Bool) → Type 0
Answers a r = (r ≡ ok a) ⊎ ((e : Error) × (r ≡ err e))

module _ (num : Numbers) (vk : Valkey) (json : LimitsJson) (s : Store) where
  effective_db-Answers :
      (user : Bytes) (l : Limits) (w : World num vk)
      → s.has_pool ≡ true
      → find_limits user w.db.tables.user_rate_limits ≡ ok l
      → Answers (l, true) (effective_db num vk json s user w).0
  unfolding effective_db select_limits
  effective_db-Answers user l w pool found =
      ground (arith, exec-cases (select_limits num user) w.db)

  -- An answer of Valkey that does not settle the caps leaves them to the database.
  effective-Answers :
      (user : Bytes) (l : Limits) (w : World num vk)
      → s.has_pool ≡ true
      → find_limits user w.db.tables.user_rate_limits ≡ ok l
      → (s.has_redis ≡ true
          → ((b : Bytes) × ((vk.get (cache_key user) w.redis).0 ≡ ok b)
              × (json.unmarshal b ≡ some l)
              × (valid l ≡ true))
            ⊎ ((e : Error) × ((vk.get (cache_key user) w.redis).0 ≡ err e)))
      → Answers (l, true) (effective num vk json s user w).0
  unfolding effective from_cache
  effective-Answers user l w pool found hit = ground (
    arith,
    effective_db-Answers user l (record w { redis = (vk.get (cache_key user) w.redis).1 }) pool
        found,
    effective_db-Answers user l w pool found,
  )

  effective_db-missing :
      (user : Bytes) (w : World num vk)
      → find_limits user w.db.tables.user_rate_limits ≡ err no_rows
      → Answers (s.defaults, false) (effective_db num vk json s user w).0
  unfolding effective_db select_limits
  effective_db-missing user w missing = ground (arith, exec-cases (select_limits num user) w.db)

  effective-missing :
      (user : Bytes) (w : World num vk)
      → find_limits user w.db.tables.user_rate_limits ≡ err no_rows
      → (s.has_redis ≡ true → (e : Error) × ((vk.get (cache_key user) w.redis).0 ≡ err e))
      → Answers (s.defaults, false) (effective num vk json s user w).0
  unfolding effective from_cache
  effective-missing user w missing miss = ground (
    arith,
    effective_db-missing user (record w { redis = (vk.get (cache_key user) w.redis).1 }) missing,
    effective_db-missing user w missing,
  )

  clear_override-Cleared :
      (user : Bytes) (w : World num vk)
      → s.has_pool ≡ true
      → (clear_override num vk json s user w).0 ≡ ok tt
      → let w' = (clear_override num vk json s user w).1 in
        (find_limits user w'.db.tables.user_rate_limits ≡ err no_rows)
        × (s.has_redis ≡ true → w'.redis ≡ (vk.del (cache_key user) w.redis).1)
  unfolding clear_override delete_limits
  clear_override-Cleared user w pool h = (
    ground (
      arith,
      exec-cases (delete_limits num user) w.db,
      find-delete user w.db.tables.user_rate_limits,
    ),
    λ r. ground (arith, exec-cases (delete_limits num user) w.db),
  )

  -- What a call of `SetOverride` that reports no error has done.
  abbrev Stored : Bytes → Limits → World num vk → World num vk → Type 0
  Stored user l w w' =
      (valid l ≡ true)
      × (s.has_pool ≡ true)
      × (find_limits user w'.db.tables.user_rate_limits ≡ ok l)
      × (s.has_redis ≡ true
          → (b : Bytes) × (json.marshal l ≡ ok b)
            × ((vk.set (cache_key user) b cache_ttl w.redis).0 ≡ ok tt)
            × (w'.redis ≡ (vk.set (cache_key user) b cache_ttl w.redis).1))

  set_override-Stored :
      (user : Bytes) (l : Limits) (w : World num vk)
      → (set_override num vk json s user l w).0 ≡ ok tt
      → Stored user l w (set_override num vk json s user l w).1
  unfolding set_override upsert_limits cache
  set_override-Stored user l w h = (
    ground arith,
    ground arith,
    ground (
      arith,
      exec-cases (upsert_limits num user l) w.db,
      find-upsert user l w.db.tables.user_rate_limits,
    ),
    λ r. in_cache r (json.marshal l) refl,
  )
    where
      in_cache :
          s.has_redis ≡ true
          → (m : Result Bytes) → json.marshal l ≡ m
          → (b : Bytes) × (json.marshal l ≡ ok b)
            × ((vk.set (cache_key user) b cache_ttl w.redis).0 ≡ ok tt)
            × ((set_override num vk json s user l w).1.redis
                ≡ (vk.set (cache_key user) b cache_ttl w.redis).1)
      in_cache r (ok b) m = (
        b,
        m,
        ground (arith, exec-cases (upsert_limits num user l) w.db),
        ground (arith, exec-cases (upsert_limits num user l) w.db),
      )
      in_cache r (err e) m = absurd (ground (arith, exec-cases (upsert_limits num user l) w.db))

-- The JSON of some caps reads back as these caps.
abbrev pub ReadsBack : LimitsJson → Type 0
ReadsBack json = (l : Limits) (b : Bytes) → json.marshal l ≡ ok b → json.unmarshal b ≡ some l

-- After a call of `SetOverride` that reports no error, `Effective` says the caps that were set and
-- that they are an override, or it reports a failure.
pub effective-set_override :
    (num : Numbers) (vk : Valkey) (laws : ValkeyLaws vk) (json : LimitsJson) (s : Store)
    → ReadsBack json
    → (user : Bytes) (l : Limits) (w : World num vk)
    → (set_override num vk json s user l w).0 ≡ ok tt
    → Answers (l, true) (effective num vk json s user (set_override num vk json s user l w).1).0
effective-set_override num vk laws json s reads user l w h =
    let (good, pool, found, cached) = set_override-Stored num vk json s user l w h in
    effective-Answers num vk json s user l (set_override num vk json s user l w).1 pool found λ r.
      let (b, m, stored, same) = cached r in
      rw same (elim (laws.get-set (cache_key user) b cache_ttl w.redis stored) [
        | inl got ↦ inl (b, got, reads l b m, good)
        | inr (e, got) ↦ inr (e, got)
      ])

-- After a call of `ClearOverride` that reports no error, on a store with a database, `Effective`
-- says the defaults or reports a failure, if Valkey acknowledged the deletion of the cached caps.
effective-clear_override :
    (num : Numbers) (vk : Valkey) (laws : ValkeyLaws vk) (json : LimitsJson) (s : Store)
    (user : Bytes) (w : World num vk)
    → s.has_pool ≡ true
    → (clear_override num vk json s user w).0 ≡ ok tt
    → (vk.del (cache_key user) w.redis).0 ≡ ok tt
    → Answers
        (s.defaults, false)
        (effective num vk json s user (clear_override num vk json s user w).1).0
effective-clear_override num vk laws json s user w pool h gone =
    let (missing, same) = clear_override-Cleared num vk json s user w pool h in
    effective-missing num vk json s user (clear_override num vk json s user w).1 missing
      λ r. rw (same r) (laws.get-del (cache_key user) w.redis gone)

-- If a store has a database on which no statement fails, and Valkey, which has valid caps of a user, reports an
-- error for their deletion and gives them still: `ClearOverride` reports no error and deletes the user's row,
-- and yet `Effective` goes on to say the old caps, as an override.
pub clear_override_stale :
    (num : Numbers) (vk : Valkey) (json : LimitsJson) (s : Store) (user b : Bytes) (l : Limits)
    (w : World num vk) (e : Error)
    → s.has_redis ≡ true
    → s.has_pool ≡ true
    → w.db.faults ≡ []
    → (vk.del (cache_key user) w.redis).0 ≡ err e
    → (vk.get (cache_key user) (vk.del (cache_key user) w.redis).1).0 ≡ ok b
    → json.unmarshal b ≡ some l
    → valid l ≡ true
    → let (r, w') = clear_override num vk json s user w in
      (r ≡ ok tt)
      × (find_limits user w'.db.tables.user_rate_limits ≡ err no_rows)
      × ((effective num vk json s user w').0 ≡ ok (l, true))
unfolding clear_override delete_limits effective from_cache exec
clear_override_stale num vk json s user b l w e r pool sound lost got read good =
    (ground arith, ground (arith, find-delete user w.db.tables.user_rate_limits), ground arith)
