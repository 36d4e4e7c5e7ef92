-- ===== src/RateLimit/Counters.antt =====
-- The counter of a minute, and what one request does to it.
use mathlib.Core.List.{append_cancel_left}
use tts_platform.Common.{
  ℕ, zero, suc, ◌/◌, ◌≤◌, ◌≡◌, ◌≢◌, refl, sym, ap, ◌∙◌, inl, inr, true, none, List, [], ◌∷◌, Bytes,
  codes, All, arith, Option-cases,
}
use tts_platform.Common.Int.{ℤ, pos, ◌≤ℤ◌}
use tts_platform.Common.Results.{Result, ok, err, no_rows, Result-cases}
use tts_platform.Numbers.{Numbers}
use tts_platform.Postgres.{exec}
use tts_platform.Valkey.{Valkey, Command, incr, expire}
use tts_platform.RateLimit.Store.{
  Limits, LimitsJson, Store, World, select_limits, cache_ttl, effective, effective_db, from_row,
  cache, cache_key,
}
use tts_platform.RateLimit.Limiter.{
  seconds, minute_key, hour_key, day_key, commands, first_error, incr_replies, check_windows,
  windows, count_request,
}

abbrev pub Avoids : Bytes → Command → Type 0
Avoids k (incr j) = j ≢ k
Avoids k (expire j ttl) = Unit {0}

-- What the documentation of Valkey promises of the counter at a key, over a time in which the key
-- does not expire: INCR adds one and replies with the sum, the commands of a pipeline are run in
-- order and answered in order, and other keys do not matter. A pipeline that is reported as failed
-- may have been run or not.
pub record CounterLaws (vk : Valkey) (k : Bytes) : Type 0 where
  pub count : vk.Store → ℕ
  pub get-count : (j : Bytes) (s : vk.Store) → count (vk.get j s).1 ≡ count s
  pub set-count :
      (j v : Bytes) (ttl : ℤ) (s : vk.Store) → j ≢ k → count (vk.set j v ttl s).1 ≡ count s
  pub pipeline-grows : (cmds : List Command) (s : vk.Store) → count s ≤ count (vk.pipeline cmds s).1
  pub pipeline-incr :
      (rest : List Command) (s : vk.Store)
      → All (Avoids k) rest
      → first_error (vk.pipeline (incr k ∷ rest) s).0 ≡ none
      → (count (vk.pipeline (incr k ∷ rest) s).1 ≡ suc (count s))
        × ((rs : List (Result ℕ)) × ((vk.pipeline (incr k ∷ rest) s).0 ≡ ok (suc (count s)) ∷ rs))

-- The byte at a place, to tell keys apart.
abbrev byte_at : ℕ → Bytes → ℕ
byte_at n [] = 0
byte_at zero (c ∷ s) = c
byte_at (suc n) (c ∷ s) = byte_at n s

hour-ne-minute : (user : Bytes) (unix : ℕ) → hour_key user unix ≢ minute_key user unix
unfolding hour_key minute_key
hour-ne-minute user unix e =
    omega
      (arith, ap (byte_at 1) (append_cancel_left user _ _ (append_cancel_left (codes "rl:") _ _ e)))

day-ne-minute : (user : Bytes) (unix : ℕ) → day_key user unix ≢ minute_key user unix
unfolding day_key minute_key
day-ne-minute user unix e =
    omega
      (arith, ap (byte_at 1) (append_cancel_left user _ _ (append_cancel_left (codes "rl:") _ _ e)))

cache-ne-minute : (user other : Bytes) (unix : ℕ) → cache_key other ≢ minute_key user unix
unfolding cache_key minute_key
cache-ne-minute user other unix e = omega (arith, ap (byte_at 2) e)

minute_key-eq : (user : Bytes) (t u : ℕ) → t / 60 ≡ u / 60 → minute_key user t ≡ minute_key user u
unfolding minute_key
minute_key-eq user t u e = rw e

-- What the first window says of a verdict that lets the request through.
check-first :
    (l : Limits) (unix n : ℕ) (retry : ℤ) (rs : List (Result ℕ))
    → check_windows (windows l unix) (incr_replies (ok n ∷ rs)) ≡ ok (true, retry)
    → pos n ≤ℤ l.rpm
unfolding check_windows windows incr_replies
check-first l unix n retry [] h = ground arith
check-first l unix n retry (r ∷ rs) h = ground arith

module _ (num : Numbers) (vk : Valkey) (json : LimitsJson) (s : Store) (user : Bytes) (start : ℕ)
    (laws : CounterLaws vk (minute_key user start)) where
  open laws use {count}

  cache-count :
      (other : Bytes) (l : Limits) (w : World num vk)
      → count (cache num vk json s other l w).1.redis ≡ count w.redis
  unfolding cache
  cache-count other l w = elim (Result-cases (json.marshal l)) [
    | inl (b, m) ↦ ground (
      arith,
      laws.set-count (cache_key other) b cache_ttl w.redis (cache-ne-minute user other start),
    )
    | inr (e, m) ↦ ground arith
  ]

  from_row-count :
      (other : Bytes) (r : Result Limits) (w : World num vk)
      → count (from_row num vk json s other r w).1.redis ≡ count w.redis
  unfolding from_row
  from_row-count other (ok l) w = cache-count other l w
  from_row-count other (err no_rows) w = refl
  from_row-count other (err _) w = refl

  effective_db-count :
      (other : Bytes) (w : World num vk)
      → count (effective_db num vk json s other w).1.redis ≡ count w.redis
  unfolding effective_db
  effective_db-count other w = ground (
    arith,
    from_row-count other (exec (select_limits num other) w.db).0
        (record w { db = (exec (select_limits num other) w.db).1 }),
  )

  -- Looking up the caps leaves the counter alone.
  pub effective-count :
      (other : Bytes) (w : World num vk)
      → count (effective num vk json s other w).1.redis ≡ count w.redis
  unfolding effective
  effective-count other w = ground (
    arith,
    effective_db-count other w,
    effective_db-count other (record w { redis = (vk.get (cache_key other) w.redis).1 }),
    laws.get-count (cache_key other) w.redis,
  )

  commands-Avoids :
      (t : ℕ)
      → t / 60 ≡ start / 60
      → (rest : List Command) × (commands user t ≡ incr (minute_key user start) ∷ rest)
        × All (Avoids (minute_key user start)) rest
  unfolding commands
  commands-Avoids t e =
      let same = minute_key-eq user t start e in
      (
        _,
        ap
            (λ k.
              incr k
              ∷ expire (minute_key user t) (seconds 120)
              ∷ incr (hour_key user t)
              ∷ expire (hour_key user t) (seconds 7200)
              ∷ incr (day_key user t)
              ∷ expire (day_key user t) (seconds 172800)
              ∷ [])
            same,
        (
          tt,
          (
            (λ q. hour-ne-minute user t (q ∙ sym same)),
            (tt, ((λ q. day-ne-minute user t (q ∙ sym same)), (tt, tt))),
          ),
        ),
      )

  -- A request that is counted and let through has a count within the cap.
  pub count_request-cap :
      (t : ℕ) (l : Limits) (retry : ℤ) (w : World num vk)
      → t / 60 ≡ start / 60
      → (count_request num vk json s user t l w).0 ≡ ok (true, retry)
      → (count (count_request num vk json s user t l w).1.redis ≡ suc (count w.redis))
        × (pos (suc (count w.redis)) ≤ℤ l.rpm)
  unfolding count_request
  count_request-cap t l retry w e h =
      elim (Option-cases (first_error (vk.pipeline (commands user t) w.redis).0)) [
        | inr (x, failed) ↦ absurd (cc (rw (failed, count_request) at h))
        | inl fine ↦
            let (rest, same, avoids) = commands-Avoids t e in
            let (grown, (rs, replies)) = laws.pipeline-incr rest w.redis avoids (rw same at fine) in
            let verdict : check_windows (windows l t)
                  (incr_replies (vk.pipeline (commands user t) w.redis).0)
                ≡ ok (true, retry) =
              rw (fine, count_request) at h in
            (
              rw (fine, count_request, same) grown,
              check-first l t (suc (count w.redis)) retry rs (rw (same, replies) at verdict),
            )
      ]

  pub count_request-grows :
      (t : ℕ) (l : Limits) (w : World num vk)
      → count w.redis ≤ count (count_request num vk json s user t l w).1.redis
  unfolding count_request
  count_request-grows t l w = ground (arith, laws.pipeline-grows (commands user t) w.redis)
