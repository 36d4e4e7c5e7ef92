-- ===== src/RateLimit/Limiter.antt =====
-- api/internal/ratelimit/ratelimit.go: requests are counted by minute, hour and day. The clock is
-- one reading of the Unix time in seconds, which is not negative.
use tts_platform.Common.{
  ℕ, ◌-◌, ◌*◌, ◌/◌, ◌%◌, Bool, true, false, Option, none, some, List, [], ◌∷◌, ◌++◌, Bytes, codes,
  if◌then◌else◌,
}
use tts_platform.Common.Decimal.{itoa}
use tts_platform.Common.Int.{ℤ, pos, pos_part, ltb_ℤ, leb_ℤ}
use tts_platform.Common.Results.{Error, Result, ok, err}
use tts_platform.Numbers.{Numbers}
use tts_platform.Valkey.{Valkey, Command, incr, expire}
use tts_platform.RateLimit.Store.{Limits, LimitsJson, Store, World, effective}

-- A number of seconds as a `time.Duration`.
abbrev pub seconds : ℕ → ℤ
seconds n = pos (n * 1_000_000_000)

-- The three counters: `fmt.Sprintf("rl:%s:m:%d", uid, minute)` and so on.
unfoldable pub minute_key : Bytes → ℕ → Bytes
minute_key user unix = codes "rl:" ++ (user ++ (codes ":m:" ++ itoa (unix / 60)))

unfoldable pub hour_key : Bytes → ℕ → Bytes
hour_key user unix = codes "rl:" ++ (user ++ (codes ":h:" ++ itoa (unix / 3600)))

unfoldable pub day_key : Bytes → ℕ → Bytes
day_key user unix = codes "rl:" ++ (user ++ (codes ":d:" ++ itoa (unix / 86400)))

-- The pipeline: each key is counted up, and its expiry is set.
unfoldable pub commands : Bytes → ℕ → List Command
commands user unix =
    incr (minute_key user unix)
    ∷ expire (minute_key user unix) (seconds 120)
    ∷ incr (hour_key user unix)
    ∷ expire (hour_key user unix) (seconds 7200)
    ∷ incr (day_key user unix)
    ∷ expire (day_key user unix) (seconds 172800)
    ∷ []

-- The error of `pipe.Exec`: that of the first command that failed.
unfoldable pub first_error : List (Result ℕ) → Option Error
first_error [] = none
first_error (err e ∷ rs) = some e
first_error (ok n ∷ rs) = first_error rs

-- The replies to the INCR commands, which alternate with EXPIRE.
unfoldable pub incr_replies : List (Result ℕ) → List (Result ℕ)
incr_replies (r ∷ s ∷ rs) = r ∷ incr_replies rs
incr_replies rs = rs

-- One round of the loop over the windows: a count above its cap ends it.
unfoldable pub check_window : ℤ → ℤ → Result ℕ → Result (Bool × ℤ) → Result (Bool × ℤ)
check_window limit retry (err e) rest = err e
check_window limit retry (ok n) rest = if ltb_ℤ limit (pos n) then ok (false, retry) else rest

unfoldable pub check_windows : List (ℤ × ℤ) → List (Result ℕ) → Result (Bool × ℤ)
unfolding check_window
check_windows [] rs = ok (true, pos 0)
check_windows ((limit, retry) ∷ ws) [] = check_window limit retry (ok 0) (check_windows ws [])
check_windows ((limit, retry) ∷ ws) (r ∷ rs) = check_window limit retry r (check_windows ws rs)

-- The caps, each with the time to wait: to the end of the minute, or the expiry of the counter.
unfoldable pub windows : Limits → ℕ → List (ℤ × ℤ)
windows l unix =
    (l.rpm, seconds (60 - unix % 60)) ∷ (l.rph, seconds 7200) ∷ (l.rpd, seconds 172800) ∷ []

module _ (num : Numbers) (vk : Valkey) (json : LimitsJson) (s : Store) where
  unfoldable pub count_request :
      Bytes → ℕ → Limits → World num vk → Result (Bool × ℤ) × World num vk
  unfolding commands
  count_request user unix l w =
      let (replies, redis') = vk.pipeline (commands user unix) w.redis in
      let w' : World num vk = record w { redis = redis' } in
      elim (first_error replies) [
        | some e ↦ (err e, w')
        | none ↦ (check_windows (windows l unix) (incr_replies replies), w')
      ]

  unfoldable pub allow : Bytes → ℕ → World num vk → Result (Bool × ℤ) × World num vk
  unfolding count_request
  allow user unix w =
      let (caps, w') = effective num vk json s user w in
      elim caps [ err e ↦ (err e, w') | ok (l, _) ↦ count_request user unix l w' ]

-- `RetryAfterHeader`
unfoldable pub retry_after_header : ℤ → Bytes
retry_after_header d = itoa (pos_part (if leb_ℤ d (pos 0) then seconds 60 else d) / 1_000_000_000)
