-- ===== src/Speech/Usage.antt =====
-- `ListUsage` of api/internal/handler/server.go: a page of a user's usage, newest first.
use tts_platform.Common.{
  ℕ, ◌||◌, Option, none, some, List, [], ◌∷◌, map, Bytes, codes, bytes_eq, length, take, drop,
  if◌then◌else◌, ◌≡◌, false, All,
}
use mathlib.Core.List.{Permᴰ}
use tts_platform.Common.Int.{ℤ, pos, pos_part, ltb_ℤ}
use tts_platform.Common.Results.{Result, ok, err, failure}
use tts_platform.Numbers.{Numbers}
use tts_platform.Postgres.{UsageRow, Tables, Db, exec}

-- A `UsageEvent`, before its numbers are rounded to 32 bits
pub record UsageItem (num : Numbers) : Type 0 where
  pub request_id : Bytes
  pub transport : Bytes
  pub audio_seconds : num.Numeric
  pub cost_usd : num.Numeric
  pub occurred_at : ℤ

pub data UsageReply (num : Numbers) : Type 0 where
  failed : ℕ → Bytes → UsageReply num
  page : List (UsageItem num) → ℕ → UsageReply num

module _ {num : Numbers} where
  -- WHERE user_id = $1
  unfoldable pub usage_of : Bytes → List (UsageRow num) → List (UsageRow num)
  usage_of user [] = []
  usage_of user (r ∷ rs) =
      if bytes_eq r.user_id user then r ∷ usage_of user rs else usage_of user rs

  -- No row is older than one after it.
  abbrev pub IsNewestFirst : List (UsageRow num) → Type 0
  IsNewestFirst [] = Unit {0}
  IsNewestFirst (r ∷ rs) =
      All (λ s. ltb_ℤ r.occurred_at s.occurred_at ≡ false) rs × IsNewestFirst rs

  abbrev pub item_of : UsageRow num → UsageItem num
  item_of r = record {
    request_id = r.request_id;
    transport = r.transport;
    audio_seconds = r.audio_seconds;
    cost_usd = r.cost_usd;
    occurred_at = r.occurred_at;
  }

-- How Postgres sorts by `ORDER BY occurred_at DESC`: the rows that there are, newest first. Rows of the same
-- time come in any order, and in another one for another query.
pub record Sorter (num : Numbers) : Type 0 where
  pub order : ℤ → ℤ → List (UsageRow num) → List (UsageRow num)
  pub order-perm : (limit offset : ℤ) (rs : List (UsageRow num)) → Permᴰ (order limit offset rs) rs
  pub order-IsNewestFirst :
      (limit offset : ℤ) (rs : List (UsageRow num)) → IsNewestFirst (order limit offset rs)

abbrev pub or_else : ℤ → Option ℤ → ℤ
or_else d none = d
or_else d (some n) = n

module _ (num : Numbers) (sorter : Sorter num) where
  -- SELECT COUNT(*)
  unfoldable pub count_usage : Bytes → Tables num → Result ℕ × Tables num
  unfolding usage_of
  count_usage user t = (ok (length (usage_of user t.usage_events)), t)

  -- LIMIT $2 OFFSET $3, which Postgres refuses below zero
  unfoldable pub select_usage :
      Bytes → ℤ → ℤ → Tables num → Result (List (UsageRow num)) × Tables num
  unfolding usage_of
  select_usage user limit offset t =
      if ltb_ℤ limit (pos 0) || ltb_ℤ offset (pos 0)
      then (err (failure (codes "must not be negative")), t)
      else (
        ok (
            take (pos_part limit)
              (drop (pos_part offset) (sorter.order limit offset (usage_of user t.usage_events)))),
        t,
      )

  unfoldable pub usage_reply : ℕ → Result (List (UsageRow num)) → UsageReply num
  usage_reply total (err e) = failed 500 (codes "error")
  usage_reply total (ok rows) = page (map item_of rows) total

  unfoldable pub list_usage : Option Bytes → Option ℤ → Option ℤ → Db num → UsageReply num × Db num
  unfolding count_usage select_usage usage_reply
  list_usage none limit offset db = (failed 401 (codes "unauthorized"), db)
  list_usage (some user) limit offset db =
      let (counted, db') = exec (count_usage user) db in
      let (rows, db'') =
        exec (select_usage user (or_else (pos 50) limit) (or_else (pos 0) offset)) db' in
      elim counted [
        | err e ↦ (failed 500 (codes "error"), db')
        | ok total ↦ (usage_reply total rows, db'')
      ]
