-- ===== src/Speech/PagingTests.antt =====
-- Two pages of one event each.
use tts_platform.Common.{◌≡◌, refl, List, [], ◌∷◌, map, codes, arith}
use mathlib.Core.List.{Permᴰ}
use tts_platform.Common.Int.{ℤ, pos}
use tts_platform.Numbers.Fixed.{fixed}
use tts_platform.Postgres.{UsageRow, Db, empty_tables}
use tts_platform.Speech.Usage.{IsNewestFirst, Sorter, usage_of, item_of}
use tts_platform.Speech.Sorted.{newest_first, newest_first-perm, newest_first-Newest}
use tts_platform.Speech.Paging.{read_pages, read_pages-Newest}

abbrev row : ℤ → UsageRow fixed
row at = record {
  user_id = codes "u1";
  idempotency_key = codes "r1:1";
  request_id = codes "r1";
  transport = codes "http_stream";
  audio_seconds = pos 60_000_000;
  cost_usd = pos 50_000;
  occurred_at = at;
}

abbrev db : Db fixed
db = record {
  tables = record (empty_tables fixed) { usage_events = row (pos 5) ∷ row (pos 8) ∷ [] };
  faults = [];
}

-- A database that keeps rows of one time as they are in the table
abbrev stable : Sorter fixed
stable = record {
  order = λ limit offset rs. newest_first rs;
  order-perm = λ limit offset rs. newest_first-perm rs;
  order-IsNewestFirst = λ limit offset rs. newest_first-Newest rs;
}

read_pages-Newest_example :
    (rows : List (UsageRow fixed)) × (read_pages fixed stable (codes "u1") 1 2 0 db
      ≡ map item_of rows)
    × Permᴰ rows (usage_of (codes "u1") db.tables.usage_events)
    × IsNewestFirst rows
unfolding usage_of
read_pages-Newest_example =
    read_pages-Newest fixed stable (codes "u1") 1 2 db refl ((refl, tt), (tt, tt)) (omega arith)
