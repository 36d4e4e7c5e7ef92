-- ===== src/Speech/Paging.antt =====
-- The pages of `ListUsage` (api/internal/handler/server.go), read one after the other.
use tts_platform.Common.{
  ℕ, zero, suc, ◌+◌, ◌*◌, ◌≤◌, ◌≡◌, refl, sym, ap, ◌∙◌, some, List, [], ◌++◌, map, map-append,
  Bytes, length, take, drop, take-take, drop-drop, take_all, arith,
}
use mathlib.Core.List.{Permᴰ}
use tts_platform.Common.Int.{pos}
use tts_platform.Numbers.{Numbers}
use tts_platform.Postgres.{UsageRow, Db, exec}
use tts_platform.Speech.Usage.{
  UsageItem, UsageReply, failed, page, usage_of, IsNewestFirst, Sorter, item_of, count_usage,
  select_usage, usage_reply, list_usage,
}
use tts_platform.Speech.Sorted.{
  newest_first, newest_first-perm, newest_first-Newest, length-perm, AreApart, newest_first_unique,
}

module _ (num : Numbers) (sorter : Sorter num) (user : Bytes) (n : ℕ) where
  abbrev pub items : UsageReply num → List (UsageItem num)
  items (failed status text) = []
  items (page is total) = is

  -- What `k` pages of `n` events show, read one after the other from an offset
  unfoldable pub read_pages : ℕ → ℕ → Db num → List (UsageItem num)
  read_pages zero offset db = []
  read_pages (suc k) offset db =
      let (reply, db') = list_usage num sorter (some user) (some (pos n)) (some (pos offset)) db in
      items reply ++ read_pages k (offset + n) db'

  abbrev sorted : Db num → List (UsageRow num)
  sorted db = newest_first (usage_of user db.tables.usage_events)

  list_usage-page :
      (offset : ℕ) (db : Db num)
      → db.faults ≡ []
      → AreApart (usage_of user db.tables.usage_events)
      → list_usage num sorter (some user) (some (pos n)) (some (pos offset)) db ≡ (
        page
            (map item_of (take n (drop offset (sorted db))))
            (length (usage_of user db.tables.usage_events)),
        record { tables = db.tables; faults = [] },
      )
  unfolding list_usage count_usage select_usage usage_reply exec
  list_usage-page offset db sound apart_ =
      let us = usage_of user db.tables.usage_events in
      let ordered =
        newest_first_unique us (sorter.order (pos n) (pos offset) us)
          (sorter.order-perm (pos n) (pos offset) us)
          (sorter.order-IsNewestFirst (pos n) (pos offset) us) apart_ in
      ground (arith, ordered)

  read_pages-take :
      (k offset : ℕ) (db : Db num)
      → db.faults ≡ []
      → AreApart (usage_of user db.tables.usage_events)
      → read_pages k offset db ≡ map item_of (take (k * n) (drop offset (sorted db)))
  unfolding read_pages
  read_pages-take zero offset db sound apart_ =
      ap (λ m. map item_of (take m (drop offset (sorted db)))) {x = zero} (omega arith)
  read_pages-take (suc k) offset db sound apart_ =
      let rest = drop offset (sorted db) in
      let db' : Db num = record { tables = db.tables; faults = [] } in
      rw (list_usage-page offset db sound apart_) (
        ap (λ l. map item_of (take n rest) ++ l) (read_pages-take k (offset + n) db' refl apart_)
        ∙ ap (λ l. map item_of (take n rest) ++ map item_of (take (k * n) l))
            (sym (drop-drop offset n (sorted db)))
        ∙ sym (map-append item_of (take n rest) (take (k * n) (drop n rest)))
        ∙ ap (map item_of) (take-take n (k * n) rest)
        ∙ ap (λ m. map item_of (take m rest)) {x = n + k * n} (grind arith))

-- On a database that does not fail, and sorts rows of one time in any way, anew for each query: if no two events
-- of a user have the same time, as many pages of one size as have room for the events of a user, read one
-- after the other from the first, show together each of these events once, and none after an older one.
pub read_pages-Newest :
    (num : Numbers) (sorter : Sorter num) (user : Bytes) (n k : ℕ) (db : Db num)
    → db.faults ≡ []
    → AreApart (usage_of user db.tables.usage_events)
    → length (usage_of user db.tables.usage_events) ≤ k * n
    → (rows : List (UsageRow num)) × (read_pages num sorter user n k 0 db ≡ map item_of rows)
      × Permᴰ rows (usage_of user db.tables.usage_events)
      × IsNewestFirst rows
read_pages-Newest num sorter user n k db sound apart_ room =
    let rows = newest_first (usage_of user db.tables.usage_events) in
    let same = newest_first-perm (usage_of user db.tables.usage_events) in
    (
      rows,
      read_pages-take num sorter user n k 0 db sound apart_
          ∙ ap (map item_of) (take_all (k * n) rows (omega (arith, length-perm same))),
      same,
      newest_first-Newest (usage_of user db.tables.usage_events),
    )
