-- ===== src/Pipeline/Billed.antt =====
-- What a request's audio comes to in the ledger: the coalescer of api/internal/billing, NATS, and the consumer
-- of metering/internal/consumer, one after the other.
use tts_platform.Common.{
  ℕ, ◌+◌, ◌≡◌, sym, ap, ◌∙◌, subst, ◌⊎◌, inl, inr, false, Option, List, [], ◌∷◌, ◌++◌, map, foldl,
  Bytes, concat, length,
}
use tts_platform.Common.Int.{ℤ}
use tts_platform.Common.Results.{ok}
use tts_platform.Numbers.{Numbers, zero_float, AddLaws}
use tts_platform.Postgres.{UsageRow}
use tts_platform.Valkey.{Valkey}
use tts_platform.Billing.Event.{Event, Nats}
use tts_platform.Billing.Coalescer.{Readings, new_coalescer, idempotency_key}
use tts_platform.Billing.Calls.{Call, flushes, billable, run_calls, publish_all, Numbered}
use tts_platform.Billing.Windows.{run_calls-windows}
use tts_platform.Metering.Consumer.{Codec, Consumer, message, tick, has_usage, find_user, run}
use tts_platform.Metering.Prices.{ArePrices}
use tts_platform.Pipeline.Sent.{Delivers, Reads, Refused, stamped, sent-publish_all}
use tts_platform.Pipeline.Booked.{paid, run-HasBooked}
use tts_platform.Pipeline.Rows.{
  Recorded, costs_of, Numbered-IsHis, Numbered-IsNew, Numbered-Recorded, Numbered-costs,
}
use tts_platform.Pipeline.Sound.{rows_of, length-rows_of}

-- What a consumer has made of a request: rows for its groups, at prices that were found, and their debit
abbrev pub IsCharged :
    (num : Numbers) (user request transport : Bytes) (vk : Valkey) (codec : Codec num)
    (ppm : num.Float)
    → List (List num.Float)
    → Consumer num vk codec ppm
    → Consumer num vk codec ppm
    → Type 0
IsCharged num user request transport vk codec ppm groups c c' =
    (prices : List num.Float) × (rows : List (UsageRow num)) × ArePrices num vk codec ppm user
      c.world.db.tables.users c.world.redis prices
    × Recorded num user request transport 0 groups prices rows
    × (c'.world.db.tables.usage_events ≡ c.world.db.tables.usage_events ++ rows)
    × (c'.world.db.tables.wallets
        ≡ paid num user
            (foldl num.add (zero_float num) (costs_of num user request transport groups prices))
            c.world.db.tables.wallets)
    × (c'.events_processed ≡ c.events_processed + length rows)
    × (c'.pending ≡ [])

run-IsCharged :
    (num : Numbers) (laws : AddLaws num) (vk : Valkey) (codec : Codec num) (ppm : num.Float)
    (user request transport : Bytes) (p : Option num.Numeric) (bs : List Bytes)
    (groups : List (List num.Float)) (events : List (ℤ × Event num)) (c : Consumer num vk codec ppm)
    → c.pending ≡ []
    → c.world.db.faults ≡ []
    → find_user num user c.world.db.tables.users ≡ ok p
    → ((k : ℕ)
        → has_usage num (idempotency_key num request k) c.world.db.tables.usage_events ≡ false)
    → Numbered num user request transport 0 groups events
    → Reads num codec bs (stamped num events)
    → IsCharged num user request transport vk codec ppm groups c
        (run num vk codec ppm (map message bs ++ tick ∷ []) c)
run-IsCharged num laws vk codec ppm user request transport p bs groups events c none_wait sound
      there new numbered reads =
    let es = stamped num events in
    let (prices, len, priced, (usage, wallets, done, left)) =
      run-HasBooked num laws vk codec ppm user p bs es c reads
        (Numbered-IsHis num user request transport 0 groups events numbered) (sound, there)
        (Numbered-IsNew num user request transport vk codec ppm c.world.db.tables.usage_events 0
          groups events new numbered) in
    let whole : record c { pending = [] } ≡ c =
      ap (λ q. record c { pending = q }) (sym none_wait) in
    let same = ap (run num vk codec ppm (map message bs ++ tick ∷ [])) (sym whole) in
    (
      prices,
      rows_of num vk codec ppm user es prices,
      priced,
      Numbered-Recorded num user request transport vk codec ppm 0 groups events prices len numbered,
      ap (λ (x : Consumer num vk codec ppm). x.world.db.tables.usage_events) same ∙ usage,
      ap (λ (x : Consumer num vk codec ppm). x.world.db.tables.wallets) same
          ∙ wallets
          ∙ ap (λ l. paid num user (foldl num.add (zero_float num) l) c.world.db.tables.wallets)
              (Numbered-costs num user request transport vk codec ppm 0 groups events prices
                numbered),
      ap (λ (x : Consumer num vk codec ppm). x.events_processed) same
          ∙ done
          ∙ ap (λ n. c.events_processed + n)
              (sym (length-rows_of num vk codec ppm user es prices len)),
      ap (λ (x : Consumer num vk codec ppm). x.pending) same ∙ left,
    )

-- A request's audio in the ledger. A request calls its coalescer in any way and then flushes it; NATS, for
-- which the request's events read back where they can be written, hands the consumer, which holds no other
-- events, each message that it accepted once and in order, and then the consumer flushes. No statement fails,
-- the user is in the table, and no row has a key of this request. Then the seconds of all chunks that count are
-- split in order into groups, with one event for each, which `Publish` is handed one after the other. Either it
-- reports an error for one of them, or the usage events gain one row for each group, with the sum of its
-- seconds, the keys "request:1", "request:2" and so on, and its cost at a price for a minute that is found for
-- the user, in Valkey, in the row or by default. The user's wallet, and no other, is debited by the sum of these
-- costs if it is above zero, each row counts as processed, and no event is left.
pub request-Recorded :
    (num : Numbers) (laws : AddLaws num) (nc : Nats num) (vk : Valkey) (codec : Codec num)
    (user request transport : Bytes) (d : Delivers num nc codec user request transport)
    (ppm : num.Float) (interval : ℤ) (calls : List Call) (last : Readings) (bus : nc.Bus)
    (c : Consumer num vk codec ppm) (p : Option num.Numeric)
    → d.sent bus ≡ []
    → c.pending ≡ []
    → c.world.db.faults ≡ []
    → find_user num user c.world.db.tables.users ≡ ok p
    → ((k : ℕ)
        → has_usage num (idempotency_key num request k) c.world.db.tables.usage_events ≡ false)
    → let bus' =
        (run_calls num nc
          (calls ++ flushes last ∷ [])
          (new_coalescer num user request transport interval)
          bus).1 in
      let c' = run num vk codec ppm (map message (d.sent bus') ++ tick ∷ []) c in
      (groups : List (List num.Float)) × (events : List (ℤ × Event num)) × (concat groups
        ≡ billable num calls)
      × Numbered num user request transport 0 groups events
      × (bus' ≡ publish_all num nc events bus)
      × (Refused num nc events bus ⊎ IsCharged num user request transport vk codec ppm groups c c')
request-Recorded num laws nc vk codec user request transport d ppm interval calls last bus c p quiet
      none_wait sound there new =
    let (events, groups, published, split, numbered) =
      run_calls-windows num laws nc user request transport interval calls last bus in
    (
      groups,
      events,
      split,
      numbered,
      published,
      elim (sent-publish_all num nc codec user request transport d 0 groups events bus numbered) [
        | inl lost ↦ inl lost
        | inr (bs, all, reads) ↦
            let received = ap d.sent published ∙ all ∙ ap (λ l. l ++ bs) quiet in
            inr (
              subst
                (λ l.
                  IsCharged num user request transport vk codec ppm groups c
                    (run num vk codec ppm (map message l ++ tick ∷ []) c))
                (sym received)
                (run-IsCharged num laws vk codec ppm user request transport p bs groups events c
                  none_wait sound there new numbered reads))
      ],
    )
