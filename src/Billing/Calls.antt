-- ===== src/Billing/Calls.antt =====
-- A request's calls of its coalescer, and the events that it hands to the publisher.
use tts_platform.Common.{refl, ◌++◌, ℕ, suc, ◌≡◌, ◌≢◌, List, [], ◌∷◌, foldl, Bytes, if◌then◌else◌}
use tts_platform.Common.Int.{ℤ}
use tts_platform.Numbers.{Numbers, zero_float}
use tts_platform.Billing.Event.{Event, Nats, publish, seconds_from_pcm}
use tts_platform.Billing.Coalescer.{Coalescer, Readings, idempotency_key, Outcome, add_pcm, flush}

-- The calls that a request makes of its coalescer, each with its readings of the clock.
pub data Call : Type 0 where
  adds : Readings → ℕ → ℤ → Call
  flushes : Readings → Call

module _ (num : Numbers) where
  open num use {Float, le}

  -- A window's seconds: the sum from zero on, in the order of arrival.
  abbrev pub total : List Float → Float
  total = foldl num.add (zero_float num)

  abbrev pub keep_billable : Float → List Float → List Float
  keep_billable sec rest = if le sec (zero_float num) then rest else sec ∷ rest

  -- The seconds of the chunks that are worth more than nothing.
  unfoldable pub billable : List Call → List Float
  billable [] = []
  billable (flushes t ∷ calls) = billable calls
  billable (adds t bytes rate ∷ calls) =
      keep_billable (seconds_from_pcm num bytes rate) (billable calls)

  module _ (nc : Nats num) where
    open nc use {Bus}

    -- The callers drop the errors.
    unfoldable pub call : Call → Coalescer num → Bus → Outcome num nc
    call (adds t bytes rate) c bus = add_pcm num nc t bytes rate c bus
    call (flushes t) c bus = flush num nc t c bus

    unfoldable pub run_calls : List Call → Coalescer num → Bus → Coalescer num × Bus
    unfolding call
    run_calls [] c bus = (c, bus)
    run_calls (x ∷ xs) c bus = let (_, c', bus') = call x c bus in run_calls xs c' bus'

    pub run_calls-append :
        (xs ys : List Call) (c : Coalescer num) (bus : Bus)
        → run_calls (xs ++ ys) c bus ≡ run_calls ys (run_calls xs c bus).0 (run_calls xs c bus).1
    unfolding run_calls
    run_calls-append [] ys c bus = refl
    run_calls-append (x ∷ xs) ys c bus = run_calls-append xs ys (call x c bus).1 (call x c bus).2

    -- The bus after events are handed to `Publish` in order, whatever comes of each.
    unfoldable pub publish_all : List (ℤ × Event num) → Bus → Bus
    publish_all [] bus = bus
    publish_all ((now, e) ∷ es) bus = publish_all es (publish num nc now e bus).1

  module _ (user request transport : Bytes) where
    -- The event with a number in a request, for a window with these chunks.
    abbrev pub Describes : ℕ → List Float → Event num → Type 0
    Describes seq chunks e =
        (e.idempotency_key ≡ idempotency_key num request seq)
        × (e.user_id ≡ user)
        × (e.request_id ≡ request)
        × (e.transport ≡ transport)
        × (e.audio_seconds ≡ total chunks)
        × (chunks ≢ [])

    -- Events numbered from `suc seq` on, one to each group of chunks.
    abbrev pub Numbered : ℕ → List (List Float) → List (ℤ × Event num) → Type 0
    Numbered seq [] [] = Unit {0}
    Numbered seq [] (e ∷ es) = ⊥
    Numbered seq (g ∷ gs) [] = ⊥
    Numbered seq (g ∷ gs) ((now, e) ∷ es) = Describes (suc seq) g e × Numbered (suc seq) gs es
