-- ===== src/Billing/Coalescer.antt =====
-- api/internal/billing/coalescer.go: audio seconds are gathered into windows, one event to each.
-- The mutex makes each method one step. A method takes the readings of the clock that it makes.
use tts_platform.Common.{ℕ, suc, none, some, List, [], ◌++◌, Bytes, codes, if◌then◌else◌}
use tts_platform.Common.Decimal.{itoa}
use tts_platform.Common.Dict.{lookup, insert}
use tts_platform.Common.Int.{ℤ, ◌-ℤ◌, leb_ℤ}
use tts_platform.Common.Results.{Result, ok}
use tts_platform.Numbers.{Numbers, zero_float}
use tts_platform.Billing.Event.{Event, Nats, publish, seconds_from_pcm, new_event}

pub record Window (num : Numbers) : Type 0 where
  pub audio_seconds : num.Float
  pub last_flush : ℤ

pub record Coalescer (num : Numbers) : Type 0 where
  pub windows : List (Bytes × Window num)
  pub interval : ℤ
  pub user_id : Bytes
  pub request : Bytes
  pub transport : Bytes
  pub seq : ℕ

-- What `time.Now` gives, in the order of the calls.
pub record Readings : Type 0 where
  pub opened : ℤ
  pub checked : ℤ
  pub flushed : ℤ
  pub occurred : ℤ
  pub published : ℤ

module _ (num : Numbers) where
  open num use {Float, add, le}

  unfoldable pub new_coalescer : Bytes → Bytes → Bytes → ℤ → Coalescer num
  new_coalescer user request transport interval = record {
    windows = [];
    interval = interval;
    user_id = user;
    request = request;
    transport = transport;
    seq = 0;
  }

  -- The key of the event with a number: `fmt.Sprintf("%s:%d", c.request, c.seq)`.
  unfoldable pub idempotency_key : Bytes → ℕ → Bytes
  idempotency_key request seq = request ++ (codes ":" ++ itoa seq)

  -- The event that `flushLocked` builds for a window.
  unfoldable pub window_event : Readings → Window num → Coalescer num → Event num
  window_event t w c =
      new_event num c.user_id c.request c.transport (idempotency_key c.request (suc c.seq))
        w.audio_seconds t.occurred

  -- The coalescer after `flushLocked`: the window, which the map holds, is emptied.
  unfoldable pub after_flush : Readings → Coalescer num → Coalescer num
  after_flush t c = record c {
    windows =
        insert c.request (record { audio_seconds = zero_float num; last_flush = t.flushed })
          c.windows;
    seq = suc c.seq;
  }

  module _ (nc : Nats num) where
    open nc use {Bus}

    -- A method's error, the coalescer, and the state behind the connection.
    abbrev pub Outcome : Type 0
    Outcome = Result (Unit {0}) × Coalescer num × Bus

    unfoldable pub flush_locked : Readings → Window num → Coalescer num → Bus → Outcome
    unfolding window_event after_flush
    flush_locked t w c bus =
        let (r, bus') = publish num nc t.published (window_event t w c) bus in
        (r, after_flush t c, bus')

    -- `c.windows[c.request]`, made if it is missing.
    unfoldable pub open_window : Readings → Coalescer num → Window num
    open_window t c = elim (lookup c.request c.windows) [
      | none ↦ record { audio_seconds = zero_float num; last_flush = t.opened }
      | some w ↦ w
    ]

    -- `AddPCM` once the length of the audio is known.
    unfoldable pub add_seconds : Readings → Float → Coalescer num → Bus → Outcome
    unfolding open_window flush_locked
    add_seconds t sec c bus =
        let w = open_window t c in
        let w' = record w { audio_seconds = add w.audio_seconds sec } in
        let c' = record c { windows = insert c.request w' c.windows } in
        if leb_ℤ c.interval (t.checked -ℤ w.last_flush)
        then flush_locked t w' c' bus
        else (ok tt, c', bus)

    unfoldable pub add_pcm : Readings → ℕ → ℤ → Coalescer num → Bus → Outcome
    unfolding add_seconds
    add_pcm t bytes sample_rate c bus =
        let sec = seconds_from_pcm num bytes sample_rate in
        if le sec (zero_float num) then (ok tt, c, bus) else add_seconds t sec c bus

    unfoldable pub flush : Readings → Coalescer num → Bus → Outcome
    unfolding flush_locked
    flush t c bus = elim (lookup c.request c.windows) [
      | none ↦ (ok tt, c, bus)
      | some w ↦
          if le w.audio_seconds (zero_float num) then (ok tt, c, bus) else flush_locked t w c bus
    ]
