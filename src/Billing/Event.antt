-- ===== src/Billing/Event.antt =====
-- api/internal/billing/event.go: billable events, their publisher, and the cost of audio.
-- A time is a number of nanoseconds from Go's zero time on, and a UUID is its canonical text.
use tts_platform.Common.{ℕ, ◌/◌, Bool, Bytes, codes, if◌then◌else◌, ◌&&◌}
use tts_platform.Common.Int.{ℤ, pos, leb_ℤ}
use tts_platform.Common.Results.{Result, ok, err}
use tts_platform.Numbers.{Numbers, zero_float}

abbrev pub subject : Bytes
subject = codes "billable.tts.v1"

pub record Event (num : Numbers) : Type 0 where
  pub idempotency_key : Bytes
  pub user_id : Bytes
  pub request_id : Bytes
  pub transport : Bytes
  pub audio_seconds : num.Float
  pub occurred_at : ℤ

-- The NATS connection and `json.Marshal` of an event. `Bus` is the state behind the connection.
pub record Nats (num : Numbers) : Type 1 where
  pub Bus : Type 0
  pub marshal : Event num → Result Bytes
  pub publish : Bytes → Bytes → Bus → Result (Unit {0}) × Bus

abbrev pub zero_time : ℤ
zero_time = pos 0

abbrev is_zero : ℤ → Bool
is_zero t = leb_ℤ t (pos 0) && leb_ℤ (pos 0) t

module _ (num : Numbers) where
  open num use {Float, float, mul, div, le, lt}

  -- An event that carries no time is given one.
  abbrev pub stamp : ℤ → Event num → Event num
  stamp now e = if is_zero e.occurred_at then record e { occurred_at = now } else e

  -- `Publish`: `now` is read only if the event carries no time.
  unfoldable pub publish : (nc : Nats num) → ℤ → Event num → nc.Bus → Result (Unit {0}) × nc.Bus
  publish nc now e bus = elim (nc.marshal (stamp now e)) [
    | ok b ↦ nc.publish subject b bus
    | err x ↦ (err x, bus)
  ]

  pub record DeliveryBudget : Type 0 where
    pub remaining_usd : Float
    pub price_per_min : Float

  unfoldable pub can_deliver_more : DeliveryBudget → Bool
  can_deliver_more d = lt (zero_float num) d.remaining_usd

  unfoldable pub cost_for_seconds : Float → Float → Float
  cost_for_seconds seconds price_per_minute =
      if le seconds (zero_float num)
      then zero_float num
      else mul (div seconds (float (pos 60))) price_per_minute

  -- A sample has two bytes; a rate that is not positive stands for 24000.
  unfoldable pub seconds_from_pcm : ℕ → ℤ → Float
  seconds_from_pcm bytes sample_rate =
      div (float (pos (bytes / 2)))
        (float (if leb_ℤ sample_rate (pos 0) then pos 24000 else sample_rate))

  unfoldable pub new_event : Bytes → Bytes → Bytes → Bytes → Float → ℤ → Event num
  new_event user request transport key seconds now = record {
    idempotency_key = key;
    user_id = user;
    request_id = request;
    transport = transport;
    audio_seconds = seconds;
    occurred_at = now;
  }
