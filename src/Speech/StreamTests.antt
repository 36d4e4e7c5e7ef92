-- ===== src/Speech/StreamTests.antt =====
-- A stream of two chunks, the second of which the client does not take.
use tts_platform.Common.{◌≡◌, refl, false, true, Option, none, some, List, [], ◌∷◌, Bytes, codes}
use tts_platform.Common.Int.{pos, ◌+ℤ◌, ◌-ℤ◌, ◌*ℤ◌, div_ℤ}
use tts_platform.Common.Results.{ok, canceled}
use tts_platform.Numbers.Fixed.{fixed}
use tts_platform.Numbers.Laws.{fixed_add_laws}
use tts_platform.Postgres.{empty_tables}
use tts_platform.Valkey.Memory.{memory, empty_memory}
use tts_platform.Wallet.Cache.{Codec, World}
use tts_platform.Synth.Limiter.{Limiter}
use tts_platform.Speech.Feed.{Turn, received}
use tts_platform.Speech.Job.{Chunk}
use tts_platform.Speech.Stream.{Moment}
use tts_platform.Speech.Streaming.{Meets, Outcome}
use tts_platform.Speech.Streamed.{Settles, stream_tts-Settles}
use tts_platform.Speech.Streaming.{
  stream_tts, with_request, first_delivery, give_back, past_gate, stream_audio, with_slot,
}
use tts_platform.Speech.Admission.{admit, acquire_synthesis, gate_of, observe_wallet}
use tts_platform.Wallet.Cache.{
  has_balance, bytes_of, decode, find_wallet, from_l2, get, getter, group_get, invalidate,
  load_and_keep, load_db, load_l2_or_db, price_of, refresh, select_wallet, snapshot_of, wallet_key,
}
use tts_platform.Postgres.{exec}
use tts_platform.Synth.Limiter.{acquire, release, receive, select, send}
use tts_platform.Billing.Coalescer.{
  flush, add_pcm, new_coalescer, add_seconds, after_flush, flush_locked, idempotency_key,
  open_window, window_event,
}
use tts_platform.Billing.Event.{cost_for_seconds, seconds_from_pcm, new_event, publish}
use tts_platform.Speech.Feed.{copy_audio_stream}
use tts_platform.Speech.Stream.{on_chunk, count, deliver, pay, refreshed_budget, snap_or_zero}
use tts_platform.Speech.Job.{chunk_cost, chunk_seconds}
use tts_platform.Common.Decimal.{itoa}
use tts_platform.Fixtures.{forgetful, recorder}

abbrev pub codec : Codec fixed
codec = record {
  marshal = λ s. ok (codes "{}");
  unmarshal =
      λ b. some (record { balance_usd = pos 100; price_per_audio_minute_usd = pos 1_000_000 });
  parse_uuid = λ b. ok b;
}

abbrev pub world : World fixed memory forgetful
world = record {
  db = record {
    tables = record (empty_tables fixed) {
      users =
          record {
            id = codes "u1";
            username = codes "ann";
            password_hash = [];
            price_per_audio_minute_usd = none;
          }
          ∷ [];
      wallets = record { user_id = codes "u1"; balance_usd = pos 500 } ∷ [];
    };
    faults = [];
  };
  redis = empty_memory;
  cache = tt;
}

abbrev chunk : Chunk
chunk = record {
  pcm = 1 ∷ 2 ∷ 3 ∷ 4 ∷ [];
  sample_rate = pos 24000;
  readings = record {
    opened = pos 5;
    checked = pos 5;
    flushed = pos 5;
    occurred = pos 5;
    published = pos 5;
  };
}

abbrev turns : List (Turn Moment)
turns =
    received (record { chunk = chunk; write = none; now = pos 10; refreshed = pos 11 })
    ∷ received (record { chunk = chunk; write = some canceled; now = pos 12; refreshed = pos 13 })
    ∷ []

abbrev meets : Meets
meets = record {
  body = some (record { text = codes "hi"; voice = none });
  pick = true;
  ended = none;
  synthesize = λ request text voice. ok turns;
  request = codes "r1";
  now = pos 0;
  last = record {
    opened = pos 20;
    checked = pos 20;
    flushed = pos 20;
    occurred = pos 20;
    published = pos 20;
  };
}

abbrev slots : Option Limiter
slots = some (record { cap = 1; held = 0 })

abbrev bus_of : Outcome fixed recorder memory forgetful codec (pos 50_000) false → List Bytes
bus_of none = []
bus_of (some (e, w, bus, l)) = bus

-- One event is published.
one_event :
    bus_of (
      stream_tts fixed recorder memory forgetful codec
        (pos 50_000)
        false
        (some (codes "u1"))
        (pos 300)
        (pos 5_000_000_000)
        meets
        []
        world
        slots)
    ≡ codes "r1:1" ∷ []
unfolding stream_tts with_request first_delivery give_back past_gate stream_audio with_slot admit
    acquire_synthesis gate_of observe_wallet has_balance bytes_of decode find_wallet from_l2 get
    getter group_get invalidate load_and_keep load_db load_l2_or_db price_of refresh select_wallet
    snapshot_of wallet_key exec acquire release receive select send flush add_pcm new_coalescer
    add_seconds after_flush flush_locked idempotency_key open_window window_event cost_for_seconds
    seconds_from_pcm new_event publish copy_audio_stream on_chunk count deliver pay refreshed_budget
    snap_or_zero chunk_cost chunk_seconds itoa ◌*ℤ◌ ◌-ℤ◌ ◌+ℤ◌ div_ℤ
one_event = refl

stream_tts-Settles_example :
    Settles fixed recorder memory forgetful codec (pos 50_000) false (codes "u1") meets [] slots (
      stream_tts fixed recorder memory forgetful codec
        (pos 50_000)
        false
        (some (codes "u1"))
        (pos 300)
        (pos 5_000_000_000)
        meets
        []
        world
        slots)
stream_tts-Settles_example =
    stream_tts-Settles fixed recorder memory forgetful codec (pos 50_000) false fixed_add_laws
      (codes "u1") (pos 300) (pos 5_000_000_000) meets [] world slots
