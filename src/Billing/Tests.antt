-- ===== src/Billing/Tests.antt =====
-- Billing at concrete inputs, in millionths of a second.
use tts_platform.Common.{◌≡◌, refl, List, [], ◌∷◌, ◌++◌, Bytes, codes, concat}
use tts_platform.Common.Decimal.{itoa}
use tts_platform.Common.Int.{ℤ, pos, ◌+ℤ◌, ◌-ℤ◌, ◌*ℤ◌, div_ℤ}
use tts_platform.Common.Results.{ok}
use tts_platform.Numbers.Fixed.{fixed}
use tts_platform.Numbers.Laws.{fixed_add_laws}
use tts_platform.Billing.Event.{Event, Nats, cost_for_seconds, seconds_from_pcm, publish, new_event}
use tts_platform.Billing.Coalescer.{
  Coalescer, Readings, new_coalescer, idempotency_key, add_pcm, flush,
}
use tts_platform.Billing.Calls.{Call, adds, flushes, run_calls, publish_all, billable, Numbered}
use tts_platform.Billing.Windows.{run_calls-windows}
use tts_platform.Billing.Keys.{keys, Distinct, run_calls-Distinct}

-- A bus that keeps the keys of what is published.
abbrev recorder : Nats fixed
recorder = record {
  Bus = List Bytes;
  marshal = λ e. ok e.idempotency_key;
  publish = λ subj b bus. (ok tt, bus ++ b ∷ []);
}

abbrev readings : ℤ → Readings
readings t = record { opened = t; checked = t; flushed = t; occurred = t; published = t }

-- Two chunks of 4096 bytes, an empty one, and a third after the interval of 300 ms.
abbrev pub calls : List Call
calls =
    adds (readings (pos 1_000_000_000)) 4096 (pos 24000)
    ∷ adds (readings (pos 1_100_000_000)) 0 (pos 24000)
    ∷ adds (readings (pos 1_400_000_000)) 4096 (pos 24000)
    ∷ adds (readings (pos 1_500_000_000)) 4096 (pos 0)
    ∷ []

abbrev pub last : Readings
last = readings (pos 1_600_000_000)

abbrev session : Coalescer fixed
session = new_coalescer fixed (codes "u1") (codes "r1") (codes "http_stream") (pos 300_000_000)

-- Two events: the first window closes at the third chunk, the second at the final flush.
two_events :
    (run_calls fixed recorder (calls ++ flushes last ∷ []) session []).1
    ≡ codes "r1:1" ∷ codes "r1:2" ∷ []
unfolding run_calls new_coalescer add_pcm flush seconds_from_pcm publish new_event idempotency_key
    itoa ◌+ℤ◌ ◌-ℤ◌ ◌*ℤ◌ div_ℤ
two_events = refl

-- 85333 millionths of a second at $0.05 a minute cost 71 millionths of a dollar.
cost : cost_for_seconds fixed (pos 85_333) (pos 50_000) ≡ pos 71
unfolding cost_for_seconds ◌*ℤ◌ div_ℤ
cost = refl

run_calls-windows_example :
    (events : List (ℤ × Event fixed)) × (groups : List (List ℤ)) × ((run_calls fixed recorder
        (calls ++ flushes last ∷ [])
        session
        []).1
      ≡ publish_all fixed recorder events [])
    × (concat groups ≡ billable fixed calls)
    × Numbered fixed (codes "u1") (codes "r1") (codes "http_stream") 0 groups events
run_calls-windows_example =
    run_calls-windows fixed fixed_add_laws recorder (codes "u1") (codes "r1") (codes "http_stream")
      (pos 300_000_000) calls last []

run_calls-Distinct_example :
    (events : List (ℤ × Event fixed)) × ((run_calls fixed recorder
        (calls ++ flushes last ∷ [])
        session
        []).1
      ≡ publish_all fixed recorder events [])
    × Distinct (keys fixed (codes "u1") (codes "r1") (codes "http_stream") events)
run_calls-Distinct_example =
    run_calls-Distinct fixed fixed_add_laws recorder (codes "u1") (codes "r1") (codes "http_stream")
      (pos 300_000_000) calls last []
