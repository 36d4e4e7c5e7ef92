-- ===== src/Live/Tests.antt =====
-- A session of a user whose balance pays for one chunk.
use tts_platform.Common.{
  ◌≡◌, refl, Option, none, some, List, [], ◌∷◌, map, ◌++◌, Bytes, codes, concat, true, false,
}
use tts_platform.Common.Int.{ℤ, pos, ◌-ℤ◌, ◌*ℤ◌, div_ℤ}
use tts_platform.Common.Results.{ok}
use tts_platform.Numbers.Fixed.{fixed}
use tts_platform.Numbers.Laws.{fixed_add_laws}
use tts_platform.Postgres.{empty_tables}
use tts_platform.Valkey.Memory.{memory, empty_memory}
use tts_platform.Billing.Event.{Event as Billed, seconds_from_pcm, cost_for_seconds}
use tts_platform.Billing.Coalescer.{Readings, new_coalescer, open_window, flush}
use tts_platform.Billing.Calls.{publish_all, Numbered}
use tts_platform.Wallet.Cache.{WalletSnapshot, Codec, World}
use tts_platform.Speech.Job.{Chunk, chunk_cost, chunk_seconds}
use tts_platform.Speech.Delivery.{seconds_of}
use tts_platform.Live.Blank.{is_blank}
use tts_platform.Live.Wire.{
  Inbound, chunk, Event, look, receive, weigh, pay, check, write, bill, hear, hang_up, flush_all,
  leave,
}
use tts_platform.Live.Session.{
  Session, open_session, close_utterance, announce, lengthen, count_chunk, end_utterance,
  on_received, charge, test_budget, send_audio, bill_chunk, begin_utterance,
}
use tts_platform.Live.Rounds.{
  refresh_budget, say, on_inbound, on_message, write_step, read_step, step, run,
}
use tts_platform.Live.Quiet.{audio_of}
use mathlib.Core.List.{Sublistᴰ}
use tts_platform.Live.Heard.{heard_all}
use tts_platform.Live.Delivered.{Accounted, run-delivered}
use tts_platform.Live.Settled.{run-settled}
use tts_platform.Live.Exhausted.{told, late_audio, run-exhausted}
use tts_platform.Live.Spoken.{lines, run-spoken}
use tts_platform.Live.Late.{run-late_chunk}
use tts_platform.Live.Entry.{Meets, Leaves, serve_live, serve_live-Leaves}
use tts_platform.Fixtures.{forgetful, recorder}

-- All messages are texts, which end an utterance.
abbrev unmarshal : Bytes → Option Inbound
unmarshal b = some (record { kind = codes "text"; text = b; final = true; voice = [] })

-- A tenth of a thousandth of a dollar, at 60 dollars a minute
abbrev snap : WalletSnapshot fixed
snap = record { balance_usd = pos 100; price_per_audio_minute_usd = pos 60_000_000 }

abbrev codec : Codec fixed
codec = record {
  marshal = λ s. ok (codes "{}");
  unmarshal = λ b. some snap;
  parse_uuid = λ b. ok b;
}

abbrev world : World fixed memory forgetful
world = record {
  db = record {
    tables = record (empty_tables fixed) {
      wallets = record { user_id = codes "u1"; balance_usd = pos 100 } ∷ [];
    };
    faults = [];
  };
  redis = empty_memory;
  cache = tt;
}

abbrev readings : ℤ → Readings
readings t = record { opened = t; checked = t; flushed = t; occurred = t; published = t }

abbrev pcm : Chunk
pcm = record { pcm = 1 ∷ 2 ∷ 3 ∷ 4 ∷ []; sample_rate = pos 24000; readings = readings (pos 5) }

abbrev hello : Event
hello = hear (record {
  raw = codes "hello";
  send_error = none;
  started = pos 1;
  checked = pos 2;
  refreshed = pos 3;
})

-- A chunk is received and sent, and not yet billed.
abbrev send_one : List Event
send_one = look ∷ receive (chunk pcm (pos 0) (pos 4)) ∷ weigh ∷ pay ∷ check ∷ write none ∷ []

-- The client is sent one chunk, and the handler leaves its loop.
abbrev paid_for : List Event
paid_for =
    hello
    ∷ look
    ∷ receive (chunk pcm (pos 0) (pos 4))
    ∷ weigh
    ∷ pay
    ∷ check
    ∷ write none
    ∷ bill
    ∷ hang_up
    ∷ []

-- The second chunk is one too many.
abbrev too_many : List Event
too_many =
    hello
    ∷ look
    ∷ receive (chunk pcm (pos 0) (pos 4))
    ∷ weigh
    ∷ pay
    ∷ check
    ∷ write none
    ∷ bill
    ∷ look
    ∷ receive (chunk pcm (pos 1) (pos 5))
    ∷ weigh
    ∷ pay
    ∷ check
    ∷ hello
    ∷ []

abbrev first : Session fixed recorder memory forgetful
first =
    open_session fixed recorder memory forgetful (codes "u1") (codes "r1") (pos 300) (pos 0) snap []
      world

abbrev live : List Event → Session fixed recorder memory forgetful
live es =
    run fixed recorder memory forgetful unmarshal codec (pos 50_000) false (codes "u1") (pos 100) es
      first

run-delivered_example :
    Accounted fixed recorder memory forgetful
      (codes "u1")
      (pos 300)
      (codes "r1")
      []
      (heard_all too_many)
      (live too_many)
run-delivered_example =
    run-delivered fixed recorder memory forgetful unmarshal codec (pos 50_000) false (codes "u1")
      (pos 100) too_many (codes "r1") (pos 300) (pos 0) snap [] world

run-exhausted_example : late_audio (live too_many).frames ≡ []
run-exhausted_example =
    run-exhausted fixed recorder memory forgetful unmarshal codec (pos 50_000) false (codes "u1")
      (pos 100) too_many (codes "r1") (pos 300) (pos 0) snap [] world

run-spoken_example : (live too_many).texts ≡ lines unmarshal too_many (codes "tara")
run-spoken_example =
    run-spoken fixed recorder memory forgetful unmarshal codec (pos 50_000) false (codes "u1")
      (pos 100) too_many (codes "r1") (pos 300) (pos 0) snap [] world

-- The second chunk is not sent, and the client is told.
told_then : told (live too_many).frames ≡ true
unfolding run step write_step read_step on_received count_chunk end_utterance announce lengthen
    charge test_budget send_audio bill_chunk on_message on_inbound say refresh_budget
    begin_utterance open_session is_blank chunk_cost chunk_seconds seconds_from_pcm cost_for_seconds
    ◌*ℤ◌ ◌-ℤ◌ div_ℤ
told_then = refl

one_sent : audio_of (live too_many).frames ≡ pcm.pcm ∷ []
unfolding run step write_step read_step on_received count_chunk end_utterance announce lengthen
    charge test_budget send_audio bill_chunk on_message on_inbound say refresh_budget
    begin_utterance open_session is_blank chunk_cost chunk_seconds seconds_from_pcm cost_for_seconds
    ◌*ℤ◌ ◌-ℤ◌ div_ℤ
one_sent = refl

run-settled_example :
    let s = live paid_for in
    let s' =
      step fixed recorder memory forgetful unmarshal codec
        (pos 50_000)
        false
        (codes "u1")
        (pos 100)
        (flush_all (readings (pos 9)))
        s in
    (chunks : List Chunk) × (events : List (ℤ × Billed fixed)) × (groups : List (List ℤ)) × Sublistᴰ
      chunks
      (heard_all paid_for)
    × (audio_of s'.frames ≡ map (λ c. c.pcm) chunks)
    × (s'.bus ≡ publish_all fixed recorder events [])
    × (concat groups ≡ seconds_of fixed chunks)
    × Numbered fixed (codes "u1") (codes "r1") (codes "websocket") 0 groups events
unfolding run step write_step read_step on_received count_chunk end_utterance announce lengthen
    charge test_budget send_audio bill_chunk on_message on_inbound say refresh_budget
    begin_utterance open_session is_blank chunk_cost chunk_seconds seconds_from_pcm cost_for_seconds
    ◌*ℤ◌ ◌-ℤ◌ div_ℤ
run-settled_example =
    run-settled fixed recorder memory forgetful unmarshal codec (pos 50_000) false (codes "u1")
      (pos 100) fixed_add_laws paid_for (codes "r1") (pos 300) (pos 0) snap [] world
      (readings (pos 9)) refl refl

run-late_chunk_example :
    let s = live (hello ∷ send_one ++ (hang_up ∷ [])) in
    (run fixed recorder memory forgetful unmarshal codec
      (pos 50_000)
      false
      (codes "u1")
      (pos 100)
      (flush_all (readings (pos 9)) ∷ leave ∷ bill ∷ look ∷ [])
      s).bus
    ≡ (step fixed recorder memory forgetful unmarshal codec
        (pos 50_000)
        false
        (codes "u1")
        (pos 100)
        (flush_all (readings (pos 9)))
        s).bus
unfolding run step write_step read_step on_received count_chunk end_utterance announce lengthen
    charge test_budget send_audio bill_chunk on_message on_inbound say refresh_budget
    begin_utterance open_session is_blank close_utterance flush open_window new_coalescer chunk_cost
    chunk_seconds seconds_from_pcm cost_for_seconds ◌*ℤ◌ ◌-ℤ◌ div_ℤ
run-late_chunk_example =
    run-late_chunk fixed recorder memory forgetful unmarshal codec (pos 50_000) false (codes "u1")
      (pos 100) (look ∷ []) pcm (readings (pos 9)) (live (hello ∷ send_one ++ (hang_up ∷ []))) refl
      refl refl

abbrev meets : Meets fixed recorder memory forgetful
meets = record {
  pick = true;
  ended = none;
  upgrade = none;
  stream = none;
  request = codes "r1";
  now = pos 0;
}

serve_live-Leaves_example :
    Leaves fixed recorder memory forgetful (some (record { cap = 1; held = 0 })) (
      serve_live fixed recorder memory forgetful codec
        (pos 50_000)
        false
        (some (codes "u1"))
        meets
        (pos 300)
        []
        world
        (some (record { cap = 1; held = 0 })))
serve_live-Leaves_example =
    serve_live-Leaves fixed recorder memory forgetful codec (pos 50_000) false (some (codes "u1"))
      meets (pos 300) [] world (some (record { cap = 1; held = 0 }))
