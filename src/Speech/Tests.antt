-- ===== src/Speech/Tests.antt =====
-- A job of two chunks, of which the wallet pays for one.
use tts_platform.Common.{
  ℕ, false, ◌≡◌, refl, List, [], ◌∷◌, map, codes, concat, none, some, ◌⊎◌, take, ◌≢◌, length, ltb,
  if◌then◌else◌,
}
use tts_platform.Common.Int.{ℤ, pos, ◌-ℤ◌, ◌*ℤ◌, div_ℤ}
use tts_platform.Common.Results.{Error, ok, err, canceled}
use tts_platform.Numbers.Fixed.{fixed}
use tts_platform.Numbers.Laws.{fixed_add_laws}
use tts_platform.Postgres.{JobRow, Db, pending, completed, exec, empty_tables}
use tts_platform.Billing.Event.{Event, seconds_from_pcm, cost_for_seconds}
use tts_platform.Billing.Coalescer.{Readings, new_coalescer}
use tts_platform.Billing.Calls.{publish_all, Numbered}
use tts_platform.Audio.Wav.{wrap_wav, default_rate}
use tts_platform.Wallet.Cache.{WalletSnapshot, Codec}
use tts_platform.Valkey.Memory.{memory, empty_memory}
use tts_platform.Speech.Feed.{received, copy_audio_stream}
use tts_platform.Speech.Stream.{Moment, Delivery, on_chunk, Sent, copy_audio_stream-Sent}
use tts_platform.Speech.Jobs.{
  find_job, select_job, audio_of, get_async_job_audio, get_async_job_audio-owner,
}
use tts_platform.Speech.Job.{
  Chunk, message, insufficient_balance, fail_with, complete_with, set_running, update,
  run_async_job, chunk_cost, chunk_seconds,
}
use tts_platform.Speech.Delivery.{affordable, seconds_of, run_async_job-delivered}
use tts_platform.Fixtures.{forgetful, recorder}

abbrev readings : ℤ → Readings
readings t = record { opened = t; checked = t; flushed = t; occurred = t; published = t }

abbrev chunk : Chunk
chunk = record { pcm = 1 ∷ 2 ∷ 3 ∷ 4 ∷ []; sample_rate = pos 24000; readings = readings (pos 5) }

-- A tenth of a thousandth of a dollar, at 60 dollars a minute.
abbrev snap : WalletSnapshot fixed
snap = record { balance_usd = pos 100; price_per_audio_minute_usd = pos 60_000_000 }

abbrev db : Db fixed
db = record {
  tables = record (empty_tables fixed) {
    tts_jobs =
        record {
          id = codes "j1";
          user_id = codes "u1";
          status = pending;
          input = codes "hi";
          voice = codes "tara";
          audio_data = none;
          error = none;
        }
        ∷ [];
  };
  faults = [];
}

first_only : affordable fixed (pos 60_000_000) (pos 100) (chunk ∷ chunk ∷ []) ≡ chunk ∷ []
unfolding affordable chunk_cost chunk_seconds seconds_from_pcm cost_for_seconds ◌*ℤ◌ ◌-ℤ◌ div_ℤ
first_only = refl

run_async_job-delivered_example :
    let good = affordable fixed (pos 60_000_000) (pos 100) (chunk ∷ chunk ∷ []) in
    let (db', bus') =
      run_async_job fixed recorder
        (codes "j1")
        (codes "u1")
        (pos 300)
        snap
        (ok (map received (chunk ∷ chunk ∷ [])))
        (readings (pos 9))
        []
        db in
    (db'
      ≡ update fixed
          (codes "j1")
          (if ltb (length good) 2
            then fail_with (message insufficient_balance)
            else complete_with (wrap_wav (concat (map (λ c. c.pcm) good)) default_rate))
          (update fixed (codes "j1") set_running db))
    × ((events : List (ℤ × Event fixed)) × (groups : List (List ℤ)) × (bus'
          ≡ publish_all fixed recorder events [])
        × (concat groups ≡ seconds_of fixed good)
        × Numbered fixed (codes "u1") (codes "j1") (codes "http_async") 0 groups events)
run_async_job-delivered_example =
    run_async_job-delivered fixed fixed_add_laws recorder (codes "j1") (codes "u1") (pos 300) snap
      (chunk ∷ chunk ∷ []) (readings (pos 9)) [] db

abbrev finished : Db fixed
finished = record {
  tables = record (empty_tables fixed) {
    tts_jobs =
        record {
          id = codes "j1";
          user_id = codes "u1";
          status = completed;
          input = codes "hi";
          voice = codes "tara";
          audio_data = some (codes "RIFF");
          error = none;
        }
        ∷ [];
  };
  faults = [];
}

get_async_job_audio-owner_example :
    (row : JobRow) × (find_job (codes "j1") (codes "u1") finished.tables.tts_jobs ≡ ok row)
    × (row.id ≡ codes "j1")
    × (row.user_id ≡ codes "u1")
    × (row.status ≡ completed)
    × (row.audio_data ≡ some (codes "RIFF"))
    × (codes "RIFF" ≢ [])
unfolding get_async_job_audio select_job find_job audio_of exec
get_async_job_audio-owner_example =
    get_async_job_audio-owner fixed (codes "j1") (codes "u1") (codes "RIFF") finished refl

abbrev codec : Codec fixed
codec = record { marshal = λ s. ok []; unmarshal = λ b. none; parse_uuid = λ b. ok b }

abbrev moments : List Moment
moments =
    record { chunk = chunk; write = none; now = pos 10; refreshed = pos 11 }
    ∷ record { chunk = chunk; write = some canceled; now = pos 12; refreshed = pos 13 }
    ∷ []

abbrev delivery : Delivery fixed recorder memory forgetful codec (pos 50_000) false
delivery = record {
  budget = pos 100;
  snap = record { balance_usd = pos 100; price_per_audio_minute_usd = pos 1_000_000 };
  audio_seconds = pos 0;
  sent = [];
  coal = new_coalescer fixed (codes "u1") (codes "r1") (codes "http_stream") (pos 300_000_000);
  bus = [];
  last_refresh = pos 9;
  wallets = record { db = finished; redis = empty_memory; cache = tt };
}

copy_audio_stream-Sent_example :
    let (r, q) =
      copy_audio_stream
        (on_chunk fixed recorder memory forgetful codec
          (pos 50_000)
          false
          (codes "u1")
          (pos 5_000_000_000))
        (map received moments)
        delivery in
    (n : ℕ) × Sent fixed recorder memory forgetful codec
      (pos 50_000)
      false
      (take n moments)
      delivery
      q
    × ((n ≡ 2) ⊎ ((e : Error) × (r ≡ err e)))
copy_audio_stream-Sent_example =
    copy_audio_stream-Sent fixed recorder memory forgetful codec (pos 50_000) false (codes "u1")
      (pos 5_000_000_000) moments delivery
