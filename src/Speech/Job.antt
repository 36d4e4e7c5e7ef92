-- ===== src/Speech/Job.antt =====
-- `runAsyncJob` of api/internal/handler/server.go: one job of speech in the background, from its
-- slot to its row in `tts_jobs`. The metrics are left out.
use tts_platform.Common.{
  Option, none, some, List, [], ◌∷◌, ◌++◌, Bytes, codes, bytes_eq, length, if◌then◌else◌,
}
use tts_platform.Common.Int.{ℤ}
use tts_platform.Common.Results.{Error, Result, ok, err, failure, no_rows, redis_nil, canceled, eof}
use tts_platform.Numbers.{Numbers, zero_float}
use tts_platform.Postgres.{Db, exec, JobRow, running, completed, failed}
use tts_platform.Billing.Event.{Nats, seconds_from_pcm, cost_for_seconds}
use tts_platform.Billing.Coalescer.{Coalescer, Readings, new_coalescer, add_pcm, flush}
use tts_platform.Audio.Wav.{wrap_wav, default_rate}
use tts_platform.Wallet.Cache.{WalletSnapshot}
use tts_platform.Speech.Feed.{Turn, copy_audio_stream}

-- An `AudioChunk`, with the readings of the clock that its billing makes.
pub record Chunk : Type 0 where
  pub pcm : Bytes
  pub sample_rate : ℤ
  pub readings : Readings

-- `err.Error()`
abbrev pub message : Error → Bytes
message no_rows = codes "no rows in result set"
message redis_nil = codes "redis: nil"
message canceled = codes "context canceled"
message eof = codes "EOF"
message (failure e) = e

abbrev pub insufficient_balance : Error
insufficient_balance = failure (codes "insufficient balance")

unfoldable pub update_job : Bytes → (JobRow → JobRow) → List JobRow → List JobRow
update_job job f [] = []
update_job job f (r ∷ rs) = (if bytes_eq r.id job then f r else r) ∷ update_job job f rs

abbrev pub fail_with : Bytes → JobRow → JobRow
fail_with msg r = record r { status = failed; error = some msg }

abbrev pub set_running : JobRow → JobRow
set_running r = record r { status = running }

abbrev pub complete_with : Bytes → JobRow → JobRow
complete_with wav r = record r { status = completed; audio_data = some wav }

module _ (num : Numbers) where
  open num use {Float, add, sub, lt}

  -- UPDATE tts_jobs SET … WHERE id = $1, whose error is dropped
  unfoldable pub update : Bytes → (JobRow → JobRow) → Db num → Db num
  unfolding update_job
  update job f db =
      (exec {A = Unit {0}} (λ t. (ok tt, record t { tts_jobs = update_job job f t.tts_jobs })) db).1

  unfoldable pub chunk_seconds : Chunk → Float
  chunk_seconds c = seconds_from_pcm num (length c.pcm) c.sample_rate

  unfoldable pub chunk_cost : Float → Chunk → Float
  unfolding chunk_seconds
  chunk_cost price c = cost_for_seconds num (chunk_seconds c) price

  module _ (nc : Nats num) where
    open nc use {Bus}

    -- The variables that the callback of `runAsyncJob` shares with the function around it.
    pub record Progress : Type 0 where
      pub budget : Float
      pub audio_seconds : Float
      pub pcm : Bytes
      pub coal : Coalescer num
      pub bus : Bus

    unfoldable pub on_chunk : Float → Chunk → Progress → Result (Unit {0}) × Progress
    unfolding chunk_cost
    on_chunk price c p =
        let budget' = sub p.budget (chunk_cost price c) in
        let (_, coal', bus') =
          add_pcm num nc c.readings (length c.pcm) c.sample_rate p.coal p.bus in
        if lt budget' (zero_float num)
        then (err insufficient_balance, record p { budget = budget' })
        else (
          ok tt,
          record {
            budget = budget';
            audio_seconds = add p.audio_seconds (chunk_seconds c);
            pcm = p.pcm ++ c.pcm;
            coal = coal';
            bus = bus';
          },
        )

    -- The variables before the first chunk
    unfoldable pub start : Bytes → Bytes → ℤ → WalletSnapshot num → Bus → Progress
    start user job interval snap bus = record {
      budget = snap.balance_usd;
      audio_seconds = zero_float num;
      pcm = [];
      coal = new_coalescer num user job (codes "http_async") interval;
      bus = bus;
    }

    -- What the job's row becomes
    unfoldable pub finish : Bytes → Result (Unit {0}) × Progress → Db num → Db num
    unfolding update
    finish job (err e, p) db = update job (fail_with (message e)) db
    finish job (ok _, p) db = update job (complete_with (wrap_wav p.pcm default_rate)) db

    -- The first UPDATE of `runAsyncJob`; `slot` is the error of `Acquire`, if there is one.
    unfoldable pub begin_run : Option Error → Bytes → Db num → Db num
    begin_run (some e) job db = update job (fail_with (codes "synthesis capacity exceeded")) db
    begin_run none job db = update job set_running db

    -- The rest of a job that has its slot: `stream` is what `Synthesize` gives, the request's id is the
    -- job's and `last` are the readings of the final flush. The slot is released in the end.
    abbrev pub end_run :
        Bytes
        → Bytes
        → ℤ
        → WalletSnapshot num
        → Result (List (Turn Chunk))
        → Readings
        → Bus
        → Db num
        → Db num × Bus
    end_run job user interval snap stream last bus db = elim stream [
      | err e ↦ (update job (fail_with (message e)) db, bus)
      | ok turns ↦
          let (r, p) =
            copy_audio_stream (on_chunk snap.price_per_audio_minute_usd) turns
              (start user job interval snap bus) in
          let (_, _, bus') = flush num nc last p.coal p.bus in (finish job (r, p) db, bus')
    ]

    -- `runAsyncJob` with its slot, with nothing in between
    unfoldable pub run_async_job :
        Bytes
        → Bytes
        → ℤ
        → WalletSnapshot num
        → Result (List (Turn Chunk))
        → Readings
        → Bus
        → Db num
        → Db num × Bus
    unfolding start finish
    run_async_job job user interval snap stream last bus db =
        end_run job user interval snap stream last bus (update job set_running db)
