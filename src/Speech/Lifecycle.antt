-- ===== src/Speech/Lifecycle.antt =====
-- The life of a job's row: `CreateAsyncTTS` makes it, and its own `runAsyncJob` alone changes it, as it begins
-- and as it ends.
use tts_platform.Common.{
  ◌≡◌, refl, sym, ap, ◌∙◌, ◌⊎◌, inl, inr, Option, none, some, List, [], ◌∷◌, Bytes, bytes_eq,
  Bool-cases,
}
use tts_platform.Common.Int.{ℤ}
use tts_platform.Common.Results.{Result, ok, err, Result-cases}
use tts_platform.Numbers.{Numbers}
use tts_platform.Postgres.{Db, exec-cases, JobRow, JobStatus, pending, running, completed, failed}
use tts_platform.Billing.Event.{Nats}
use tts_platform.Billing.Coalescer.{Readings}
use tts_platform.Audio.Wav.{wrap_wav, default_rate}
use tts_platform.Wallet.Cache.{WalletSnapshot}
use tts_platform.Speech.Feed.{Turn, copy_audio_stream}
use tts_platform.Speech.Job.{
  Chunk, message, fail_with, complete_with, update_job, update, on_chunk, start, finish, end_run,
}

-- A row that no run has changed
abbrev pub IsFresh : JobRow → Type 0
IsFresh r = (r.status ≡ pending) × (r.audio_data ≡ none) × (r.error ≡ none)

-- What a status says of the audio and of the error
abbrev pub Says : JobStatus → Option Bytes → Option Bytes → Type 0
Says pending audio e = (audio ≡ none) × (e ≡ none)
Says running audio e = (audio ≡ none) × (e ≡ none)
Says completed audio e = ((wav : Bytes) × (audio ≡ some wav)) × (e ≡ none)
Says failed audio e = (audio ≡ none) × ((text : Bytes) × (e ≡ some text))

abbrev pub IsConsistent : JobRow → Type 0
IsConsistent r = Says r.status r.audio_data r.error

-- The last change of a row
abbrev pub IsLast : (JobRow → JobRow) → Type 0
IsLast g = ((text : Bytes) × (g ≡ fail_with text)) ⊎ ((wav : Bytes) × (g ≡ complete_with wav))

module _ (job : Bytes) where
  update_job_id : (rs : List JobRow) → update_job job (λ r. r) rs ≡ rs
  unfolding update_job
  update_job_id [] = refl
  update_job_id (r ∷ rs) = elim (Bool-cases (bytes_eq r.id job)) [
    | inl yes_ ↦ rw (yes_, update_job_id rs) refl
    | inr no_ ↦ rw (no_, update_job_id rs) refl
  ]

-- What has been made of a job's row, which takes rows of one kind to rows of another
abbrev pub Lives :
    (JobRow → Type 0) → (JobRow → Type 0) → Bytes → List JobRow → List JobRow → Type 0
Lives P Q job before after =
    (f : JobRow → JobRow) × ((r : JobRow) → (f r).id ≡ r.id)
    × ((r : JobRow) → P r → Q (f r))
    × (after ≡ update_job job f before)

module _ (num : Numbers) where
  -- An UPDATE that may fail changes the row, or it does not.
  pub update-Lives :
      (P Q : JobRow → Type 0) (job : Bytes) (f : JobRow → JobRow) (db : Db num)
      → ((r : JobRow) → (f r).id ≡ r.id)
      → ((r : JobRow) → P r → Q (f r))
      → ((r : JobRow) → P r → Q r)
      → Lives P Q job db.tables.tts_jobs (update num job f db).tables.tts_jobs
  unfolding update
  update-Lives P Q job f db same changed left =
      elim (exec-cases {A = Unit {0}}
        (λ t. (ok tt, record t { tts_jobs = update_job job f t.tts_jobs })) db) [
          | inl (rest, e) ↦ (f, same, changed, ap (λ o. o.1.tables.tts_jobs) e)
          | inr (x, rest, e) ↦ (
            (λ r. r),
            (λ r. refl),
            left,
            ap (λ o. o.1.tables.tts_jobs) e ∙ sym (update_job_id job db.tables.tts_jobs),
          )
        ]

  -- A run ends with one change, by which the job has failed or is completed.
  pub end_run-IsLast :
      (nc : Nats num) (job user : Bytes) (interval : ℤ) (snap : WalletSnapshot num)
      (stream : Result (List (Turn Chunk))) (last : Readings) (bus : nc.Bus) (db : Db num)
      → (g : JobRow → JobRow) × IsLast g
        × ((end_run num nc job user interval snap stream last bus db).0 ≡ update num job g db)
  unfolding finish
  end_run-IsLast nc job user interval snap (err e) last bus db =
      (fail_with (message e), inl (message e, refl), refl)
  end_run-IsLast nc job user interval snap (ok turns) last bus db =
      let p =
        copy_audio_stream (on_chunk num nc snap.price_per_audio_minute_usd) turns
          (start num nc user job interval snap bus) in
      elim (Result-cases p.0) [
        | inl (u, fine) ↦
            let wav = wrap_wav p.1.pcm default_rate in
            (complete_with wav, inr (wav, refl), rw (fine, finish) refl)
        | inr (e, bad) ↦ (fail_with (message e), inl (message e, refl), rw (bad, finish) refl)
      ]
