-- ===== src/Speech/Jobs.antt =====
-- The rows of jobs as the routes see them (api/internal/handler/server.go): `CreateAsyncTTS`,
-- `GetAsyncJob` and `GetAsyncJobAudio`.
use tts_platform.Common.{
  ℕ, ◌≡◌, ◌≢◌, sym, inl, inr, ◌&&◌, Option, none, some, List, [], ◌∷◌, ◌++◌, Bytes, codes, bytes_eq,
  bytes_eq_iff, arith, Bool-cases, if◌then◌else◌,
}
use tts_platform.Common.Results.{Result, ok, err, no_rows, Result-cases}
use tts_platform.Numbers.{Numbers}
use tts_platform.Postgres.{
  Tables, Db, exec, exec-cases, JobRow, JobStatus, pending, running, completed, failed,
}

pub record TtsRequest : Type 0 where
  pub text : Bytes
  pub voice : Option Bytes

pub data Reply : Type 0 where
  accepted : Bytes → Reply
  job_status : Bytes → JobStatus → Option Bytes → Reply
  audio : Bytes → Reply
  error : ℕ → Bytes → Reply

abbrev pub voice_of : Option Bytes → Bytes
voice_of none = codes "tara"
voice_of (some v) = v

-- WHERE id = $1 AND user_id = $2
unfoldable pub find_job : Bytes → Bytes → List JobRow → Result JobRow
find_job job user [] = err no_rows
find_job job user (r ∷ rs) =
    if bytes_eq r.id job && bytes_eq r.user_id user then ok r else find_job job user rs

-- What `GetAsyncJobAudio` makes of the row
unfoldable pub audio_of : JobRow → Reply
audio_of r = elim r.status [
  | pending ↦ error 404 (codes "not found")
  | running ↦ error 404 (codes "not found")
  | failed ↦ error 404 (codes "not found")
  | completed ↦ elim r.audio_data [
    | none ↦ error 404 (codes "not found")
    | some b ↦ elim b [ [] ↦ error 404 (codes "not found") | c ∷ s ↦ audio (c ∷ s) ]
  ]
]

module _ (num : Numbers) where
  -- INSERT INTO tts_jobs (user_id, input, voice, status) VALUES ($1, $2, $3, 'pending') RETURNING id
  unfoldable pub insert_job : Bytes → Bytes → TtsRequest → Tables num → Result Bytes × Tables num
  insert_job id user req t = (
    ok id,
    record t {
      tts_jobs =
          t.tts_jobs
          ++ record {
            id = id;
            user_id = user;
            status = pending;
            input = req.text;
            voice = voice_of req.voice;
            audio_data = none;
            error = none;
          }
            ∷ [];
    },
  )

  -- `CreateAsyncTTS` for a user who is admitted; `id` is the new job's. The job runs on its own.
  unfoldable pub create_async_tts : Bytes → Bytes → Option TtsRequest → Db num → Reply × Db num
  unfolding insert_job
  create_async_tts id user none db = (error 400 (codes "bad request"), db)
  create_async_tts id user (some req) db =
      let (r, db') = exec (insert_job id user req) db in
      (elim r [ err e ↦ error 500 (codes "error") | ok job ↦ accepted job ], db')

  unfoldable pub select_job : Bytes → Bytes → Tables num → Result JobRow × Tables num
  unfolding find_job
  select_job job user t = (find_job job user t.tts_jobs, t)

  unfoldable pub get_async_job : Bytes → Option Bytes → Db num → Reply × Db num
  unfolding select_job
  get_async_job job none db = (error 401 (codes "unauthorized"), db)
  get_async_job job (some user) db =
      let (r, db') = exec (select_job job user) db in
      (
        elim r [
          | err e ↦ error 404 (codes "not found")
          | ok row ↦ job_status job row.status row.error
        ],
        db',
      )

  unfoldable pub get_async_job_audio : Bytes → Option Bytes → Db num → Reply × Db num
  unfolding select_job audio_of
  get_async_job_audio job none db = (error 401 (codes "unauthorized"), db)
  get_async_job_audio job (some user) db =
      let (r, db') = exec (select_job job user) db in
      (elim r [ err e ↦ error 404 (codes "not found") | ok row ↦ audio_of row ], db')

find_job-owner :
    (job user : Bytes) (rs : List JobRow) (row : JobRow)
    → find_job job user rs ≡ ok row
    → (row.id ≡ job) × (row.user_id ≡ user)
unfolding find_job
find_job-owner job user [] row h = cc
find_job-owner job user (r ∷ rs) row h =
    elim (Bool-cases (bytes_eq r.id job && bytes_eq r.user_id user)) [
      | inl mine ↦
          let same : r ≡ row = ground arith in
          rw (sym same)
            ((bytes_eq_iff r.id job).0 ground arith, (bytes_eq_iff r.user_id user).0 ground arith)
      | inr other ↦ find_job-owner job user rs row ground arith
    ]

audio_of-audio :
    (row : JobRow) (b : Bytes)
    → audio_of row ≡ audio b
    → (row.status ≡ completed) × (row.audio_data ≡ some b) × (b ≢ [])
unfolding audio_of
audio_of-audio row b h = ground arith

-- Audio that `GetAsyncJobAudio` sends is that of a completed job, with this id and of this user, and it
-- is not empty.
pub get_async_job_audio-owner :
    (num : Numbers) (job user b : Bytes) (db : Db num)
    → (get_async_job_audio num job (some user) db).0 ≡ audio b
    → (row : JobRow) × (find_job job user db.tables.tts_jobs ≡ ok row)
      × (row.id ≡ job)
      × (row.user_id ≡ user)
      × (row.status ≡ completed)
      × (row.audio_data ≡ some b)
      × (b ≢ [])
unfolding get_async_job_audio select_job
get_async_job_audio-owner num job user b db h =
    elim (Result-cases (find_job job user db.tables.tts_jobs)) [
      | inl (row, found) ↦
          let (id, owner) = find_job-owner job user db.tables.tts_jobs row found in
          let (done_, some_data, not_empty) =
            audio_of-audio row b (ground (arith, exec-cases (select_job num job user) db)) in
          (row, found, id, owner, done_, some_data, not_empty)
      | inr (e, missing) ↦ absurd (ground (arith, exec-cases (select_job num job user) db))
    ]
