-- ===== src/Speech/Queue.antt =====
-- Jobs as a whole: requests submit them, and the goroutine of each begins and ends once, in any order. What
-- `runAsyncJob` does after its first UPDATE is one step here: another job's goroutine may come in before it.
use tts_platform.Common.{
  ◌≡◌, refl, sym, subst, ◌⊎◌, inl, inr, false, Option, none, some, List, [], ◌∷◌, Bytes, codes,
  bytes_eq_refl, All, Bool-cases, if◌then◌else◌,
}
use tts_platform.Common.Int.{ℤ}
use tts_platform.Common.Results.{Error, Result}
use tts_platform.Numbers.{Numbers}
use tts_platform.Postgres.{Db, exec-cases, JobRow, pending, running}
use tts_platform.Billing.Event.{Nats}
use tts_platform.Billing.Coalescer.{Readings}
use tts_platform.Wallet.Cache.{WalletSnapshot}
use tts_platform.Speech.Feed.{Turn}
use tts_platform.Speech.Job.{
  Chunk, fail_with, complete_with, set_running, update, begin_run, end_run,
}
use tts_platform.Speech.Jobs.{
  TtsRequest, Reply, accepted, job_status, audio, error, insert_job, create_async_tts,
}
use tts_platform.Speech.Lifecycle.{IsFresh, IsConsistent, Lives, update-Lives, end_run-IsLast}
use tts_platform.Speech.Standing.{
  Phase, waiting, begun, Goroutines, phase_of, without, is_used, is_phase, is_phase-some,
  phase-without_self, phase-without_other, Standing, Stands, Stands-submitted, Stands-append,
  Stands-moved,
}

module _ (num : Numbers) where
  -- A request of a user with the id that a new row is given, a job's acquisition of its slot with its first
  -- UPDATE, or the rest of a job with what it meets
  pub data JobEvent : Type 0 where
    submit : Bytes → Bytes → Option TtsRequest → JobEvent
    begin : Option Error → Bytes → JobEvent
    complete :
        Bytes → Bytes → ℤ → WalletSnapshot num → Result (List (Turn Chunk)) → Readings → JobEvent

abbrev pub started : Reply → Goroutines → Goroutines
started (accepted job) live = (job, waiting) ∷ live
started (job_status job status text) live = live
started (audio bytes) live = live
started (error status text) live = live

-- Without a slot the goroutine returns.
abbrev pub entered : Option Error → Bytes → Goroutines → Goroutines
entered none job live = (job, begun) ∷ without job live
entered (some e) job live = without job live

module _ (num : Numbers) (nc : Nats num) where
  -- `live` are the jobs whose goroutines have not returned.
  pub record Jobs : Type 0 where
    pub db : Db num
    pub bus : nc.Bus
    pub live : Goroutines

  -- A row is given an id that none has; a job begins only if it waits, and ends only if it has begun.
  unfoldable pub job_step : JobEvent num → Jobs → Jobs
  job_step (submit id user body) s =
      let (reply, db') = create_async_tts num id user body s.db in
      if is_used id s.db.tables.tts_jobs
      then s
      else record s { db = db'; live = started reply s.live }
  job_step (begin slot job) s =
      if is_phase waiting (phase_of job s.live)
      then record s { db = begin_run num nc slot job s.db; live = entered slot job s.live }
      else s
  job_step (complete job user interval snap stream last) s =
      let (db', bus') = end_run num nc job user interval snap stream last s.bus s.db in
      if is_phase begun (phase_of job s.live)
      then record { db = db'; bus = bus'; live = without job s.live }
      else s

  unfoldable pub run_jobs : List (JobEvent num) → Jobs → Jobs
  unfolding job_step
  run_jobs [] s = s
  run_jobs (e ∷ es) s = run_jobs es (job_step e s)

-- The goroutine of a job goes on, and what it makes of its row is known.
pub Stands-begun :
    (Begun Past : JobRow → Type 0) (job : Bytes) (live : Goroutines) (rs after : List JobRow)
    → Lives IsFresh Begun job rs after
    → phase_of job live ≡ some waiting
    → Stands Begun Past live rs
    → Stands Begun Past ((job, begun) ∷ without job live) after
Stands-begun Begun Past job live rs after (f, same, step, made) due h =
    subst (Stands Begun Past ((job, begun) ∷ without job live)) (sym made) (
      Stands-moved Begun Past job f live ((job, begun) ∷ without job live) waiting (some begun) rs
        same step due (rw (bytes_eq_refl job) refl)
        (λ other h'. rw h' (phase-without_other other job live h')) h)

pub Stands-over :
    (Begun Past : JobRow → Type 0) (job : Bytes) (live : Goroutines) (p : Phase)
    (rs after : List JobRow)
    → Lives (Standing Begun Past (some p)) Past job rs after
    → phase_of job live ≡ some p
    → Stands Begun Past live rs
    → Stands Begun Past (without job live) after
Stands-over Begun Past job live p rs after (f, same, step, made) due h =
    subst (Stands Begun Past (without job live)) (sym made) (
      Stands-moved Begun Past job f live (without job live) p none rs same step due
        (phase-without_self job live) (λ other h'. phase-without_other other job live h') h)

-- A row between its job's statements, the first of which may have failed
abbrev IsBegun : JobRow → Type 0
IsBegun r = ((r.status ≡ pending) ⊎ (r.status ≡ running)) × (r.audio_data ≡ none) × (r.error ≡ none)

IsFresh-IsConsistent : (r : JobRow) → IsFresh r → IsConsistent r
IsFresh-IsConsistent r (s, a, e) = rw s (a, e)

IsBegun-IsConsistent : (r : JobRow) → IsBegun r → IsConsistent r
IsBegun-IsConsistent r (inl s, a, e) = rw s (a, e)
IsBegun-IsConsistent r (inr s, a, e) = rw s (a, e)

Standing-IsConsistent :
    (o : Option Phase) (r : JobRow) → Standing IsBegun IsConsistent o r → IsConsistent r
Standing-IsConsistent (some waiting) r h = IsFresh-IsConsistent r h
Standing-IsConsistent (some begun) r h = IsBegun-IsConsistent r h
Standing-IsConsistent none r h = h

Stands-IsConsistent :
    (live : Goroutines) (rs : List JobRow)
    → Stands IsBegun IsConsistent live rs
    → All IsConsistent rs
Stands-IsConsistent live [] h = tt
Stands-IsConsistent live (r ∷ rs) (h, hs) =
    (Standing-IsConsistent (phase_of r.id live) r h, Stands-IsConsistent live rs hs)

module _ (num : Numbers) (nc : Nats num) where
  abbrev Good : Jobs num nc → Type 0
  Good s = Stands IsBegun IsConsistent s.live s.db.tables.tts_jobs

  submit-Good :
      (id user : Bytes) (body : Option TtsRequest) (db : Db num) (live : Goroutines)
      → is_used id db.tables.tts_jobs ≡ false
      → Stands IsBegun IsConsistent live db.tables.tts_jobs
      → let (reply, db') = create_async_tts num id user body db in
        Stands IsBegun IsConsistent (started reply live) db'.tables.tts_jobs
  unfolding create_async_tts insert_job
  submit-Good id user none db live unused h = h
  submit-Good id user (some req) db live unused h =
      elim (exec-cases (insert_job num id user req) db) [
        | inl (rest, e) ↦
            rw (e, create_async_tts)
              (Stands-append IsBegun IsConsistent ((id, waiting) ∷ live) db.tables.tts_jobs _
                (Stands-submitted IsBegun IsConsistent id live db.tables.tts_jobs unused h)
                (rw (bytes_eq_refl id) (refl, refl, refl)))
        | inr (x, rest, e) ↦ rw (e, create_async_tts) h
      ]

  begin-Good :
      (slot : Option Error) (job : Bytes) (s : Jobs num nc)
      → phase_of job s.live ≡ some waiting
      → Good s
      → Stands IsBegun IsConsistent
          (entered slot job s.live)
          (begin_run num nc slot job s.db).tables.tts_jobs
  unfolding begin_run
  begin-Good none job s due h =
      Stands-begun IsBegun IsConsistent job s.live s.db.tables.tts_jobs _
        (update-Lives num IsFresh IsBegun job set_running s.db (λ r. refl)
          (λ r (t, a, e). (inr refl, a, e)) (λ r (t, a, e). (inl t, a, e)))
        due h
  begin-Good (some x) job s due h =
      let text = codes "synthesis capacity exceeded" in
      Stands-over IsBegun IsConsistent job s.live waiting s.db.tables.tts_jobs _
        (update-Lives num IsFresh IsConsistent job (fail_with text) s.db (λ r. refl)
          (λ r (t, a, e). (a, (text, refl))) IsFresh-IsConsistent)
        due h

  last-Lives :
      (job : Bytes) (g : JobRow → JobRow) (db : Db num)
      → ((text : Bytes) × (g ≡ fail_with text)) ⊎ ((wav : Bytes) × (g ≡ complete_with wav))
      → Lives IsBegun IsConsistent job db.tables.tts_jobs (update num job g db).tables.tts_jobs
  last-Lives job g db (inl (text, is)) =
      subst
        (λ f.
          Lives IsBegun IsConsistent job db.tables.tts_jobs (update num job f db).tables.tts_jobs)
        (sym is)
        (update-Lives num IsBegun IsConsistent job (fail_with text) db (λ r. refl)
          (λ r (t, a, e). (a, (text, refl))) IsBegun-IsConsistent)
  last-Lives job g db (inr (wav, is)) =
      subst
        (λ f.
          Lives IsBegun IsConsistent job db.tables.tts_jobs (update num job f db).tables.tts_jobs)
        (sym is)
        (update-Lives num IsBegun IsConsistent job (complete_with wav) db (λ r. refl)
          (λ r (t, a, e). ((wav, refl), e)) IsBegun-IsConsistent)

  job_step-Good : (e : JobEvent num) (s : Jobs num nc) → Good s → Good (job_step num nc e s)
  unfolding job_step
  job_step-Good (submit id user body) s h = elim (Bool-cases (is_used id s.db.tables.tts_jobs)) [
    | inl used ↦ rw (used, job_step) h
    | inr unused ↦ rw (unused, job_step) (submit-Good id user body s.db s.live unused h)
  ]
  job_step-Good (begin slot job) s h = elim (Bool-cases (is_phase waiting (phase_of job s.live))) [
    | inl due ↦ rw (due, job_step) (begin-Good slot job s (is_phase-some waiting _ due) h)
    | inr other ↦ rw (other, job_step) h
  ]
  job_step-Good (complete job user interval snap stream last) s h =
      elim (Bool-cases (is_phase begun (phase_of job s.live))) [
        | inl due ↦
            let (g, is_last, made) =
              end_run-IsLast num nc job user interval snap stream last s.bus s.db in
            rw (due, job_step, made)
              (Stands-over IsBegun IsConsistent job s.live begun s.db.tables.tts_jobs _
                (last-Lives job g s.db is_last) (is_phase-some begun _ due) h)
        | inr other ↦ rw (other, job_step) h
      ]

  run_jobs-Good :
      (es : List (JobEvent num)) (s : Jobs num nc) → Good s → Good (run_jobs num nc es s)
  unfolding run_jobs
  run_jobs-Good [] s h = h
  run_jobs-Good (e ∷ es) s h = run_jobs-Good es (job_step num nc e s) (job_step-Good e s h)

  -- From a table of no jobs, requests submit jobs, and each job begins once and then ends once, in any order
  -- and with any statements that fail: each row is consistent. It is pending or running, with no audio and no
  -- error, or completed, with audio and no error, or failed, with an error and no audio.
  pub run_jobs-IsConsistent :
      (es : List (JobEvent num)) (s : Jobs num nc)
      → s.db.tables.tts_jobs ≡ []
      → All IsConsistent (run_jobs num nc es s).db.tables.tts_jobs
  run_jobs-IsConsistent es s empty =
      Stands-IsConsistent _ _
        (run_jobs-Good es s (subst (Stands IsBegun IsConsistent s.live) (sym empty) tt))
