-- ===== src/Speech/Ended.antt =====
-- What each job has come to, on a database that does not fail: pending, running, completed or failed, by how far
-- its goroutine is.
use tts_platform.Common.{
  ◌≡◌, refl, sym, subst, ◌⊎◌, inl, inr, false, Option, none, some, List, [], ◌∷◌, Bytes, codes,
  bytes_eq_refl, Bool-cases,
}
use tts_platform.Common.Results.{Error}
use tts_platform.Numbers.{Numbers}
use tts_platform.Postgres.{Db, exec, JobRow, running, completed, failed}
use tts_platform.Billing.Event.{Nats}
use tts_platform.Speech.Job.{fail_with, set_running, update, begin_run}
use tts_platform.Speech.Jobs.{TtsRequest, insert_job, create_async_tts}
use tts_platform.Speech.Lifecycle.{IsFresh, IsLast, Lives, end_run-IsLast}
use tts_platform.Speech.Standing.{
  Goroutines, waiting, begun, phase_of, is_phase, is_phase-some, is_used, Stands, Stands-submitted,
  Stands-append,
}
use tts_platform.Speech.Queue.{
  JobEvent, submit, begin, complete, started, entered, Jobs, job_step, run_jobs, Stands-begun,
  Stands-over,
}

-- A row whose job runs, and one whose job is completed or has failed
abbrev pub IsRunning : JobRow → Type 0
IsRunning r = r.status ≡ running

abbrev pub IsEnded : JobRow → Type 0
IsEnded r = (r.status ≡ completed) ⊎ (r.status ≡ failed)

last-IsEnded : (g : JobRow → JobRow) (r : JobRow) → IsLast g → ((g r).id ≡ r.id) × IsEnded (g r)
last-IsEnded g r (inl (text, is)) =
    subst (λ f. ((f r).id ≡ r.id) × IsEnded (f r)) (sym is) (refl, inr refl)
last-IsEnded g r (inr (wav, is)) =
    subst (λ f. ((f r).id ≡ r.id) × IsEnded (f r)) (sym is) (refl, inl refl)

module _ (num : Numbers) where
  -- An UPDATE that does not fail, and no statement after it
  update_sound :
      (P Q : JobRow → Type 0) (job : Bytes) (f : JobRow → JobRow) (db : Db num)
      → db.faults ≡ []
      → ((r : JobRow) → (f r).id ≡ r.id)
      → ((r : JobRow) → P r → Q (f r))
      → Lives P Q job db.tables.tts_jobs (update num job f db).tables.tts_jobs
        × ((update num job f db).faults ≡ [])
  unfolding update exec
  update_sound P Q job f db sound same step =
      ((f, same, step, rw (sound, exec) refl), rw (sound, exec) refl)

module _ (num : Numbers) (nc : Nats num) where
  -- No statement will fail, and each row is as far as its job.
  abbrev EndsAll : Jobs num nc → Type 0
  EndsAll s = (s.db.faults ≡ []) × Stands IsRunning IsEnded s.live s.db.tables.tts_jobs

  submit-EndsAll :
      (id user : Bytes) (body : Option TtsRequest) (db : Db num) (live : Goroutines)
      → is_used id db.tables.tts_jobs ≡ false
      → db.faults ≡ []
      → Stands IsRunning IsEnded live db.tables.tts_jobs
      → let (reply, db') = create_async_tts num id user body db in
        (db'.faults ≡ []) × Stands IsRunning IsEnded (started reply live) db'.tables.tts_jobs
  unfolding create_async_tts insert_job exec
  submit-EndsAll id user none db live unused sound h = (sound, h)
  submit-EndsAll id user (some req) db live unused sound h =
      rw (sound, exec)
        (
          refl,
          Stands-append IsRunning IsEnded ((id, waiting) ∷ live) db.tables.tts_jobs _
              (Stands-submitted IsRunning IsEnded id live db.tables.tts_jobs unused h)
              (rw (bytes_eq_refl id) (refl, refl, refl)),
        )

  begin-EndsAll :
      (slot : Option Error) (job : Bytes) (s : Jobs num nc)
      → phase_of job s.live ≡ some waiting
      → EndsAll s
      → let db' = begin_run num nc slot job s.db in
        (db'.faults ≡ []) × Stands IsRunning IsEnded (entered slot job s.live) db'.tables.tts_jobs
  unfolding begin_run
  begin-EndsAll none job s due (sound, h) =
      let (lives, sound') =
        update_sound num IsFresh IsRunning job set_running s.db sound (λ r. refl) (λ r _. refl) in
      (sound', Stands-begun IsRunning IsEnded job s.live s.db.tables.tts_jobs _ lives due h)
  begin-EndsAll (some x) job s due (sound, h) =
      let (lives, sound') =
        update_sound num IsFresh IsEnded job (fail_with (codes "synthesis capacity exceeded")) s.db
          sound (λ r. refl) (λ r _. inr refl) in
      (sound', Stands-over IsRunning IsEnded job s.live waiting s.db.tables.tts_jobs _ lives due h)

  job_step-EndsAll :
      (e : JobEvent num) (s : Jobs num nc) → EndsAll s → EndsAll (job_step num nc e s)
  unfolding job_step
  job_step-EndsAll (submit id user body) s (sound, h) =
      elim (Bool-cases (is_used id s.db.tables.tts_jobs)) [
        | inl used ↦ rw (used, job_step) (sound, h)
        | inr unused ↦
            rw (unused, job_step) (submit-EndsAll id user body s.db s.live unused sound h)
      ]
  job_step-EndsAll (begin slot job) s h =
      elim (Bool-cases (is_phase waiting (phase_of job s.live))) [
        | inl due ↦ rw (due, job_step) (begin-EndsAll slot job s (is_phase-some waiting _ due) h)
        | inr other ↦ rw (other, job_step) h
      ]
  job_step-EndsAll (complete job user interval snap stream last) s (sound, h) =
      elim (Bool-cases (is_phase begun (phase_of job s.live))) [
        | inl due ↦
            let (g, is_last, made) =
              end_run-IsLast num nc job user interval snap stream last s.bus s.db in
            let (lives, sound') =
              update_sound num IsRunning IsEnded job g s.db sound
                (λ r. (last-IsEnded g r is_last).0) (λ r _. (last-IsEnded g r is_last).1) in
            rw (due, job_step, made)
              (
                sound',
                Stands-over IsRunning IsEnded job s.live begun s.db.tables.tts_jobs _ lives
                    (is_phase-some begun _ due) h,
              )
        | inr other ↦ rw (other, job_step) (sound, h)
      ]

  run_jobs-EndsAll :
      (es : List (JobEvent num)) (s : Jobs num nc) → EndsAll s → EndsAll (run_jobs num nc es s)
  unfolding run_jobs
  run_jobs-EndsAll [] s h = h
  run_jobs-EndsAll (e ∷ es) s h = run_jobs-EndsAll es (job_step num nc e s) (job_step-EndsAll e s h)

  -- From a table of no jobs, on a database that does not fail: requests submit jobs, and jobs begin and end, in
  -- any order, with or without a slot, and whatever the stream of each gives. At every time the row of each job
  -- whose goroutine has not begun is as it was made, pending; the row of each job that has begun and not ended
  -- is running; and the row of each other job is completed or failed.
  pub run_jobs-IsEnded :
      (es : List (JobEvent num)) (s : Jobs num nc)
      → s.db.faults ≡ []
      → s.db.tables.tts_jobs ≡ []
      → let t = run_jobs num nc es s in Stands IsRunning IsEnded t.live t.db.tables.tts_jobs
  run_jobs-IsEnded es s sound empty =
      (run_jobs-EndsAll es s (sound, subst (Stands IsRunning IsEnded s.live) (sym empty) tt)).1
