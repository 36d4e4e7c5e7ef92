-- ===== src/Speech/QueueTests.antt =====
-- Two jobs, one of which the database loses sight of.
use tts_platform.Common.{◌≡◌, refl, none, some, List, [], ◌∷◌, All, Bytes, codes}
use tts_platform.Common.Int.{pos}
use tts_platform.Common.Results.{ok}
use tts_platform.Numbers.Fixed.{fixed}
use tts_platform.Postgres.{empty_tables, JobRow, exec, JobStatus, running, completed}
use tts_platform.Billing.Coalescer.{Readings}
use tts_platform.Speech.Feed.{copy_audio_stream}
use tts_platform.Speech.Job.{begin_run, start, finish, update}
use tts_platform.Speech.Jobs.{create_async_tts}
use tts_platform.Speech.Lifecycle.{IsConsistent}
use tts_platform.Speech.Queue.{
  JobEvent, submit, begin, complete, Jobs, job_step, run_jobs, run_jobs-IsConsistent,
}
use tts_platform.Speech.Standing.{Stands}
use tts_platform.Speech.Ended.{IsRunning, IsEnded, run_jobs-IsEnded}
use tts_platform.Fixtures.{recorder}

abbrev readings : Readings
readings = record {
  opened = pos 5;
  checked = pos 5;
  flushed = pos 5;
  occurred = pos 5;
  published = pos 5;
}

abbrev ask : Bytes → JobEvent fixed
ask id = submit id (codes "u1") (some (record { text = codes "hi"; voice = none }))

abbrev go : Bytes → JobEvent fixed
go id = begin none id

abbrev work : Bytes → JobEvent fixed
work id =
    complete id (codes "u1") (pos 300)
      (record { balance_usd = pos 100; price_per_audio_minute_usd = pos 60 }) (ok []) readings

-- The second UPDATE of the first job fails, which is the fifth statement.
abbrev first : Jobs fixed recorder
first = record {
  db = record {
    tables = empty_tables fixed;
    faults = none ∷ none ∷ none ∷ none ∷ some (codes "conn") ∷ [];
  };
  bus = [];
  live = [];
}

abbrev history : List (JobEvent fixed)
history =
    ask (codes "j1")
    ∷ ask (codes "j2")
    ∷ go (codes "j1")
    ∷ go (codes "j2")
    ∷ work (codes "j1")
    ∷ work (codes "j2")
    ∷ work (codes "j1")
    ∷ []

run_jobs-IsConsistent_example :
    All IsConsistent (run_jobs fixed recorder history first).db.tables.tts_jobs
run_jobs-IsConsistent_example = run_jobs-IsConsistent fixed recorder history first refl

abbrev statuses : List JobRow → List JobStatus
statuses [] = []
statuses (r ∷ rs) = r.status ∷ statuses rs

-- The first job is left as running.
left_running :
    statuses (run_jobs fixed recorder history first).db.tables.tts_jobs ≡ running ∷ completed ∷ []
unfolding run_jobs job_step create_async_tts exec begin_run start finish copy_audio_stream
left_running = refl

abbrev sound : Jobs fixed recorder
sound = record first { db = record { tables = empty_tables fixed; faults = [] } }

run_jobs-IsEnded_example :
    let t = run_jobs fixed recorder history sound in
    Stands IsRunning IsEnded t.live t.db.tables.tts_jobs
run_jobs-IsEnded_example = run_jobs-IsEnded fixed recorder history sound refl refl

-- Both jobs run at once.
both_run :
    statuses
      (run_jobs fixed recorder
        (ask (codes "j1") ∷ ask (codes "j2") ∷ go (codes "j1") ∷ go (codes "j2") ∷ [])
        sound).db.tables.tts_jobs
    ≡ running ∷ running ∷ []
unfolding run_jobs job_step create_async_tts exec begin_run update
both_run = refl
