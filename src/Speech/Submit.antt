-- ===== src/Speech/Submit.antt =====
-- `CreateAsyncTTS` (api/internal/handler/server.go) from the user of the context on: the wallet, the row, and
-- the job that the handler starts on its own goroutine.
use tts_platform.Common.{
  ◌≡◌, refl, ◌∙◌, ap, ◌⊎◌, inl, inr, Bool, true, false, Option, none, some, [], ◌∷◌, ◌++◌, Bytes,
  codes, arith,
}
use tts_platform.Common.Results.{ok, Result-cases}
use tts_platform.Numbers.{Numbers}
use tts_platform.Postgres.{JobRow, pending, exec-cases}
use tts_platform.Valkey.{Valkey}
use tts_platform.Wallet.Cache.{WalletSnapshot, Codec, Group, World, has_balance}
use tts_platform.Wallet.Reads.{get-tables, has_balance-tables}
use tts_platform.Speech.Admission.{
  enter, refuse, drop_silently, Gate-cases, observe_wallet, admit, admit-balance,
}
use tts_platform.Speech.Jobs.{
  TtsRequest, Reply, accepted, job_status, audio, error, voice_of, insert_job, create_async_tts,
}

-- The arguments of `runAsyncJob`
pub record Start (num : Numbers) : Type 0 where
  pub job : Bytes
  pub user : Bytes
  pub text : Bytes
  pub voice : Bytes
  pub snap : WalletSnapshot num

-- The job that is started is the one whose id the client is sent.
unfoldable pub start_of :
    {num : Numbers} → Bytes → WalletSnapshot num → TtsRequest → Reply → Option (Start num)
start_of user snap req (accepted job) =
    some
      (record { job = job; user = user; text = req.text; voice = voice_of req.voice; snap = snap })
start_of user snap req (job_status job status text) = none
start_of user snap req (audio bytes) = none
start_of user snap req (error status text) = none

-- What is sent to the client, if anything, and the job that is started, if one is
pub record Outcome (num : Numbers) : Type 0 where
  pub reply : Option Reply
  pub start : Option (Start num)

abbrev pub replies : {num : Numbers} → Reply → Outcome num
replies r = record { reply = some r; start = none }

module _ (num : Numbers) (vk : Valkey) (group : Group) (codec : Codec num) (def_ppm : num.Float)
    (per_user : Bool) where
  -- With the body, if it decodes; `id` is what the database gives a new row.
  unfoldable pub with_body :
      Bytes
      → Bytes
      → WalletSnapshot num
      → Option TtsRequest
      → World num vk group
      → Outcome num × World num vk group
  unfolding start_of
  with_body id user snap none w =
      let (r, db') = create_async_tts num id user none w.db in (replies r, record w { db = db' })
  with_body id user snap (some req) w =
      let (r, db') = create_async_tts num id user (some req) w.db in
      (record { reply = some r; start = start_of user snap req r }, record w { db = db' })

  unfoldable pub submit_async :
      Bytes
      → Option Bytes
      → Option TtsRequest
      → World num vk group
      → Outcome num × World num vk group
  unfolding with_body
  submit_async id none body w = (replies (error 401 (codes "unauthorized")), w)
  submit_async id (some user) body w =
      let (g, w') = admit num vk group codec def_ppm per_user user w in
      elim g [
        | refuse status text ↦ (replies (error status text), w')
        | drop_silently ↦ (record { reply = none; start = none }, w')
        | enter snap ↦ with_body id user snap body w'
      ]

  observe_wallet-tables :
      (user : Bytes) (w : World num vk group)
      → (observe_wallet num vk group codec def_ppm per_user user w).db.tables ≡ w.db.tables
  unfolding observe_wallet
  observe_wallet-tables user w = ground (arith, get-tables num vk group codec def_ppm user w)

  admit-tables :
      (user : Bytes) (w : World num vk group)
      → (admit num vk group codec def_ppm per_user user w).1.db.tables ≡ w.db.tables
  unfolding admit
  admit-tables user w =
      let h = has_balance-tables num vk group codec def_ppm user w in
      elim (Result-cases (has_balance num vk group codec def_ppm user w).0) [
        | inr (e, bad) ↦ rw (bad, admit) h
        | inl ((false, snap), fine) ↦ rw (fine, admit) h
        | inl ((true, snap), fine) ↦
            rw (fine, admit)
              (observe_wallet-tables user (has_balance num vk group codec def_ppm user w).1 ∙ h)
      ]

  -- The row that the handler makes for a request
  abbrev pub row_for : Bytes → Bytes → TtsRequest → JobRow
  row_for id user req = record {
    id = id;
    user_id = user;
    status = pending;
    input = req.text;
    voice = voice_of req.voice;
    audio_data = none;
    error = none;
  }

  -- What an outcome may be, and the tables after it
  abbrev pub IsPaidFor :
      Bytes
      → Option Bytes
      → Option TtsRequest
      → World num vk group
      → Outcome num
      → World num vk group
      → Type 0
  IsPaidFor id user body w o w' =
      ((u : Bytes) × (req : TtsRequest) × (snap : WalletSnapshot num) × (user ≡ some u)
        × (body ≡ some req)
        × ((has_balance num vk group codec def_ppm u w).0 ≡ ok (true, snap))
        × (o.reply ≡ some (accepted id))
        × (o.start
            ≡ some (record {
              job = id;
              user = u;
              text = req.text;
              voice = voice_of req.voice;
              snap = snap;
            }))
        × (w'.db.tables
            ≡ record w.db.tables { tts_jobs = w.db.tables.tts_jobs ++ row_for id u req ∷ [] }))
      ⊎ ((o.start ≡ none) × (w'.db.tables ≡ w.db.tables))

  with_body-Paid :
      (id user : Bytes) (snap : WalletSnapshot num) (body : Option TtsRequest)
      (w w' : World num vk group)
      → (has_balance num vk group codec def_ppm user w).0 ≡ ok (true, snap)
      → w'.db.tables ≡ w.db.tables
      → let (o, end) = with_body id user snap body w' in IsPaidFor id (some user) body w o end
  unfolding with_body create_async_tts insert_job start_of
  with_body-Paid id user snap none w w' paid same = inr (refl, same)
  with_body-Paid id user snap (some req) w w' paid same =
      elim (exec-cases (insert_job num id user req) w'.db) [
        | inr (x, rest, e) ↦ rw (e, with_body, create_async_tts) (inr (refl, same))
        | inl (rest, e) ↦
            rw (e, with_body, create_async_tts)
              (inl (
                user,
                req,
                snap,
                refl,
                refl,
                paid,
                refl,
                refl,
                ap (λ t. (insert_job num id user req t).1) same,
              ))
      ]

  -- Whoever asks, whatever the body, and whatever fails: either a job is started, and then the request has a
  -- user and a body, `HasBalance` finds the user's balance above zero, the client is sent the job's id, the
  -- job is given the text, the voice (tara, if none is named) and the snapshot of the wallet, and its row, which
  -- is pending, is the one change of the tables; or no job is started, and the tables are as they were.
  pub submit_async-Paid :
      (id : Bytes) (user : Option Bytes) (body : Option TtsRequest) (w : World num vk group)
      → let (o, w') = submit_async id user body w in IsPaidFor id user body w o w'
  unfolding submit_async
  submit_async-Paid id none body w = inr (refl, refl)
  submit_async-Paid id (some user) body w =
      elim (Gate-cases (admit num vk group codec def_ppm per_user user w).0) [
        | inl (snap, entered) ↦
            rw (entered, submit_async)
              (with_body-Paid id user snap body w
                (admit num vk group codec def_ppm per_user user w).1
                (admit-balance num vk group codec def_ppm per_user user snap w entered)
                (admit-tables user w))
        | inr (inl (status, text, refused)) ↦
            rw (refused, submit_async) (inr (refl, admit-tables user w))
        | inr (inr silent) ↦ rw (silent, submit_async) (inr (refl, admit-tables user w))
      ]
