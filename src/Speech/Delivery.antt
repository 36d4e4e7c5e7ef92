-- ===== src/Speech/Delivery.antt =====
-- What a job delivers and what it bills.
use tts_platform.Common.{
  ◌≡◌, refl, sym, ap, ◌∙◌, Bool, true, false, List, [], ◌∷◌, ◌++◌, map, append-nil, append_assoc,
  Bytes, codes, length, concat, ltb, arith, Bool-cases, inl, inr, if◌then◌else◌,
}
use tts_platform.Common.Int.{ℤ}
use tts_platform.Common.Results.{Result, ok, err}
use tts_platform.Numbers.{Numbers, AddLaws, zero_float}
use tts_platform.Postgres.{Db}
use tts_platform.Billing.Event.{Event, Nats}
use tts_platform.Billing.Coalescer.{Coalescer, Readings, new_coalescer, add_pcm, flush}
use tts_platform.Billing.Calls.{
  Call, adds, flushes, call, run_calls, run_calls-append, publish_all, keep_billable, billable,
  Numbered,
}
use tts_platform.Billing.Windows.{run_calls-windows}
use tts_platform.Audio.Wav.{wrap_wav, default_rate}
use tts_platform.Wallet.Cache.{WalletSnapshot}
use tts_platform.Speech.Feed.{received, copy_audio_stream, copy-received_err, copy-received_ok}
use tts_platform.Speech.Job.{
  Chunk, message, insufficient_balance, fail_with, set_running, complete_with, update, chunk_cost,
  chunk_seconds, Progress, on_chunk, start, finish, run_async_job,
}

module _ (num : Numbers) where
  open num use {Float, sub, lt}

  -- The chunks in order, as long as what is left of the budget is not below zero.
  unfoldable pub affordable : Float → Float → List Chunk → List Chunk
  affordable price budget [] = []
  affordable price budget (c ∷ cs) =
      let rest = affordable price (sub budget (chunk_cost num price c)) cs in
      if lt (sub budget (chunk_cost num price c)) (zero_float num) then [] else c ∷ rest

  -- The seconds of the chunks that are worth more than nothing
  unfoldable pub seconds_of : List Chunk → List Float
  seconds_of [] = []
  seconds_of (c ∷ cs) = keep_billable num (chunk_seconds num c) (seconds_of cs)

  abbrev bill : Chunk → Call
  bill c = adds c.readings (length c.pcm) c.sample_rate

  pub billable-bill : (cs : List Chunk) → billable num (map bill cs) ≡ seconds_of cs
  unfolding billable seconds_of chunk_seconds
  billable-bill [] = refl
  billable-bill (c ∷ cs) = ap (keep_billable num (chunk_seconds num c)) (billable-bill cs)

  affordable-poor :
      (price budget : Float) (c : Chunk) (cs : List Chunk)
      → lt (sub budget (chunk_cost num price c)) (zero_float num) ≡ true
      → affordable price budget (c ∷ cs) ≡ []
  unfolding affordable
  affordable-poor price budget c cs poor = rw poor refl

  affordable-rich :
      (price budget : Float) (c : Chunk) (cs : List Chunk)
      → lt (sub budget (chunk_cost num price c)) (zero_float num) ≡ false
      → affordable price budget (c ∷ cs)
        ≡ c ∷ affordable price (sub budget (chunk_cost num price c)) cs
  unfolding affordable
  affordable-rich price budget c cs rich = rw rich refl

  module _ (nc : Nats num) where
    open nc use {Bus}

    -- What the loop has done to its variables, when it delivered these chunks
    abbrev Delivered : List Chunk → Progress num nc → Progress num nc → Type 0
    Delivered good p q =
        (q.pcm ≡ p.pcm ++ concat (map (λ c. c.pcm) good))
        × ((q.coal, q.bus) ≡ run_calls num nc (map bill good) p.coal p.bus)

    paid : Float → Chunk → Progress num nc → Progress num nc
    paid price c p =
        let (_, coal', bus') =
          add_pcm num nc c.readings (length c.pcm) c.sample_rate p.coal p.bus in
        record {
          budget = sub p.budget (chunk_cost num price c);
          audio_seconds = num.add p.audio_seconds (chunk_seconds num c);
          pcm = p.pcm ++ c.pcm;
          coal = coal';
          bus = bus';
        }

    on_chunk-poor :
        (price : Float) (c : Chunk) (p : Progress num nc)
        → lt (sub p.budget (chunk_cost num price c)) (zero_float num) ≡ true
        → on_chunk num nc price c p
          ≡ (err insufficient_balance, record p { budget = sub p.budget (chunk_cost num price c) })
    unfolding on_chunk
    on_chunk-poor price c p poor = rw poor refl

    on_chunk-rich :
        (price : Float) (c : Chunk) (p : Progress num nc)
        → lt (sub p.budget (chunk_cost num price c)) (zero_float num) ≡ false
        → on_chunk num nc price c p ≡ (ok tt, paid price c p)
    unfolding on_chunk paid
    on_chunk-rich price c p rich = rw rich refl

    copy_nil :
        (price : Float) (p : Progress num nc)
        → let good = affordable price p.budget [] in
          let (r, q) = copy_audio_stream (on_chunk num nc price) (map received []) p in
          Delivered good p q
          × (r ≡ (
              if ltb (length good) (length {A = Chunk} [])
              then err insufficient_balance
              else ok tt))
    unfolding affordable copy_audio_stream run_calls
    copy_nil price p = ((sym (append-nil p.pcm), refl), ground arith)

    copy_audio_stream-Delivered :
        (price : Float) (chunks : List Chunk) (p : Progress num nc)
        → let good = affordable price p.budget chunks in
          let (r, q) = copy_audio_stream (on_chunk num nc price) (map received chunks) p in
          Delivered good p q
          × (r ≡ (if ltb (length good) (length chunks) then err insufficient_balance else ok tt))
    unfolding run_calls call paid
    copy_audio_stream-Delivered price [] p = copy_nil price p
    copy_audio_stream-Delivered price (c ∷ cs) p =
        elim (Bool-cases (lt (sub p.budget (chunk_cost num price c)) (zero_float num))) [
          | inl poor ↦
              rw
                (
                  copy-received_err (on_chunk num nc price) c (map received cs) p _ _
                      (on_chunk-poor price c p poor),
                  affordable-poor price p.budget c cs poor,
                )
                ((sym (append-nil p.pcm), refl), ground arith)
          | inr rich ↦
              let ((pcm, billed), r) = copy_audio_stream-Delivered price cs (paid price c p) in
              rw
                (
                  copy-received_ok (on_chunk num nc price) c (map received cs) p _
                      (on_chunk-rich price c p rich),
                  affordable-rich price p.budget c cs rich,
                )
                (
                  (
                    pcm
                        ∙ append_assoc p.pcm c.pcm (
                            concat (
                              map (λ d. d.pcm)
                                (affordable price (sub p.budget (chunk_cost num price c)) cs))),
                    billed,
                  ),
                  r ∙ ground arith,
                )
        ]

    finish-verdict :
        (job : Bytes) (r : Result (Unit {0})) (p : Progress num nc) (db : Db num) (short : Bool)
        (pcm : Bytes)
        → r ≡ (if short then err insufficient_balance else ok tt)
        → p.pcm ≡ pcm
        → finish num nc job (r, p) db
          ≡ update num job
              (if short
                then fail_with (message insufficient_balance)
                else complete_with (wrap_wav pcm default_rate))
              db
    unfolding finish
    finish-verdict job r p db true pcm e same = rw e refl
    finish-verdict job r p db false pcm e same = rw (e, same) refl

    pub final_flush :
        (last : Readings) (calls : List Call) (c first : Coalescer num) (bus start : Bus)
        → (c, bus) ≡ run_calls num nc calls first start
        → (flush num nc last c bus).2
          ≡ (run_calls num nc (calls ++ flushes last ∷ []) first start).1
    unfolding run_calls call
    final_flush last calls c first bus start e =
        ap (λ s. (flush num nc last s.0 s.1).2) e
        ∙ sym (ap (λ s. s.1) (run_calls-append num nc calls (flushes last ∷ []) first start))

-- A job whose stream gives any chunks and then ends. What is delivered are the chunks up to the first
-- that the balance at admission does not pay for. If these are all, the job ends as completed, with
-- their audio, and else as failed. In both cases what is billed are the delivered chunks: the bus
-- is handed events, numbered from 1 on and about this user and job, whose seconds are those of
-- the delivered chunks that count, each in exactly one event.
pub run_async_job-delivered :
    (num : Numbers) (laws : AddLaws num) (nc : Nats num) (job user : Bytes) (interval : ℤ)
    (snap : WalletSnapshot num) (chunks : List Chunk) (last : Readings) (bus : nc.Bus) (db : Db num)
    → let good = affordable num snap.price_per_audio_minute_usd snap.balance_usd chunks in
      let (db', bus') =
        run_async_job num nc job user interval snap (ok (map received chunks)) last bus db in
      (db'
        ≡ update num job
            (if ltb (length good) (length chunks)
              then fail_with (message insufficient_balance)
              else complete_with (wrap_wav (concat (map (λ c. c.pcm) good)) default_rate))
            (update num job set_running db))
      × ((events : List (ℤ × Event num)) × (groups : List (List num.Float)) × (bus'
            ≡ publish_all num nc events bus)
          × (concat groups ≡ seconds_of num good)
          × Numbered num user job (codes "http_async") 0 groups events)
unfolding run_async_job start finish
run_async_job-delivered num laws nc job user interval snap chunks last bus db =
    let price = snap.price_per_audio_minute_usd in
    let good = affordable num price snap.balance_usd chunks in
    let ((pcm, billed), r) =
      copy_audio_stream-Delivered num nc price chunks (start num nc user job interval snap bus) in
    let (events, groups, sent, split, numbered) =
      run_calls-windows num laws nc user job (codes "http_async") interval (map (bill num) good)
        last bus in
    (
      finish-verdict num nc job _ _ (update num job set_running db)
          (ltb (length good) (length chunks)) (concat (map (λ c. c.pcm) good)) r pcm,
      (
        events,
        groups,
        final_flush num nc last (map (bill num) good) _
              (new_coalescer num user job (codes "http_async") interval) _ bus billed
            ∙ sent,
        split ∙ billable-bill num good,
        numbered,
      ),
    )
