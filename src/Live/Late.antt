-- ===== src/Live/Late.antt =====
-- Audio that the coalescer is handed after the last flush
use tts_platform.Common.{
  ◌≡◌, refl, sym, ap, ◌∙◌, subst, Bool, true, false, Option, List, [], ◌∷◌, Bytes, arith,
}
use tts_platform.Common.Int.{ℤ, ◌-ℤ◌}
use tts_platform.Numbers.{Numbers}
use tts_platform.Valkey.{Valkey}
use tts_platform.Billing.Event.{Nats}
use tts_platform.Billing.Coalescer.{Readings, add_pcm}
use tts_platform.Wallet.Cache.{Codec, Group}
use tts_platform.Speech.Job.{Chunk}
use tts_platform.Live.Wire.{
  Inbound, Writer, top, sent, gone, over, flushed, left, Event, bill, hear, hang_up, flush_all,
  leave,
}
use tts_platform.Live.Session.{Session, bill_chunk, close_utterance}
use tts_platform.Live.Rounds.{leave_session, write_step, read_step, step, run}
use tts_platform.Common.Int.{leb_ℤ}
use tts_platform.Billing.Coalescer.{open_window, add_seconds}

module _ (num : Numbers) (nc : Nats num) (vk : Valkey) (group : Group) where
  -- The chunk does not end its window: the interval of the coalescer has not elapsed.
  abbrev pub IsHeldBack : Chunk → Session num nc vk group → Type 0
  IsHeldBack c s =
      leb_ℤ s.coal.interval
        (c.readings.checked -ℤ (open_window num nc c.readings s.coal).last_flush)
      ≡ false

  add_seconds-held :
      (c : Chunk) (sec : num.Float) (s : Session num nc vk group)
      → IsHeldBack c s
      → (add_seconds num nc c.readings sec s.coal s.bus).2 ≡ s.bus
  unfolding add_seconds
  add_seconds-held c sec s held = rw (held, add_seconds) refl

  bill_chunk-held :
      (c : Chunk) (s : Session num nc vk group)
      → IsHeldBack c s
      → (bill_chunk num nc vk group c s).bus ≡ s.bus
  unfolding bill_chunk add_pcm
  bill_chunk-held c s held = ground (arith, add_seconds-held c _ s held)

  -- The goroutine that delivers audio has no chunk and waits for none.
  abbrev between : Writer num → Bool
  between top = true
  between gone = true
  between _ = false

  -- Both goroutines are done, or about to find that they are.
  record Idle (s : Session num nc vk group) : Type 0 where
    back : s.reader ≡ left
    stopped : s.cancelled ≡ true
    writer : between s.writer ≡ true

  module _ (unmarshal : Bytes → Option Inbound) (codec : Codec num) (def_ppm : num.Float)
      (per_user : Bool) (user : Bytes) (refresh_interval : ℤ) where
    step-Idle :
        (e : Event) (s : Session num nc vk group)
        → Idle s
        → let t = step num nc vk group unmarshal codec def_ppm per_user user refresh_interval e s in
          Idle t × (t.bus ≡ s.bus)
    unfolding step write_step read_step
    step-Idle (hear m) s i = ground (arith, i.back, i.stopped, i.writer)
    step-Idle hang_up s i = ground (arith, i.back, i.stopped, i.writer)
    step-Idle (flush_all t) s i = ground (arith, i.back, i.stopped, i.writer)
    step-Idle leave s i = ground (arith, i.back, i.stopped, i.writer)
    step-Idle e s i = ground (arith, i.back, i.stopped, i.writer)

    run-Idle :
        (es : List Event) (s : Session num nc vk group)
        → Idle s
        → (run num nc vk group unmarshal codec def_ppm per_user user refresh_interval es s).bus
          ≡ s.bus
    unfolding run
    run-Idle [] s i = refl
    run-Idle (e ∷ es) s i = let (j, same) = step-Idle e s i in run-Idle es _ j ∙ same

    step-flush_all :
        (t : Readings) (s : Session num nc vk group)
        → s.reader ≡ over
        → step num nc vk group unmarshal codec def_ppm per_user user refresh_interval
            (flush_all t)
            s
          ≡ close_utterance num nc vk group t s
    unfolding step read_step
    step-flush_all t s past =
        ap
          (λ r.
            read_step num nc vk group unmarshal codec def_ppm per_user user refresh_interval
              (flush_all t) r s)
          past

    step-leave :
        (s : Session num nc vk group)
        → s.reader ≡ flushed
        → step num nc vk group unmarshal codec def_ppm per_user user refresh_interval leave s
          ≡ leave_session num nc vk group unmarshal codec def_ppm per_user user refresh_interval s
    unfolding step read_step
    step-leave s past =
        ap
          (λ r.
            read_step num nc vk group unmarshal codec def_ppm per_user user refresh_interval leave r
              s)
          past

    step-bill :
        (c : Chunk) (s : Session num nc vk group)
        → s.writer ≡ sent c
        → step num nc vk group unmarshal codec def_ppm per_user user refresh_interval bill s
          ≡ bill_chunk num nc vk group c s
    unfolding step write_step
    step-bill c s at =
        ap
          (λ w.
            write_step num nc vk group unmarshal codec def_ppm per_user user refresh_interval bill w
              s)
          at

    late_bill :
        (es : List Event) (c : Chunk) (t : Readings) (s : Session num nc vk group)
        → let last =
            leave_session num nc vk group unmarshal codec def_ppm per_user user refresh_interval
              (close_utterance num nc vk group t s) in
          IsHeldBack c last
          → (run num nc vk group unmarshal codec def_ppm per_user user refresh_interval es
              (bill_chunk num nc vk group c last)).bus
            ≡ (close_utterance num nc vk group t s).bus
    unfolding leave_session bill_chunk
    late_bill es c t s held =
        let last =
          leave_session num nc vk group unmarshal codec def_ppm per_user user refresh_interval
            (close_utterance num nc vk group t s) in
        run-Idle es (bill_chunk num nc vk group c last)
          (record { back = refl; stopped = refl; writer = refl })
        ∙ bill_chunk-held c last held

    -- The handler leaves its loop while a chunk is sent to the client and not yet billed, flushes the
    -- coalescer and returns, and only then the other goroutine hands in the chunk, which does not end
    -- its window. Then, whatever the session does after that, nothing is published of the chunk: the
    -- bus stays what the last flush made it.
    pub run-late_chunk :
        (es : List Event) (c : Chunk) (t : Readings) (s : Session num nc vk group)
        → s.writer ≡ sent c
        → s.reader ≡ over
        → IsHeldBack c (
            step num nc vk group unmarshal codec def_ppm per_user user refresh_interval
              (flush_all t)
              s)
        → (run num nc vk group unmarshal codec def_ppm per_user user refresh_interval
            (flush_all t ∷ leave ∷ bill ∷ es)
            s).bus
          ≡ (step num nc vk group unmarshal codec def_ppm per_user user refresh_interval
              (flush_all t)
              s).bus
    unfolding run close_utterance leave_session
    run-late_chunk es c t s at past held =
        let f = close_utterance num nc vk group t s in
        let one = step-flush_all t s past in
        ap
          (λ d.
            (run num nc vk group unmarshal codec def_ppm per_user user refresh_interval
              (leave ∷ bill ∷ es) d).bus)
          one
        ∙ ap
            (λ d.
              (run num nc vk group unmarshal codec def_ppm per_user user refresh_interval
                (bill ∷ es) d).bus)
            (step-leave f refl)
        ∙ ap
            (λ d.
              (run num nc vk group unmarshal codec def_ppm per_user user refresh_interval es d).bus)
            (step-bill c
              (leave_session num nc vk group unmarshal codec def_ppm per_user user refresh_interval
                f)
              at)
        ∙ late_bill es c t s (subst (λ d. IsHeldBack c d) one held)
        ∙ sym (ap (λ d. d.bus) one)
