-- ===== src/Live/Exhausted.antt =====
-- What the client of a socket is sent once its budget is exhausted.
use tts_platform.Common.{
  ◌≡◌, refl, inl, inr, Bool, true, false, Option, none, some, List, [], ◌∷◌, ◌++◌, Bytes, arith,
  Option-cases, if◌then◌else◌,
}
use tts_platform.Common.Int.{ℤ, ◌-ℤ◌, div_ℤ}
use tts_platform.Common.Results.{Error}
use tts_platform.Numbers.{Numbers}
use tts_platform.Valkey.{Valkey}
use tts_platform.Billing.Event.{Nats}
use tts_platform.Wallet.Cache.{WalletSnapshot, Codec, Group, World}
use tts_platform.Speech.Job.{Chunk, message}
use tts_platform.Live.Wire.{
  Inbound, Frame, ready, audio, metadata, utterance_done, insufficient, close, failed, finished,
  Writer, receiving, paid, cleared, gone, Reader, reading, flushed, Received, broken, chunk,
  Message, Event, receive, check, write, hear, hang_up, flush_all, leave,
}
use tts_platform.Live.Session.{
  Session, open_session, announce, lengthen, count_chunk, end_utterance, on_received, charge,
  test_budget, send_audio, bill_chunk, close_utterance, begin_utterance,
}
use tts_platform.Live.Rounds.{
  leave_session, refresh_budget, say, on_inbound, on_message, write_step, read_step, step, run,
}
use tts_platform.Common.{◌||◌}
use tts_platform.Live.Quiet.{audio_of, audio_of-append}

module _ {num : Numbers} where
  -- The client is told that its balance does not suffice.
  abbrev pub told : List (Frame num) → Bool
  told [] = false
  told (insufficient t ∷ fs) = true
  told (audio pcm ∷ fs) = told fs
  told (ready ∷ fs) = told fs
  told (metadata t ∷ fs) = told fs
  told (utterance_done t ∷ fs) = told fs
  told (close n ∷ fs) = told fs
  told (failed e ∷ fs) = told fs
  told (finished t ∷ fs) = told fs

  -- The binary messages after that
  abbrev pub late_audio : List (Frame num) → List Bytes
  late_audio [] = []
  late_audio (insufficient t ∷ fs) = audio_of fs
  late_audio (audio pcm ∷ fs) = late_audio fs
  late_audio (ready ∷ fs) = late_audio fs
  late_audio (metadata t ∷ fs) = late_audio fs
  late_audio (utterance_done t ∷ fs) = late_audio fs
  late_audio (close n ∷ fs) = late_audio fs
  late_audio (failed e ∷ fs) = late_audio fs
  late_audio (finished t ∷ fs) = late_audio fs

  told-append : (fs gs : List (Frame num)) → told (fs ++ gs) ≡ told fs || told gs
  told-append [] gs = refl
  told-append (audio pcm ∷ fs) gs = told-append fs gs
  told-append (ready ∷ fs) gs = told-append fs gs
  told-append (metadata t ∷ fs) gs = told-append fs gs
  told-append (utterance_done t ∷ fs) gs = told-append fs gs
  told-append (close n ∷ fs) gs = told-append fs gs
  told-append (failed e ∷ fs) gs = told-append fs gs
  told-append (finished t ∷ fs) gs = told-append fs gs
  told-append (insufficient t ∷ fs) gs = refl

  late_audio-append :
      (fs gs : List (Frame num))
      → late_audio (fs ++ gs) ≡ late_audio fs ++ (if told fs then audio_of gs else late_audio gs)
  late_audio-append [] gs = refl
  late_audio-append (audio pcm ∷ fs) gs = late_audio-append fs gs
  late_audio-append (ready ∷ fs) gs = late_audio-append fs gs
  late_audio-append (metadata t ∷ fs) gs = late_audio-append fs gs
  late_audio-append (utterance_done t ∷ fs) gs = late_audio-append fs gs
  late_audio-append (close n ∷ fs) gs = late_audio-append fs gs
  late_audio-append (failed e ∷ fs) gs = late_audio-append fs gs
  late_audio-append (finished t ∷ fs) gs = late_audio-append fs gs
  late_audio-append (insufficient t ∷ fs) gs = audio_of-append fs gs

module _ (num : Numbers) (nc : Nats num) (vk : Valkey) (group : Group) where
  -- The client is not told yet.
  abbrev Untold : Session num nc vk group → Type 0
  Untold s = (told s.frames ≡ false) × (late_audio s.frames ≡ [])

  -- Once the client is told, the goroutine that delivers audio is gone.
  record Exhausted (s : Session num nc vk group) : Type 0 where
    none_late : late_audio s.frames ≡ []
    gone_then : told s.frames ≡ true → s.writer ≡ gone

  Untold-Exhausted : {s : Session num nc vk group} → Untold s → Exhausted s
  Untold-Exhausted {s} (untold, none_late) = record { none_late = none_late; gone_then = λ t. cc }

  on_received-Untold :
      (r : Received) (s : Session num nc vk group)
      → Untold s
      → Untold (on_received num nc vk group r s)
  unfolding on_received count_chunk end_utterance announce lengthen
  on_received-Untold broken s u = u
  on_received-Untold (chunk c seq now) s (e, f) = ground (
    arith,
    told-append s.frames (utterance_done s.utt.audio_sec ∷ []),
    late_audio-append s.frames (utterance_done s.utt.audio_sec ∷ []),
    told-append s.frames (metadata (div_ℤ (now -ℤ s.utt.start) 1_000_000) ∷ []),
    late_audio-append s.frames (metadata (div_ℤ (now -ℤ s.utt.start) 1_000_000) ∷ []),
  )

  test_budget-Exhausted :
      (c : Chunk) (s : Session num nc vk group)
      → Untold s
      → Exhausted (test_budget num nc vk group c s)
  unfolding test_budget
  test_budget-Exhausted c s (e, f) = ground (
    arith,
    told-append s.frames (insufficient s.total_audio_seconds ∷ close 4020 ∷ []),
    late_audio-append s.frames (insufficient s.total_audio_seconds ∷ close 4020 ∷ []),
  )

  send_audio-Untold :
      (r : Option Error) (c : Chunk) (s : Session num nc vk group)
      → Untold s
      → Untold (send_audio num nc vk group r c s)
  unfolding send_audio
  send_audio-Untold (some e) c s u = u
  send_audio-Untold none c s (e, f) = ground (
    arith,
    told-append s.frames (audio c.pcm ∷ []),
    late_audio-append s.frames (audio c.pcm ∷ []),
  )

  module _ (unmarshal : Bytes → Option Inbound) (codec : Codec num) (def_ppm : num.Float)
      (per_user : Bool) (user : Bytes) (refresh_interval : ℤ) where
    leave_session-Exhausted :
        (s : Session num nc vk group)
        → Exhausted s
        → Exhausted
            (leave_session num nc vk group unmarshal codec def_ppm per_user user refresh_interval s)
    unfolding leave_session
    leave_session-Exhausted s x = ground (
      arith,
      x.none_late,
      told-append s.frames (finished s.total_audio_seconds ∷ []),
      late_audio-append s.frames (finished s.total_audio_seconds ∷ []),
    )

    on_message-Exhausted :
        (m : Message) (s : Session num nc vk group)
        → Exhausted s
        → Exhausted
            (on_message num nc vk group unmarshal codec def_ppm per_user user refresh_interval m s)
    unfolding on_message on_inbound say refresh_budget begin_utterance
    on_message-Exhausted m s x = elim (Option-cases m.send_error) [
      | inl fine ↦ ground arith
      | inr (e, failed_) ↦ ground (
        arith,
        told-append s.frames (failed (message e) ∷ []),
        late_audio-append s.frames (failed (message e) ∷ []),
      )
    ]

    write_step-Exhausted :
        (e : Event) (w : Writer num) (s : Session num nc vk group)
        → s.writer ≡ w
        → Exhausted s
        → Exhausted (
            write_step num nc vk group unmarshal codec def_ppm per_user user refresh_interval e w s)
    unfolding write_step charge bill_chunk
    write_step-Exhausted (receive r) receiving s at x =
        Untold-Exhausted (on_received-Untold r s (ground (arith, x.gone_then), x.none_late))
    write_step-Exhausted check (paid c) s at x =
        test_budget-Exhausted c s (ground (arith, x.gone_then), x.none_late)
    write_step-Exhausted (write r) (cleared c) s at x =
        Untold-Exhausted (send_audio-Untold r c s (ground (arith, x.gone_then), x.none_late))
    write_step-Exhausted e w s at x = ground (arith, x.gone_then, x.none_late)

    read_step-Exhausted :
        (e : Event) (r : Reader) (s : Session num nc vk group)
        → Exhausted s
        → Exhausted
            (read_step num nc vk group unmarshal codec def_ppm per_user user refresh_interval e r s)
    unfolding read_step close_utterance
    read_step-Exhausted (hear m) reading s x = on_message-Exhausted m s x
    read_step-Exhausted leave flushed s x = leave_session-Exhausted s x
    read_step-Exhausted e r s x = ground (arith, x.gone_then, x.none_late)

    step-Exhausted :
        (e : Event) (s : Session num nc vk group)
        → Exhausted s
        → Exhausted
            (step num nc vk group unmarshal codec def_ppm per_user user refresh_interval e s)
    unfolding step
    step-Exhausted (hear m) s x = read_step-Exhausted (hear m) s.reader s x
    step-Exhausted hang_up s x = read_step-Exhausted hang_up s.reader s x
    step-Exhausted (flush_all t) s x = read_step-Exhausted (flush_all t) s.reader s x
    step-Exhausted leave s x = read_step-Exhausted leave s.reader s x
    step-Exhausted e s x = write_step-Exhausted e s.writer s refl x

    run-Exhausted :
        (es : List Event) (s : Session num nc vk group)
        → Exhausted s
        → Exhausted
            (run num nc vk group unmarshal codec def_ppm per_user user refresh_interval es s)
    unfolding run
    run-Exhausted [] s x = x
    run-Exhausted (e ∷ es) s x = run-Exhausted es _ (step-Exhausted e s x)

    -- Whatever the two goroutines of a session do, and in whatever order: the client is sent no binary
    -- message after the message that its balance does not suffice, also if the budget is read anew
    -- after it.
    pub run-exhausted :
        (es : List Event) (request : Bytes) (interval now : ℤ) (snap : WalletSnapshot num)
        (bus : nc.Bus) (wallets : World num vk group)
        → let s =
            run num nc vk group unmarshal codec def_ppm per_user user refresh_interval es
              (open_session num nc vk group user request interval now snap bus wallets) in
          late_audio s.frames ≡ []
    unfolding open_session
    run-exhausted es request interval now snap bus wallets =
        (run-Exhausted es (open_session num nc vk group user request interval now snap bus wallets)
          (record { none_late = refl; gone_then = λ t. ground arith })).none_late
