-- ===== src/Live/Quiet.antt =====
-- The steps of a session that neither send audio nor bill
use tts_platform.Common.{
  ◌≡◌, refl, ap, inl, inr, Bool, Option, none, List, [], ◌∷◌, ◌++◌, append-nil, Bytes, length,
  arith, Option-cases,
}
use tts_platform.Common.Int.{ℤ, ◌-ℤ◌, div_ℤ}
use tts_platform.Numbers.{Numbers}
use tts_platform.Valkey.{Valkey}
use tts_platform.Billing.Event.{Nats}
use tts_platform.Billing.Calls.{Call, adds, flushes}
use tts_platform.Wallet.Cache.{Codec, Group}
use tts_platform.Speech.Job.{Chunk, message}
use tts_platform.Live.Wire.{
  Inbound, Frame, ready, audio, metadata, utterance_done, insufficient, close, failed, finished,
  Writer, top, receiving, counted, weighed, paid, sent, Received, broken, chunk, Message, Event,
  look, receive, weigh, pay, check, write, bill,
}
use tts_platform.Live.Session.{
  Session, announce, lengthen, count_chunk, end_utterance, on_received, charge, test_budget,
  begin_utterance,
}
use tts_platform.Live.Rounds.{
  leave_session, refresh_budget, say, on_inbound, on_message, write_step,
}

module _ {num : Numbers} where
  -- The binary messages among the frames
  abbrev pub audio_of : List (Frame num) → List Bytes
  audio_of [] = []
  audio_of (audio pcm ∷ fs) = pcm ∷ audio_of fs
  audio_of (ready ∷ fs) = audio_of fs
  audio_of (metadata t ∷ fs) = audio_of fs
  audio_of (utterance_done t ∷ fs) = audio_of fs
  audio_of (insufficient t ∷ fs) = audio_of fs
  audio_of (close n ∷ fs) = audio_of fs
  audio_of (failed e ∷ fs) = audio_of fs
  audio_of (finished t ∷ fs) = audio_of fs

  pub audio_of-append :
      (fs gs : List (Frame num)) → audio_of (fs ++ gs) ≡ audio_of fs ++ audio_of gs
  audio_of-append [] gs = refl
  audio_of-append (audio pcm ∷ fs) gs = ap (λ r. pcm ∷ r) (audio_of-append fs gs)
  audio_of-append (ready ∷ fs) gs = audio_of-append fs gs
  audio_of-append (metadata t ∷ fs) gs = audio_of-append fs gs
  audio_of-append (utterance_done t ∷ fs) gs = audio_of-append fs gs
  audio_of-append (insufficient t ∷ fs) gs = audio_of-append fs gs
  audio_of-append (close n ∷ fs) gs = audio_of-append fs gs
  audio_of-append (failed e ∷ fs) gs = audio_of-append fs gs
  audio_of-append (finished t ∷ fs) gs = audio_of-append fs gs

  -- The chunk that is sent and not yet billed
  abbrev pub in_flight : Writer num → List Chunk
  in_flight (sent c) = c ∷ []
  in_flight _ = []

-- The calls that hand in audio
abbrev pub adds_of : List Call → List Call
adds_of [] = []
adds_of (adds t n rate ∷ cs) = adds t n rate ∷ adds_of cs
adds_of (flushes t ∷ cs) = adds_of cs

pub adds_of-append : (xs ys : List Call) → adds_of (xs ++ ys) ≡ adds_of xs ++ adds_of ys
adds_of-append [] ys = refl
adds_of-append (adds t n rate ∷ xs) ys = ap (λ r. adds t n rate ∷ r) (adds_of-append xs ys)
adds_of-append (flushes t ∷ xs) ys = adds_of-append xs ys

abbrev pub hand_in : Chunk → Call
hand_in c = adds c.readings (length c.pcm) c.sample_rate

module _ (num : Numbers) (nc : Nats num) (vk : Valkey) (group : Group) where
  -- A step that neither sends audio nor bills
  pub record Quiet (s t : Session num nc vk group) : Type 0 where
    pub coal : t.coal ≡ s.coal
    pub bus : t.bus ≡ s.bus
    pub frames : audio_of t.frames ≡ audio_of s.frames
    pub writer : in_flight t.writer ≡ in_flight s.writer

  pub on_received-Quiet :
      (r : Received) (s : Session num nc vk group)
      → in_flight s.writer ≡ []
      → Quiet s (on_received num nc vk group r s)
  unfolding on_received count_chunk end_utterance announce lengthen
  on_received-Quiet broken s e = ground arith
  on_received-Quiet (chunk c seq now) s e = ground (
    arith,
    append-nil (audio_of s.frames),
    audio_of-append s.frames (utterance_done s.utt.audio_sec ∷ []),
    audio_of-append s.frames (metadata (div_ℤ (now -ℤ s.utt.start) 1_000_000) ∷ []),
  )

  -- A step of the writer that neither sends audio nor bills
  abbrev pub Silent : Event → Type 0
  Silent (write none) = ⊥
  Silent bill = ⊥
  Silent _ = Unit {0}

  charge-Quiet :
      (c : Chunk) (b : num.Float) (s : Session num nc vk group)
      → in_flight s.writer ≡ []
      → Quiet s (charge num nc vk group c b s)
  unfolding charge
  charge-Quiet c b s e = ground arith

  test_budget-Quiet :
      (c : Chunk) (s : Session num nc vk group)
      → in_flight s.writer ≡ []
      → Quiet s (test_budget num nc vk group c s)
  unfolding test_budget
  test_budget-Quiet c s e = ground (
    arith,
    append-nil (audio_of s.frames),
    audio_of-append s.frames (insufficient s.total_audio_seconds ∷ close 4020 ∷ []),
  )

  module _ (unmarshal : Bytes → Option Inbound) (codec : Codec num) (def_ppm : num.Float)
      (per_user : Bool) (user : Bytes) (refresh_interval : ℤ) where
    pub leave_session-Quiet :
        (s : Session num nc vk group)
        → Quiet s
            (leave_session num nc vk group unmarshal codec def_ppm per_user user refresh_interval s)
    unfolding leave_session
    leave_session-Quiet s = ground (
      arith,
      append-nil (audio_of s.frames),
      audio_of-append s.frames (finished s.total_audio_seconds ∷ []),
    )

    pub on_message-Quiet :
        (m : Message) (s : Session num nc vk group)
        → Quiet s
            (on_message num nc vk group unmarshal codec def_ppm per_user user refresh_interval m s)
    unfolding on_message on_inbound say refresh_budget begin_utterance
    on_message-Quiet m s = elim (Option-cases m.send_error) [
      | inl fine ↦ ground arith
      | inr (e, failed_) ↦ ground (
        arith,
        append-nil (audio_of s.frames),
        audio_of-append s.frames (failed (message e) ∷ []),
      )
    ]

    pub write_step-Quiet :
        (e : Event) (w : Writer num) (s : Session num nc vk group)
        → s.writer ≡ w
        → Silent e
        → Quiet s (
            write_step num nc vk group unmarshal codec def_ppm per_user user refresh_interval e w s)
    unfolding write_step
    write_step-Quiet (receive r) receiving s at _ = on_received-Quiet r s (ap in_flight at)
    write_step-Quiet pay (weighed c b) s at _ = charge-Quiet c b s (ap in_flight at)
    write_step-Quiet check (paid c) s at _ = test_budget-Quiet c s (ap in_flight at)
    write_step-Quiet look top s at _ = ground arith
    write_step-Quiet weigh (counted c) s at _ = ground arith
    write_step-Quiet _ _ s at silent = ground arith
