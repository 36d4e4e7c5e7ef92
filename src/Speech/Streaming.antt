-- ===== src/Speech/Streaming.antt =====
-- `StreamTTS` of api/internal/handler/server.go as a whole: what it refuses, and the stream between the
-- acquisition of its slot and the last flush.
use tts_platform.Common.{ℕ, Bool, Option, none, some, List, [], ◌∷◌, Bytes, codes}
use tts_platform.Common.Int.{ℤ}
use tts_platform.Common.Results.{Error, Result, ok, err}
use tts_platform.Numbers.{Numbers, zero_float}
use tts_platform.Valkey.{Valkey}
use tts_platform.Billing.Event.{Nats}
use tts_platform.Billing.Coalescer.{Readings, new_coalescer, flush}
use tts_platform.Wallet.Cache.{WalletSnapshot, Codec, Group, World}
use tts_platform.Synth.Limiter.{Limiter, release}
use tts_platform.Speech.Admission.{
  Gate, enter, refuse, drop_silently, admit, acquire_synthesis, observe_wallet,
}
use tts_platform.Speech.Feed.{Turn, ended, broken, received, copy_audio_stream}
use tts_platform.Speech.Jobs.{TtsRequest, voice_of}
use tts_platform.Speech.Job.{message}
use tts_platform.Speech.Stream.{Moment, Delivery, on_chunk}

-- What else a request meets: its decoded body, which ready case `select` takes, the end of its
-- context, what `Synthesize` gives for a text and a voice, its new id, the time of the first refresh
-- and the readings of the last flush.
pub record Meets : Type 0 where
  pub body : Option TtsRequest
  pub pick : Bool
  pub ended : Option Error
  pub synthesize : Bytes → Bytes → Bytes → Result (List (Turn Moment))
  pub request : Bytes
  pub now : ℤ
  pub last : Readings

-- The chunks before the first turn that is none
abbrev pub received_of : {A : Type 0} → List (Turn A) → List A
received_of [] = []
received_of (received a ∷ turns) = a ∷ received_of turns
received_of (ended e ∷ turns) = []
received_of (broken e ∷ turns) = []

module _ (num : Numbers) (nc : Nats num) (vk : Valkey) (group : Group) (codec : Codec num)
    (def_ppm : num.Float) (per_user : Bool) where
  -- What becomes of a request: an HTTP error, nothing for a client that is gone, or a stream.
  pub data Ending : Type 0 where
    turned_away : ℕ → Bytes → Ending
    silent : Ending
    streamed : Delivery num nc vk group codec def_ppm per_user → Ending

  -- The ending, the wallets, the bus and the limiter; a call that would block has no outcome.
  abbrev pub Outcome : Type 0
  Outcome = Option (Ending × World num vk group × nc.Bus × Option Limiter)

  -- The variables when the stream begins
  unfoldable pub first_delivery :
      Bytes
      → Bytes
      → ℤ
      → ℤ
      → WalletSnapshot num
      → nc.Bus
      → World num vk group
      → Delivery num nc vk group codec def_ppm per_user
  first_delivery user request coalesce now snap bus w = record {
    budget = snap.balance_usd;
    snap = snap;
    audio_seconds = zero_float num;
    sent = [];
    coal = new_coalescer num user request (codes "http_stream") coalesce;
    bus = bus;
    last_refresh = now;
    wallets = w;
  }

  -- Past the headers: the loop, the last flush and the last look at the wallet
  unfoldable pub stream_audio :
      Bytes
      → ℤ
      → ℤ
      → Meets
      → List (Turn Moment)
      → WalletSnapshot num
      → nc.Bus
      → World num vk group
      → Delivery num nc vk group codec def_ppm per_user
  unfolding first_delivery
  stream_audio user coalesce refresh_interval m turns snap bus w =
      let (_, d) =
        copy_audio_stream (on_chunk num nc vk group codec def_ppm per_user user refresh_interval)
          turns (first_delivery user m.request coalesce m.now snap bus w) in
      let (_, coal', bus') = flush num nc m.last d.coal d.bus in
      record d {
        coal = coal';
        bus = bus';
        wallets = observe_wallet num vk group codec def_ppm per_user user d.wallets;
      }

  -- A return past the `defer` of `Release`
  unfoldable pub give_back : Ending → World num vk group → nc.Bus → Option Limiter → Outcome
  give_back e w bus l = elim (release l) [ none ↦ none | some l' ↦ some (e, w, bus, l') ]

  -- With a slot
  unfoldable pub with_slot :
      Bytes
      → ℤ
      → ℤ
      → Meets
      → TtsRequest
      → WalletSnapshot num
      → nc.Bus
      → World num vk group
      → Option Limiter
      → Outcome
  unfolding stream_audio give_back
  with_slot user coalesce refresh_interval m req snap bus w l =
      elim (m.synthesize m.request req.text (voice_of req.voice)) [
        | err e ↦ give_back (turned_away 502 (message e)) w bus l
        | ok turns ↦
            let d = stream_audio user coalesce refresh_interval m turns snap bus w in
            give_back (streamed d) d.wallets d.bus l
      ]

  -- Past `acquireSynthesis`
  unfoldable pub past_gate :
      Bytes
      → ℤ
      → ℤ
      → Meets
      → TtsRequest
      → WalletSnapshot num
      → nc.Bus
      → World num vk group
      → Gate (Unit {0}) × Option Limiter
      → Outcome
  unfolding with_slot
  past_gate user coalesce refresh_interval m req snap bus w (refuse status body, l) =
      some (turned_away status body, w, bus, l)
  past_gate user coalesce refresh_interval m req snap bus w (drop_silently, l) =
      some (silent, w, bus, l)
  past_gate user coalesce refresh_interval m req snap bus w (enter _, l) =
      with_slot user coalesce refresh_interval m req snap bus w l

  -- With a balance and a request
  unfoldable pub with_request :
      Bytes
      → ℤ
      → ℤ
      → Meets
      → TtsRequest
      → WalletSnapshot num
      → nc.Bus
      → World num vk group
      → Option Limiter
      → Outcome
  unfolding past_gate
  with_request user coalesce refresh_interval m req snap bus w l =
      elim (acquire_synthesis m.pick m.ended l) [
        | none ↦ none
        | some g ↦ past_gate user coalesce refresh_interval m req snap bus w g
      ]

  unfoldable pub stream_tts :
      Option Bytes → ℤ → ℤ → Meets → nc.Bus → World num vk group → Option Limiter → Outcome
  unfolding with_request
  stream_tts none coalesce refresh_interval m bus w l =
      some (turned_away 401 (codes "unauthorized"), w, bus, l)
  stream_tts (some user) coalesce refresh_interval m bus w l =
      let (g, w') = admit num vk group codec def_ppm per_user user w in
      elim g [
        | refuse status body ↦ some (turned_away status body, w', bus, l)
        | drop_silently ↦ some (silent, w', bus, l)
        | enter snap ↦ elim m.body [
          | none ↦ some (turned_away 400 (codes "bad request"), w', bus, l)
          | some req ↦ with_request user coalesce refresh_interval m req snap bus w' l
        ]
      ]
