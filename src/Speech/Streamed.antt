-- ===== src/Speech/Streamed.antt =====
-- What a stream delivers and what it bills, and that each return of `StreamTTS` gives back its slot.
use tts_platform.Common.{
  ℕ, suc, ◌≡◌, refl, sym, ap, ◌∙◌, subst, inl, inr, Bool, Option, none, some, List, [], ◌∷◌, ◌++◌,
  map, concat, append-nil, append_assoc, Bytes, codes, take, Option-cases,
}
use tts_platform.Common.Int.{ℤ}
use tts_platform.Common.Results.{Error, canceled, ok, err, Result-cases}
use tts_platform.Numbers.{Numbers, AddLaws}
use tts_platform.Valkey.{Valkey}
use tts_platform.Billing.Event.{Event, Nats}
use tts_platform.Billing.Coalescer.{new_coalescer}
use tts_platform.Billing.Calls.{call, run_calls, publish_all, billable, keep_billable, Numbered}
use tts_platform.Billing.Windows.{run_calls-windows}
use tts_platform.Wallet.Cache.{WalletSnapshot, Codec, Group, World}
use tts_platform.Synth.Limiter.{Limiter, acquire, release}
use tts_platform.Synth.Slots.{acquire-release, acquire-refused}
use tts_platform.Speech.Admission.{Gate-cases, admit, acquire_synthesis, gate_of}
use tts_platform.Speech.Feed.{
  Turn, ended, broken, received, copy_audio_stream, copy-broken, copy-received_err,
  copy-received_ok,
}
use tts_platform.Speech.Jobs.{TtsRequest, voice_of}
use tts_platform.Speech.Job.{message, chunk_seconds}
use tts_platform.Speech.Delivery.{final_flush, seconds_of}
use tts_platform.Speech.Stream.{Moment, Delivery, on_chunk, Sent, bill, on_chunk-cases}
use tts_platform.Speech.Streaming.{
  Meets, received_of, Ending, turned_away, streamed, Outcome, first_delivery, stream_audio,
  give_back, with_slot, past_gate, with_request, stream_tts,
}

billable-bill :
    (num : Numbers) (ms : List Moment)
    → billable num (map bill ms) ≡ seconds_of num (map (λ m. m.chunk) ms)
unfolding billable seconds_of chunk_seconds
billable-bill num [] = refl
billable-bill num (m ∷ ms) =
    ap (keep_billable num (chunk_seconds num m.chunk)) (billable-bill num ms)

module _ (num : Numbers) (nc : Nats num) (vk : Valkey) (group : Group) (codec : Codec num)
    (def_ppm : num.Float) (per_user : Bool) where
  copy_turns-Sent :
      (user : Bytes) (interval : ℤ) (turns : List (Turn Moment))
      (p : Delivery num nc vk group codec def_ppm per_user)
      → (n : ℕ) × Sent num nc vk group codec def_ppm per_user
          (take n (received_of turns))
          p
          (copy_audio_stream
            (on_chunk num nc vk group codec def_ppm per_user user interval)
            turns
            p).1
  unfolding copy_audio_stream run_calls call
  copy_turns-Sent user interval [] p = (0, (sym (append-nil p.sent), refl))
  copy_turns-Sent user interval (ended e ∷ turns) p = (0, (sym (append-nil p.sent), refl))
  copy_turns-Sent user interval (broken e ∷ turns) p = (
    0,
    rw (copy-broken (on_chunk num nc vk group codec def_ppm per_user user interval) e turns p)
        (sym (append-nil p.sent), refl),
  )
  copy_turns-Sent user interval (received m ∷ turns) p =
      elim (on_chunk-cases num nc vk group codec def_ppm per_user user interval m p) [
        | inl (e, q, stopped, same) ↦
            rw
              (copy-received_err (on_chunk num nc vk group codec def_ppm per_user user interval) m
                turns p q e stopped)
              (0, same)
        | inr (q, went_on, (sent, billed)) ↦
            let (n, (sent', billed')) = copy_turns-Sent user interval turns q in
            rw
              (copy-received_ok (on_chunk num nc vk group codec def_ppm per_user user interval) m
                turns p q went_on)
              (
                suc n,
                (
                  sent'
                      ∙ ap (λ s. s ++ map (λ m. m.chunk.pcm) (take n (received_of turns))) sent
                      ∙ append_assoc p.sent (m.chunk.pcm ∷ [])
                          (map (λ m. m.chunk.pcm) (take n (received_of turns))),
                  billed'
                      ∙ ap (λ s. run_calls num nc (map bill (take n (received_of turns))) s.0 s.1)
                          billed,
                ),
              )
      ]

  -- What an ending has billed: a stream, the chunks that it sent, which are the first so many that
  -- `Synthesize` gave for the request's text and voice; and any other ending nothing.
  abbrev pub Bills :
      Bytes → Meets → nc.Bus → nc.Bus → Ending num nc vk group codec def_ppm per_user → Type 0
  Bills user m bus bus' (streamed d) =
      (req : TtsRequest) × (turns : List (Turn Moment)) × (n : ℕ) × (events : List (ℤ × Event num))
      × (groups : List (List num.Float)) × (m.body ≡ some req)
      × (m.synthesize m.request req.text (voice_of req.voice) ≡ ok turns)
      × (d.sent ≡ map (λ x. x.chunk.pcm) (take n (received_of turns)))
      × (bus' ≡ publish_all num nc events bus)
      × (concat groups ≡ seconds_of num (map (λ x. x.chunk) (take n (received_of turns))))
      × Numbered num user m.request (codes "http_stream") 0 groups events
  Bills user m bus bus' _ = bus' ≡ bus

  -- An outcome with this limiter, and which bills what it should
  abbrev pub Settles :
      Bytes
      → Meets
      → nc.Bus
      → Option Limiter
      → Outcome num nc vk group codec def_ppm per_user
      → Type 0
  Settles user m bus l none = Unit {0}
  Settles user m bus l (some (e, w, bus', l')) = (l' ≡ l) × Bills user m bus bus' e

  stream_audio-Bills :
      (laws : AddLaws num) (user : Bytes) (coalesce interval : ℤ) (m : Meets) (req : TtsRequest)
      (turns : List (Turn Moment)) (snap : WalletSnapshot num) (bus : nc.Bus)
      (w : World num vk group)
      → m.body ≡ some req
      → m.synthesize m.request req.text (voice_of req.voice) ≡ ok turns
      → let d =
          stream_audio num nc vk group codec def_ppm per_user user coalesce interval m turns snap
            bus w in
        Bills user m bus d.bus (streamed d)
  unfolding stream_audio first_delivery
  stream_audio-Bills laws user coalesce interval m req turns snap bus w asked made =
      let first = new_coalescer num user m.request (codes "http_stream") coalesce in
      let start =
        first_delivery num nc vk group codec def_ppm per_user user m.request coalesce m.now snap bus
          w in
      let (n, (sent, billed)) = copy_turns-Sent user interval turns start in
      let ms = take n (received_of turns) in
      let (events, groups, handed, split, numbered) =
        run_calls-windows num laws nc user m.request (codes "http_stream") coalesce (map bill ms)
          m.last bus in
      (
        req,
        turns,
        n,
        events,
        groups,
        asked,
        made,
        sent,
        final_flush num nc m.last (map bill ms) _ first _ bus billed ∙ handed,
        split ∙ billable-bill num ms,
        numbered,
      )

  give_back-Settles :
      (user : Bytes) (m : Meets) (e : Ending num nc vk group codec def_ppm per_user)
      (w : World num vk group) (bus bus' : nc.Bus) (k l : Option Limiter)
      → release k ≡ some l
      → Bills user m bus bus' e
      → Settles user m bus l (give_back num nc vk group codec def_ppm per_user e w bus' k)
  unfolding give_back
  give_back-Settles user m e w bus bus' k l slot p = rw (slot, give_back) (refl, p)

  with_slot-Settles :
      (laws : AddLaws num) (user : Bytes) (coalesce interval : ℤ) (m : Meets) (req : TtsRequest)
      (snap : WalletSnapshot num) (bus : nc.Bus) (w : World num vk group) (k l : Option Limiter)
      → m.body ≡ some req
      → release k ≡ some l
      → Settles user m bus l (
          with_slot num nc vk group codec def_ppm per_user user coalesce interval m req snap bus w
            k)
  unfolding with_slot
  with_slot-Settles laws user coalesce interval m req snap bus w k l asked slot =
      elim (Result-cases (m.synthesize m.request req.text (voice_of req.voice))) [
        | inr (e, bad) ↦
            rw (bad, with_slot)
              (give_back-Settles user m (turned_away 502 (message e)) w bus bus k l slot refl)
        | inl (turns, fine) ↦
            rw (fine, with_slot)
              (give_back-Settles user m _ _ bus _ k l slot
                (stream_audio-Bills laws user coalesce interval m req turns snap bus w asked fine))
      ]

  past_gate-Settles :
      (laws : AddLaws num) (user : Bytes) (coalesce interval : ℤ) (m : Meets) (req : TtsRequest)
      (snap : WalletSnapshot num) (bus : nc.Bus) (w : World num vk group) (e : Error)
      (k l : Option Limiter)
      → k ≡ l
      → Settles user m bus l (
          past_gate num nc vk group codec def_ppm per_user user coalesce interval m req snap bus w
            (gate_of (err e), k))
  unfolding past_gate gate_of
  past_gate-Settles laws user coalesce interval m req snap bus w canceled k l same = (same, refl)
  past_gate-Settles laws user coalesce interval m req snap bus w e k l same = (same, refl)

  with_request-Settles :
      (laws : AddLaws num) (user : Bytes) (coalesce interval : ℤ) (m : Meets) (req : TtsRequest)
      (snap : WalletSnapshot num) (bus : nc.Bus) (w : World num vk group) (l : Option Limiter)
      → m.body ≡ some req
      → Settles user m bus l (
          with_request num nc vk group codec def_ppm per_user user coalesce interval m req snap bus
            w l)
  unfolding with_request past_gate acquire_synthesis gate_of release
  with_request-Settles laws user coalesce interval m req snap bus w none asked =
      with_slot-Settles laws user coalesce interval m req snap bus w none none asked refl
  with_request-Settles laws user coalesce interval m req snap bus w (some l) asked =
      elim (Option-cases (acquire m.pick m.ended (some l))) [
        | inl blocked ↦ rw (blocked, with_request) tt
        | inr ((r, k), found) ↦ elim (Result-cases r) [
          | inl (u, fine) ↦
              rw (found, fine, with_request)
                (with_slot-Settles laws user coalesce interval m req snap bus w k (some l) asked
                  (acquire-release m.pick m.ended l k (found ∙ rw fine refl)))
          | inr (e, bad) ↦
              rw (found, bad, with_request)
                (past_gate-Settles laws user coalesce interval m req snap bus w e k (some l)
                  (acquire-refused m.pick m.ended e l k (found ∙ rw bad refl)))
        ]
      ]

  -- Whatever a user's request for a stream meets, unless it waits for a slot for ever: when the handler
  -- returns, the limiter is the one that it found. A request that is refused, or whose client is
  -- gone, publishes nothing. One that is served hands the bus events, numbered from 1 on and about
  -- this user and request. The client was sent the first so many chunks that `Synthesize` gave for the
  -- request's text and voice, and the events' seconds are those of these chunks, as far as they count,
  -- each in exactly one event, also if the loop ends early by an error.
  pub stream_tts-Settles :
      (laws : AddLaws num) (user : Bytes) (coalesce interval : ℤ) (m : Meets) (bus : nc.Bus)
      (w : World num vk group) (l : Option Limiter)
      → Settles user m bus l (
          stream_tts num nc vk group codec def_ppm per_user (some user) coalesce interval m bus w l)
  unfolding stream_tts
  stream_tts-Settles laws user coalesce interval m bus w l =
      elim (Gate-cases (admit num vk group codec def_ppm per_user user w).0) [
        | inl (snap, passed) ↦ elim (Option-cases m.body) [
          | inl bad ↦ rw (passed, bad, stream_tts) (refl, refl)
          | inr (req, fine) ↦
              let w' = (admit num vk group codec def_ppm per_user user w).1 in
              subst (Settles user m bus l) (sym (simp (stream_tts, passed, fine)))
                (with_request-Settles laws user coalesce interval m req snap bus w' l fine)
        ]
        | inr (inl (status, body, refused)) ↦ rw (refused, stream_tts) (refl, refl)
        | inr (inr gone) ↦ rw (gone, stream_tts) (refl, refl)
      ]
