-- ===== src/Live/Settled.antt =====
-- What a session has billed when its handler has flushed.
use tts_platform.Common.{
  ◌≡◌, refl, ap, ◌∙◌, subst, Bool, Option, List, [], ◌∷◌, map, append-nil, Bytes, codes,
}
use tts_platform.Common.Int.{ℤ}
use tts_platform.Numbers.{Numbers}
use tts_platform.Valkey.{Valkey}
use tts_platform.Billing.Event.{Nats}
use tts_platform.Billing.Coalescer.{Readings, new_coalescer}
use tts_platform.Billing.Calls.{Call, adds, flushes}
use tts_platform.Wallet.Cache.{WalletSnapshot, Codec, Group, World}
use tts_platform.Speech.Job.{Chunk}
use tts_platform.Live.Wire.{Inbound, over, Event, flush_all}
use tts_platform.Live.Session.{open_session, close_utterance}
use tts_platform.Live.Rounds.{read_step, step, run}
use tts_platform.Numbers.{AddLaws}
use tts_platform.Billing.Event.{Event as Billed}
use tts_platform.Billing.Calls.{billable, publish_all, Numbered}
use tts_platform.Billing.Windows.{run_calls-windows}
use tts_platform.Speech.Delivery.{final_flush, seconds_of, billable-bill}
use tts_platform.Common.{concat}
use tts_platform.Live.Quiet.{audio_of, in_flight, adds_of}
use tts_platform.Live.Heard.{heard_all, held}
use tts_platform.Live.Delivered.{run-delivered}
use mathlib.Core.List.{Sublistᴰ}
use mathlib.Core.List.Sublistᴰ

-- A flush hands in no audio.
billable-adds_of :
    (num : Numbers) (calls : List Call) → billable num calls ≡ billable num (adds_of calls)
unfolding billable
billable-adds_of num [] = refl
billable-adds_of num (flushes t ∷ calls) = billable-adds_of num calls
billable-adds_of num (adds t n rate ∷ calls) = rw (billable-adds_of num calls) refl

module _ (num : Numbers) (nc : Nats num) (vk : Valkey) (group : Group)
    (unmarshal : Bytes → Option Inbound) (codec : Codec num) (def_ppm : num.Float) (per_user : Bool)
    (user : Bytes) (refresh_interval : ℤ) where
  -- Whatever the two goroutines do before the handler leaves its loop: if no chunk is sent and not yet
  -- billed when the handler flushes the coalescer for the last time, then the bus has been handed
  -- events, numbered from 1 on and about this user and session. The client has been sent the audio of
  -- chunks among those that the stream gave, in its order, and the events' seconds are those of these
  -- chunks, as far as they count, each in exactly one event.
  pub run-settled :
      (laws : AddLaws num) (es : List Event) (request : Bytes) (interval now : ℤ)
      (snap : WalletSnapshot num) (bus : nc.Bus) (wallets : World num vk group) (last : Readings)
      → let s =
          run num nc vk group unmarshal codec def_ppm per_user user refresh_interval es
            (open_session num nc vk group user request interval now snap bus wallets) in
        let s' =
          step num nc vk group unmarshal codec def_ppm per_user user refresh_interval
            (flush_all last)
            s in
        s.reader ≡ over
        → in_flight s.writer ≡ []
        → (chunks : List Chunk) × (events : List (ℤ × Billed num)) × (groups : List
            (List num.Float))
          × Sublistᴰ chunks (heard_all es)
          × (audio_of s'.frames ≡ map (λ c. c.pcm) chunks)
          × (s'.bus ≡ publish_all num nc events bus)
          × (concat groups ≡ seconds_of num chunks)
          × Numbered num user request (codes "websocket") 0 groups events
  unfolding step read_step close_utterance
  run-settled laws es request interval now snap bus wallets last at idle =
      let first = new_coalescer num user request (codes "websocket") interval in
      let s =
        run num nc vk group unmarshal codec def_ppm per_user user refresh_interval es
          (open_session num nc vk group user request interval now snap bus wallets) in
      let a =
        run-delivered num nc vk group unmarshal codec def_ppm per_user user refresh_interval es
          request interval now snap bus wallets in
      let (events, groups, handed, split, numbered) =
        run_calls-windows num laws nc user request (codes "websocket") interval a.calls last bus in
      (
        a.billed,
        events,
        groups,
        subst (λ l. Sublistᴰ l (heard_all es)) (append-nil a.billed)
            (Sublistᴰ.trans
              (Sublistᴰ.append (Sublistᴰ.refl a.billed) (Sublistᴰ.nil-sublist (held s.writer)))
              a.among),
        rw (at, a.delivered, idle, append-nil a.billed) refl,
        rw at (final_flush num nc last a.calls s.coal first s.bus bus a.ran ∙ handed),
        split
            ∙ billable-adds_of num a.calls
            ∙ ap (billable num) a.handed_in
            ∙ billable-bill num a.billed,
        numbered,
      )
