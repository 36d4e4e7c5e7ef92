-- ===== src/Live/Delivered.antt =====
-- What the client of a socket is sent and what is billed.
use tts_platform.Common.{
  ◌≡◌, refl, sym, Bool, Option, none, List, [], ◌∷◌, ◌++◌, map, append-nil, append_assoc, subst,
  Bytes, codes,
}
use tts_platform.Common.Int.{ℤ}
use tts_platform.Numbers.{Numbers}
use tts_platform.Valkey.{Valkey}
use tts_platform.Billing.Event.{Nats}
use tts_platform.Billing.Coalescer.{Readings, new_coalescer}
use tts_platform.Billing.Calls.{Call, flushes, call, run_calls, run_calls-append}
use tts_platform.Wallet.Cache.{WalletSnapshot, Codec, Group, World}
use tts_platform.Speech.Job.{Chunk}
use tts_platform.Live.Wire.{
  Inbound, audio, Writer, cleared, sent, Reader, reading, over, flushed, Event, write, bill, hear,
  hang_up, flush_all, leave,
}
use tts_platform.Live.Session.{Session, open_session, send_audio, bill_chunk, close_utterance}
use tts_platform.Live.Rounds.{write_step, read_step, step, run}
use tts_platform.Live.Quiet.{
  audio_of, audio_of-append, in_flight, adds_of, adds_of-append, hand_in, Quiet, on_message-Quiet,
  leave_session-Quiet, write_step-Quiet,
}
use mathlib.Core.List.{map-append, Sublistᴰ}
use mathlib.Core.List.Sublistᴰ
use tts_platform.Live.Heard.{heard, heard_all, held, write_step-held, read_step-writer}

module _ (num : Numbers) (nc : Nats num) (vk : Valkey) (group : Group) where
  -- The chunks that are billed, which are among those given, and the audio that is sent, in their order
  pub record Accounted (user : Bytes) (interval : ℤ) (request : Bytes) (bus : nc.Bus)
      (given : List Chunk) (s : Session num nc vk group) : Type 0 where
    pub calls : List Call
    pub billed : List Chunk
    pub ran :
        (s.coal, s.bus)
        ≡ run_calls num nc calls (new_coalescer num user request (codes "websocket") interval) bus
    pub handed_in : adds_of calls ≡ map hand_in billed
    pub delivered : audio_of s.frames ≡ map (λ c. c.pcm) (billed ++ in_flight s.writer)
    pub among : Sublistᴰ (billed ++ held s.writer) given

-- A step's chunks go on to be among those given, with more of them.
passed_on :
    (billed had has given more : List Chunk)
    → Sublistᴰ (billed ++ had) given
    → Sublistᴰ has (had ++ more)
    → Sublistᴰ (billed ++ has) (given ++ more)
passed_on billed had has given more before step_ =
    Sublistᴰ.trans (Sublistᴰ.append (Sublistᴰ.refl billed) step_) (
      subst (λ l. Sublistᴰ l (given ++ more)) (append_assoc billed had more)
        (Sublistᴰ.append before (Sublistᴰ.refl more)))

kept_on : (had more : List Chunk) → Sublistᴰ had (had ++ more)
kept_on had more =
    subst (λ l. Sublistᴰ l (had ++ more)) (append-nil had)
      (Sublistᴰ.append (Sublistᴰ.refl had) (Sublistᴰ.nil-sublist more))

module _ (num : Numbers) (nc : Nats num) (vk : Valkey) (group : Group)
    (unmarshal : Bytes → Option Inbound) (codec : Codec num) (def_ppm : num.Float) (per_user : Bool)
    (user : Bytes) (refresh_interval : ℤ) where
  module _ {interval : ℤ} {request : Bytes} {bus : nc.Bus} where
    -- More chunks are given.
    widened :
        (given more : List Chunk) (s : Session num nc vk group)
        → Accounted num nc vk group user interval request bus given s
        → Accounted num nc vk group user interval request bus (given ++ more) s
    widened given more s a = record {
      calls = a.calls;
      billed = a.billed;
      ran = a.ran;
      handed_in = a.handed_in;
      delivered = a.delivered;
      among =
          passed_on a.billed (held s.writer) (held s.writer) given more a.among
            (kept_on (held s.writer) more);
    }

    Quiet-Accounted :
        {s t : Session num nc vk group} (given more : List Chunk)
        → Quiet num nc vk group s t
        → Sublistᴰ (held t.writer) (held s.writer ++ more)
        → Accounted num nc vk group user interval request bus given s
        → Accounted num nc vk group user interval request bus (given ++ more) t
    Quiet-Accounted {s} {t} given more q h a = record {
      calls = a.calls;
      billed = a.billed;
      ran = rw (q.coal, q.bus) a.ran;
      handed_in = a.handed_in;
      delivered = rw (q.frames, q.writer) a.delivered;
      among = passed_on a.billed (held s.writer) (held t.writer) given more a.among h;
    }

    -- The handler's goroutine leaves the chunk in hand as it is.
    reads_on :
        (given : List Chunk) (s t : Session num nc vk group)
        → Quiet num nc vk group s t
        → t.writer ≡ s.writer
        → Accounted num nc vk group user interval request bus given s
        → Accounted num nc vk group user interval request bus given t
    reads_on given s t q same a =
        subst (λ l. Accounted num nc vk group user interval request bus l t) (append-nil given)
          (Quiet-Accounted given [] q
            (subst (λ w. Sublistᴰ (held w) (held s.writer ++ [])) (sym same)
              (kept_on (held s.writer) []))
            a)

    send_audio-Accounted :
        (given : List Chunk) (c : Chunk) (s : Session num nc vk group)
        → s.writer ≡ cleared c
        → Accounted num nc vk group user interval request bus given s
        → Accounted num nc vk group user interval request bus given
            (send_audio num nc vk group none c s)
    unfolding send_audio
    send_audio-Accounted given c s at a = record {
      calls = a.calls;
      billed = a.billed;
      ran = a.ran;
      handed_in = a.handed_in;
      delivered =
          rw
            (
              audio_of-append s.frames (audio c.pcm ∷ []),
              a.delivered,
              at,
              append-nil a.billed,
              map-append (λ (d : Chunk). d.pcm) a.billed (c ∷ []),
            )
            refl;
      among = rw at at a.among;
    }

    bill_chunk-Accounted :
        (given : List Chunk) (c : Chunk) (s : Session num nc vk group)
        → s.writer ≡ sent c
        → Accounted num nc vk group user interval request bus given s
        → Accounted num nc vk group user interval request bus given (bill_chunk num nc vk group c s)
    unfolding bill_chunk run_calls call
    bill_chunk-Accounted given c s at a = record {
      calls = a.calls ++ hand_in c ∷ [];
      billed = a.billed ++ c ∷ [];
      ran =
          rw
            (
              run_calls-append num nc a.calls (hand_in c ∷ [])
                  (new_coalescer num user request (codes "websocket") interval) bus,
              sym a.ran,
            )
            refl;
      handed_in =
          rw
            (
              adds_of-append a.calls (hand_in c ∷ []),
              map-append hand_in a.billed (c ∷ []),
              a.handed_in,
            )
            refl;
      delivered = rw (append-nil (a.billed ++ c ∷ []), a.delivered, at) refl;
      among = rw (append-nil (a.billed ++ c ∷ [])) (rw at at a.among);
    }

    close_utterance-Accounted :
        (given : List Chunk) (t : Readings) (s : Session num nc vk group)
        → Accounted num nc vk group user interval request bus given s
        → Accounted num nc vk group user interval request bus given
            (close_utterance num nc vk group t s)
    unfolding close_utterance run_calls call
    close_utterance-Accounted given t s a = record {
      calls = a.calls ++ flushes t ∷ [];
      billed = a.billed;
      ran =
          rw
            (
              run_calls-append num nc a.calls (flushes t ∷ [])
                  (new_coalescer num user request (codes "websocket") interval) bus,
              sym a.ran,
            )
            refl;
      handed_in =
          rw (adds_of-append a.calls (flushes t ∷ []), append-nil (adds_of a.calls)) a.handed_in;
      delivered = a.delivered;
      among = a.among;
    }

    write_step-Accounted :
        (given : List Chunk) (e : Event) (w : Writer num) (s : Session num nc vk group)
        → s.writer ≡ w
        → Accounted num nc vk group user interval request bus given s
        → Accounted num nc vk group user interval request bus (given ++ heard e) (
            write_step num nc vk group unmarshal codec def_ppm per_user user refresh_interval e w s)
    unfolding write_step
    write_step-Accounted given (write none) (cleared c) s at a =
        widened given [] _ (send_audio-Accounted given c s at a)
    write_step-Accounted given bill (sent c) s at a =
        widened given [] _ (bill_chunk-Accounted given c s at a)
    write_step-Accounted given (write none) w s at a = widened given [] s a
    write_step-Accounted given bill w s at a = widened given [] s a
    write_step-Accounted given e w s at a =
        Quiet-Accounted given (heard e)
          (write_step-Quiet num nc vk group unmarshal codec def_ppm per_user user refresh_interval e
            w s at tt)
          (subst
            (λ x.
              Sublistᴰ
                (held
                  (write_step num nc vk group unmarshal codec def_ppm per_user user refresh_interval
                    e w s).writer)
                (held x ++ heard e))
            (sym at)
            (write_step-held num nc vk group unmarshal codec def_ppm per_user user refresh_interval
              e w s at))
          a

    read_step-Accounted :
        (given : List Chunk) (e : Event) (r : Reader) (s : Session num nc vk group)
        → Accounted num nc vk group user interval request bus given s
        → Accounted num nc vk group user interval request bus given
            (read_step num nc vk group unmarshal codec def_ppm per_user user refresh_interval e r s)
    unfolding read_step
    read_step-Accounted given (hear m) reading s a =
        reads_on given s _
          (on_message-Quiet num nc vk group unmarshal codec def_ppm per_user user refresh_interval m
            s)
          (read_step-writer num nc vk group unmarshal codec def_ppm per_user user refresh_interval
            (hear m) reading s)
          a
    read_step-Accounted given (flush_all t) over s a = close_utterance-Accounted given t s a
    read_step-Accounted given leave flushed s a =
        reads_on given s _
          (leave_session-Quiet num nc vk group unmarshal codec def_ppm per_user user
            refresh_interval s)
          (read_step-writer num nc vk group unmarshal codec def_ppm per_user user refresh_interval
            leave flushed s)
          a
    read_step-Accounted given hang_up reading s a = record {
      calls = a.calls;
      billed = a.billed;
      ran = a.ran;
      handed_in = a.handed_in;
      delivered = a.delivered;
      among = a.among;
    }
    read_step-Accounted given e r s a = a

    step-Accounted :
        (given : List Chunk) (e : Event) (s : Session num nc vk group)
        → Accounted num nc vk group user interval request bus given s
        → Accounted num nc vk group user interval request bus
            (given ++ heard e)
            (step num nc vk group unmarshal codec def_ppm per_user user refresh_interval e s)
    unfolding step
    step-Accounted given (hear m) s a =
        widened given [] _ (read_step-Accounted given (hear m) s.reader s a)
    step-Accounted given hang_up s a =
        widened given [] _ (read_step-Accounted given hang_up s.reader s a)
    step-Accounted given (flush_all t) s a =
        widened given [] _ (read_step-Accounted given (flush_all t) s.reader s a)
    step-Accounted given leave s a =
        widened given [] _ (read_step-Accounted given leave s.reader s a)
    step-Accounted given e s a = write_step-Accounted given e s.writer s refl a

    run-Accounted :
        (given : List Chunk) (es : List Event) (s : Session num nc vk group)
        → Accounted num nc vk group user interval request bus given s
        → Accounted num nc vk group user interval request bus
            (given ++ heard_all es)
            (run num nc vk group unmarshal codec def_ppm per_user user refresh_interval es s)
    unfolding run
    run-Accounted given [] s a = widened given [] s a
    run-Accounted given (e ∷ es) s a =
        subst
          (λ l.
            Accounted num nc vk group user interval request bus l (
              run num nc vk group unmarshal codec def_ppm per_user user refresh_interval (e ∷ es)
                s))
          (append_assoc given (heard e) (heard_all es))
          (run-Accounted (given ++ heard e) es _ (step-Accounted given e s a))

  -- Whatever the two goroutines of a session do, and in whatever order: the binary messages that the
  -- client has been sent are the PCM of the chunks that were handed to the coalescer, each once, whole
  -- and in order, but for one chunk that is sent and about to be handed in; these chunks are among those that
  -- the stream gave, in its order, each with the length and the rate that it had there; and the coalescer and the
  -- bus are what the coalescer's calls for these chunks, and flushes, make of new ones.
  pub run-delivered :
      (es : List Event) (request : Bytes) (interval now : ℤ) (snap : WalletSnapshot num)
      (bus : nc.Bus) (wallets : World num vk group)
      → let s =
          run num nc vk group unmarshal codec def_ppm per_user user refresh_interval es
            (open_session num nc vk group user request interval now snap bus wallets) in
        Accounted num nc vk group user interval request bus (heard_all es) s
  unfolding open_session run_calls
  run-delivered es request interval now snap bus wallets = run-Accounted [] es _ (record {
    calls = [];
    billed = [];
    ran = refl;
    handed_in = refl;
    delivered = refl;
    among = Sublistᴰ.slnil;
  })
