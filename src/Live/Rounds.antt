-- ===== src/Live/Rounds.antt =====
-- The two loops of `LiveHandler.ServeHTTP` (api/internal/ws/live.go). A step is what one goroutine does
-- between two points at which the other may come in. The metrics are left out, but not the reading of the
-- wallet that one of them makes.
use tts_platform.Common.{
  Bool, true, not, Option, none, some, List, [], ◌∷◌, ◌++◌, Bytes, codes, bytes_eq, if◌then◌else◌,
}
use tts_platform.Common.Int.{ℤ, ◌-ℤ◌, leb_ℤ}
use tts_platform.Common.Results.{Result, ok, err}
use tts_platform.Numbers.{Numbers, zero_float}
use tts_platform.Valkey.{Valkey}
use tts_platform.Billing.Event.{Nats}
use tts_platform.Wallet.Cache.{WalletSnapshot, Codec, Group, refresh}
use tts_platform.Speech.Job.{message}
use tts_platform.Speech.Admission.{observe_wallet}
use tts_platform.Live.Blank.{is_blank}
use tts_platform.Live.Wire.{
  Inbound, failed, finished, Writer, top, receiving, counted, weighed, paid, cleared, sent, gone,
  Reader, reading, over, flushed, left, Message, Event, look, receive, weigh, pay, check, write,
  bill, hear, hang_up, flush_all, leave,
}
use tts_platform.Live.Session.{
  Session, begin_utterance, close_utterance, on_received, charge, test_budget, send_audio,
  bill_chunk,
}

abbrev pub voice_for : Bytes → Bytes → Bytes
voice_for [] session_voice = session_voice
voice_for (c ∷ v) session_voice = c ∷ v

module _ (num : Numbers) (nc : Nats num) (vk : Valkey) (group : Group)
    (unmarshal : Bytes → Option Inbound) (codec : Codec num) (def_ppm : num.Float) (per_user : Bool)
    (user : Bytes) (refresh_interval : ℤ) where
  abbrev pub balance_of : Result (WalletSnapshot num) → num.Float
  balance_of (ok snap) = snap.balance_usd
  balance_of (err e) = zero_float num

  -- The budget is read anew, if it is time; the price is not. With an error the balance is zero.
  unfoldable pub refresh_budget : Message → Session num nc vk group → Session num nc vk group
  refresh_budget m s =
      let (r, wallets') = refresh num vk group codec def_ppm user s.wallets in
      if leb_ℤ refresh_interval (m.checked -ℤ s.last_refresh)
      then record s {
        budget = balance_of r;
        wallets = observe_wallet num vk group codec def_ppm per_user user wallets';
        last_refresh = m.refreshed;
      }
      else s

  -- A text that is not blank, in the voice of the session
  unfoldable pub say : Message → Inbound → Session num nc vk group → Session num nc vk group
  unfolding refresh_budget begin_utterance
  say m i s =
      let s' = begin_utterance num nc vk group i.final m.started s in
      elim m.send_error [
        | some e ↦ record s' { frames = s'.frames ++ failed (message e) ∷ [] }
        | none ↦ refresh_budget m (record s' {
          texts = s'.texts ++ record { text = i.text; voice = s'.voice; final = i.final } ∷ [];
        })
      ]

  unfoldable pub on_inbound : Message → Inbound → Session num nc vk group → Session num nc vk group
  unfolding say
  on_inbound m i s =
      let s' : Session num nc vk group = record s { voice = voice_for i.voice s.voice } in
      if not (bytes_eq i.kind (codes "text")) then s else if is_blank i.text then s' else say m i s'

  -- The last message, and what is deferred
  unfoldable pub leave_session : Session num nc vk group → Session num nc vk group
  leave_session s = record s {
    frames = s.frames ++ finished s.total_audio_seconds ∷ [];
    wallets = observe_wallet num vk group codec def_ppm per_user user s.wallets;
    cancelled = true;
    reader = left;
  }

  -- One round of the loop of the handler
  unfoldable pub on_message : Message → Session num nc vk group → Session num nc vk group
  unfolding on_inbound
  on_message m s = elim (unmarshal m.raw) [ none ↦ s | some i ↦ on_inbound m i s ]

  -- A step of the goroutine that delivers audio, if it is where the step begins
  unfoldable pub write_step : Event → Writer num → Session num nc vk group → Session num nc vk group
  unfolding on_received charge test_budget send_audio bill_chunk
  write_step look top s =
      if s.cancelled then record s { writer = gone } else record s { writer = receiving }
  write_step (receive r) receiving s = on_received num nc vk group r s
  write_step weigh (counted c) s = record s { writer = weighed c s.budget }
  write_step pay (weighed c b) s = charge num nc vk group c b s
  write_step check (paid c) s = test_budget num nc vk group c s
  write_step (write e) (cleared c) s = send_audio num nc vk group e c s
  write_step bill (sent c) s = bill_chunk num nc vk group c s
  write_step _ _ s = s

  -- A step of the handler
  unfoldable pub read_step : Event → Reader → Session num nc vk group → Session num nc vk group
  unfolding on_message close_utterance leave_session
  read_step (hear m) reading s = on_message m s
  read_step hang_up reading s = record s { reader = over }
  read_step (flush_all t) over s = close_utterance num nc vk group t s
  read_step leave flushed s = leave_session s
  read_step _ _ s = s

  -- A step begins where its goroutine is; else it does not happen.
  unfoldable pub step : Event → Session num nc vk group → Session num nc vk group
  unfolding write_step read_step
  step (hear m) s = read_step (hear m) s.reader s
  step hang_up s = read_step hang_up s.reader s
  step (flush_all t) s = read_step (flush_all t) s.reader s
  step leave s = read_step leave s.reader s
  step e s = write_step e s.writer s

  unfoldable pub run : List Event → Session num nc vk group → Session num nc vk group
  unfolding step
  run [] s = s
  run (e ∷ es) s = run es (step e s)
