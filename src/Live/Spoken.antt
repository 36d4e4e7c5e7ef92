-- ===== src/Live/Spoken.antt =====
-- What the inference service is sent.
use tts_platform.Common.{
  ◌≡◌, refl, sym, ap, ◌∙◌, inl, inr, Bool, true, false, Option, none, some, List, [], ◌∷◌, ◌++◌,
  append-nil, append_assoc, Bytes, codes, arith, Option-cases, if◌then◌else◌,
}
use tts_platform.Common.Int.{ℤ}
use tts_platform.Common.Results.{Error}
use tts_platform.Numbers.{Numbers}
use tts_platform.Valkey.{Valkey}
use tts_platform.Billing.Event.{Nats}
use tts_platform.Wallet.Cache.{WalletSnapshot, Codec, Group, World}
use tts_platform.Live.Wire.{
  Inbound, LiveText, Writer, Reader, reading, over, Message, Event, hear, hang_up, flush_all, leave,
}
use tts_platform.Live.Session.{
  Session, open_session, announce, lengthen, count_chunk, end_utterance, on_received, charge,
  test_budget, send_audio, bill_chunk, close_utterance, begin_utterance,
}
use tts_platform.Live.Rounds.{
  leave_session, refresh_budget, say, on_inbound, on_message, write_step, read_step, step, run,
}
use tts_platform.Common.{◌&&◌, not, bytes_eq}
use tts_platform.Live.Blank.{is_blank}
use tts_platform.Live.Rounds.{voice_for}

module _ (unmarshal : Bytes → Option Inbound) where
  -- The message has a text to speak.
  abbrev pub is_spoken : Inbound → Bool
  is_spoken i = bytes_eq i.kind (codes "text") && not (is_blank i.text)

  -- The voice after a message: the one that the last message of text named
  abbrev pub next_voice : Inbound → Bytes → Bytes
  next_voice i voice = if bytes_eq i.kind (codes "text") then voice_for i.voice voice else voice

  -- What a message makes the service be sent
  unfoldable pub line_of : Option Error → Inbound → Bytes → List LiveText
  line_of (some e) i voice = []
  line_of none i voice =
      if is_spoken i
      then record { text = i.text; voice = next_voice i voice; final = i.final } ∷ []
      else []

  -- What a socket's messages, up to its end, make the service be sent
  unfoldable pub lines : List Event → Bytes → List LiveText
  unfolding line_of
  lines [] voice = []
  lines (hang_up ∷ es) voice = []
  lines (hear m ∷ es) voice = elim (unmarshal m.raw) [
    | none ↦ lines es voice
    | some i ↦ line_of m.send_error i voice ++ lines es (next_voice i voice)
  ]
  lines (e ∷ es) voice = lines es voice

module _ (num : Numbers) (nc : Nats num) (vk : Valkey) (group : Group)
    (unmarshal : Bytes → Option Inbound) (codec : Codec num) (def_ppm : num.Float) (per_user : Bool)
    (user : Bytes) (refresh_interval : ℤ) where
  -- A step that sends the service nothing and leaves the voice and the place of the handler
  record Still (s t : Session num nc vk group) : Type 0 where
    texts : t.texts ≡ s.texts
    voice : t.voice ≡ s.voice
    reader : t.reader ≡ s.reader

  write_step-Still :
      (e : Event) (w : Writer num) (s : Session num nc vk group)
      → Still s
          (write_step num nc vk group unmarshal codec def_ppm per_user user refresh_interval e w s)
  unfolding write_step on_received count_chunk end_utterance announce lengthen charge test_budget
      send_audio bill_chunk
  write_step-Still e w s = ground arith

  on_message-none :
      (m : Message) (s : Session num nc vk group)
      → unmarshal m.raw ≡ none
      → on_message num nc vk group unmarshal codec def_ppm per_user user refresh_interval m s ≡ s
  unfolding on_message
  on_message-none m s e = rw (e, on_message) refl

  on_message-some :
      (m : Message) (i : Inbound) (s : Session num nc vk group)
      → unmarshal m.raw ≡ some i
      → let t =
          on_message num nc vk group unmarshal codec def_ppm per_user user refresh_interval m s in
        (t.texts ≡ s.texts ++ line_of unmarshal m.send_error i s.voice)
        × (t.voice ≡ next_voice unmarshal i s.voice)
        × (t.reader ≡ s.reader)
  unfolding on_message on_inbound say refresh_budget begin_utterance line_of
  on_message-some m i s e = elim (Option-cases m.send_error) [
    | inl fine ↦ rw (e, fine, on_message) (ground (arith, append-nil s.texts))
    | inr (_, bad) ↦ rw (e, bad, on_message) (ground (arith, append-nil s.texts))
  ]

  abbrev is_reading : Reader → Bool
  is_reading reading = true
  is_reading _ = false

  -- A session whose handler is past its loop
  record Ended (s t : Session num nc vk group) : Type 0 where
    texts : t.texts ≡ s.texts
    reader : is_reading t.reader ≡ false

  read_step-Ended :
      (e : Event) (r : Reader) (s : Session num nc vk group)
      → s.reader ≡ r
      → is_reading r ≡ false
      → Ended s
          (read_step num nc vk group unmarshal codec def_ppm per_user user refresh_interval e r s)
  unfolding read_step close_utterance leave_session
  read_step-Ended (hear m) r s at past = ground arith
  read_step-Ended hang_up r s at past = ground arith
  read_step-Ended e r s at past = ground arith

  step-Ended :
      (e : Event) (s : Session num nc vk group)
      → is_reading s.reader ≡ false
      → Ended s (step num nc vk group unmarshal codec def_ppm per_user user refresh_interval e s)
  unfolding step
  step-Ended (hear m) s past = read_step-Ended (hear m) s.reader s refl past
  step-Ended hang_up s past = read_step-Ended hang_up s.reader s refl past
  step-Ended (flush_all t) s past = read_step-Ended (flush_all t) s.reader s refl past
  step-Ended leave s past = read_step-Ended leave s.reader s refl past
  step-Ended e s past =
      let q = write_step-Still e s.writer s in
      record { texts = q.texts; reader = ap is_reading q.reader ∙ past }

  run-ended :
      (es : List Event) (s : Session num nc vk group)
      → is_reading s.reader ≡ false
      → (run num nc vk group unmarshal codec def_ppm per_user user refresh_interval es s).texts
        ≡ s.texts
  unfolding run
  run-ended [] s past = refl
  run-ended (e ∷ es) s past = let q = step-Ended e s past in run-ended es _ q.reader ∙ q.texts

  -- A step of the handler while it is in its loop
  run-reading :
      (e : Event) (es : List Event) (s : Session num nc vk group)
      → s.reader ≡ reading
      → (run num nc vk group unmarshal codec def_ppm per_user user refresh_interval es (
          read_step num nc vk group unmarshal codec def_ppm per_user user refresh_interval e
            s.reader s)).texts
        ≡ (run num nc vk group unmarshal codec def_ppm per_user user refresh_interval es (
            read_step num nc vk group unmarshal codec def_ppm per_user user refresh_interval e
              reading s)).texts
  run-reading e es s at =
      ap
        (λ r.
          (run num nc vk group unmarshal codec def_ppm per_user user refresh_interval es (
            read_step num nc vk group unmarshal codec def_ppm per_user user refresh_interval e r
              s)).texts)
        at

  run-lines :
      (es : List Event) (s : Session num nc vk group)
      → s.reader ≡ reading
      → (run num nc vk group unmarshal codec def_ppm per_user user refresh_interval es s).texts
        ≡ s.texts ++ lines unmarshal es s.voice
  unfolding run step read_step lines
  run-lines [] s at = sym (append-nil s.texts)
  run-lines (hear m ∷ es) s at =
      run-reading (hear m) es s at ∙ elim (Option-cases (unmarshal m.raw)) [
        | inl e ↦ rw (on_message-none m s e, e, lines) (run-lines es s at)
        | inr (i, e) ↦
            let (texts, voice, reader) = on_message-some m i s e in
            rw (e, lines)
              (run-lines es
                  (on_message num nc vk group unmarshal codec def_ppm per_user user refresh_interval
                    m s)
                  (reader ∙ at)
                ∙ rw (texts, voice)
                    (append_assoc s.texts (line_of unmarshal m.send_error i s.voice)
                      (lines unmarshal es (next_voice unmarshal i s.voice))))
      ]
  run-lines (hang_up ∷ es) s at =
      run-reading hang_up es s at
      ∙ run-ended es (record s { reader = over }) refl
      ∙ sym (append-nil s.texts)
  run-lines (flush_all t ∷ es) s at = run-reading (flush_all t) es s at ∙ run-lines es s at
  run-lines (leave ∷ es) s at = run-reading leave es s at ∙ run-lines es s at
  run-lines (e ∷ es) s at =
      let q = write_step-Still e s.writer s in
      run-lines es _ (q.reader ∙ at) ∙ rw (q.texts, q.voice) refl

  -- Whatever the two goroutines of a session do, and in whatever order: the inference service is sent
  -- what the client's messages call for, read one after the other up to the end of the socket. These
  -- are the messages of type "text" whose text is not blank and for which `SendText` gives no error,
  -- each with the voice that the last message of text to name one named, or "tara". So neither the
  -- audio, nor the budget, nor a client that is told that its balance does not suffice, changes
  -- what is synthesized.
  pub run-spoken :
      (es : List Event) (request : Bytes) (interval now : ℤ) (snap : WalletSnapshot num)
      (bus : nc.Bus) (wallets : World num vk group)
      → (run num nc vk group unmarshal codec def_ppm per_user user refresh_interval es
          (open_session num nc vk group user request interval now snap bus wallets)).texts
        ≡ lines unmarshal es (codes "tara")
  unfolding open_session
  run-spoken es request interval now snap bus wallets =
      run-lines es (open_session num nc vk group user request interval now snap bus wallets) refl
