-- ===== src/Live/Heard.antt =====
-- The chunks that the inference service gives, and the one that the goroutine has in hand.
use tts_platform.Common.{
  ◌≡◌, refl, sym, ap, subst, ◌⊎◌, inl, inr, Bool, Option, none, some, List, [], ◌∷◌, ◌++◌,
  append-nil, Bytes, arith, if◌then◌else◌, Option-cases,
}
use mathlib.Core.List.{Sublistᴰ}
use mathlib.Core.List.Sublistᴰ
use tts_platform.Common.Int.{ℤ, pos, ltb_ℤ}
use tts_platform.Numbers.{Numbers}
use tts_platform.Valkey.{Valkey}
use tts_platform.Billing.Event.{Nats}
use tts_platform.Wallet.Cache.{Codec, Group}
use tts_platform.Speech.Job.{Chunk}
use tts_platform.Live.Wire.{
  Inbound, Writer, top, receiving, counted, weighed, paid, cleared, sent, Reader, reading, over,
  flushed, Received, broken, chunk, Message, Event, look, receive, weigh, pay, check, write, bill,
  hear, hang_up, flush_all, leave,
}
use tts_platform.Live.Session.{
  Session, on_received, count_chunk, end_utterance, announce, lengthen, charge, test_budget,
  send_audio, bill_chunk, close_utterance, begin_utterance,
}
use tts_platform.Live.Rounds.{
  leave_session, refresh_budget, say, on_inbound, on_message, write_step, read_step,
}

-- The chunk that a step of the stream gives; one with a negative number only ends an utterance.
abbrev pub heard : Event → List Chunk
heard (receive (chunk c seq now)) = if ltb_ℤ seq (pos 0) then [] else c ∷ []
heard _ = []

abbrev pub heard_all : List Event → List Chunk
heard_all [] = []
heard_all (e ∷ es) = heard e ++ heard_all es

-- The chunk that the goroutine has in hand
abbrev pub held : {num : Numbers} → Writer num → List Chunk
held (counted c) = c ∷ []
held (weighed c b) = c ∷ []
held (paid c) = c ∷ []
held (cleared c) = c ∷ []
held (sent c) = c ∷ []
held _ = []

module _ (num : Numbers) (nc : Nats num) (vk : Valkey) (group : Group)
    (unmarshal : Bytes → Option Inbound) (codec : Codec num) (def_ppm : num.Float) (per_user : Bool)
    (user : Bytes) (refresh_interval : ℤ) where
  -- What it has in hand after a step: nothing, what it had, or what it is given
  abbrev Holds : Event → Writer num → Writer num → Type 0
  Holds e w w' = (held w' ≡ []) ⊎ ((held w' ≡ held w) ⊎ (held w' ≡ heard e))

  on_received-Holds :
      (r : Received) (s : Session num nc vk group)
      → Holds (receive r) receiving (on_received num nc vk group r s).writer
  unfolding on_received count_chunk end_utterance announce lengthen
  on_received-Holds broken s = inl refl
  on_received-Holds (chunk c seq now) s = ground arith

  write_step-Holds :
      (e : Event) (w : Writer num) (s : Session num nc vk group)
      → s.writer ≡ w
      → Holds e w
          (write_step num nc vk group unmarshal codec def_ppm per_user user refresh_interval e w
            s).writer
  unfolding write_step charge test_budget send_audio bill_chunk
  write_step-Holds (receive r) receiving s at = on_received-Holds r s
  write_step-Holds look top s at = ground arith
  write_step-Holds weigh (counted c) s at = inr (inl refl)
  write_step-Holds pay (weighed c b) s at = inr (inl refl)
  write_step-Holds check (paid c) s at = ground arith
  write_step-Holds (write none) (cleared c) s at = inr (inl refl)
  write_step-Holds (write (some x)) (cleared c) s at = inl refl
  write_step-Holds bill (sent c) s at = inl refl
  write_step-Holds e w s at = inr (inl (ap held at))

  pub write_step-held :
      (e : Event) (w : Writer num) (s : Session num nc vk group)
      → s.writer ≡ w
      → Sublistᴰ
          (held
            (write_step num nc vk group unmarshal codec def_ppm per_user user refresh_interval e w
              s).writer)
          (held w ++ heard e)
  write_step-held e w s at = elim (write_step-Holds e w s at) [
    | inl empty ↦ subst (λ l. Sublistᴰ l (held w ++ heard e)) (sym empty) (Sublistᴰ.nil-sublist _)
    | inr (inl kept) ↦
        subst (λ l. Sublistᴰ l (held w ++ heard e)) (sym kept)
          (subst (λ l. Sublistᴰ l (held w ++ heard e)) (append-nil (held w))
            (Sublistᴰ.append (Sublistᴰ.refl (held w)) (Sublistᴰ.nil-sublist (heard e))))
    | inr (inr given) ↦
        subst (λ l. Sublistᴰ l (held w ++ heard e)) (sym given)
          (Sublistᴰ.append (Sublistᴰ.nil-sublist (held w)) (Sublistᴰ.refl (heard e)))
  ]

  on_message-writer :
      (m : Message) (s : Session num nc vk group)
      → (on_message num nc vk group unmarshal codec def_ppm per_user user refresh_interval m
          s).writer
        ≡ s.writer
  unfolding on_message on_inbound say refresh_budget begin_utterance
  on_message-writer m s = elim (Option-cases m.send_error) [
    | inl fine ↦ ground arith
    | inr (e, bad) ↦ ground arith
  ]

  pub read_step-writer :
      (e : Event) (r : Reader) (s : Session num nc vk group)
      → (read_step num nc vk group unmarshal codec def_ppm per_user user refresh_interval e r
          s).writer
        ≡ s.writer
  unfolding read_step close_utterance leave_session
  read_step-writer (hear m) reading s = on_message-writer m s
  read_step-writer hang_up reading s = refl
  read_step-writer (flush_all t) over s = refl
  read_step-writer leave flushed s = refl
  read_step-writer _ _ s = refl
