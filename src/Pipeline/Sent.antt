-- ===== src/Pipeline/Sent.antt =====
-- NATS between the two services: what `Publish` (api/internal/billing/event.go) sends, the callback of `Run`
-- (metering/internal/consumer/consumer.go) is handed.
use tts_platform.Common.{
  ℕ, suc, ◌≡◌, refl, sym, ap, ◌∙◌, ◌⊎◌, inl, inr, some, List, [], ◌∷◌, ◌++◌, append-nil,
  append_assoc, Bytes, arith,
}
use tts_platform.Common.Int.{ℤ}
use tts_platform.Common.Results.{Error, ok, err, Result-cases}
use tts_platform.Numbers.{Numbers}
use tts_platform.Billing.Event.{Event, Nats, subject, stamp, publish}
use tts_platform.Billing.Coalescer.{idempotency_key}
use tts_platform.Billing.Calls.{publish_all, Numbered}
use tts_platform.Metering.Consumer.{Codec}

module _ (num : Numbers) where
  abbrev pub stamped : List (ℤ × Event num) → List (Event num)
  stamped [] = []
  stamped ((now, e) ∷ events) = stamp num now e ∷ stamped events

  -- A stamped event is about what it was.
  pub stamp_about :
      (now : ℤ) (e : Event num)
      → ((stamp num now e).idempotency_key ≡ e.idempotency_key)
        × ((stamp num now e).user_id ≡ e.user_id)
        × ((stamp num now e).request_id ≡ e.request_id)
        × ((stamp num now e).transport ≡ e.transport)
        × ((stamp num now e).audio_seconds ≡ e.audio_seconds)
  stamp_about now e = ground arith

  -- Each message reads as the event at its place.
  abbrev pub Reads : Codec num → List Bytes → List (Event num) → Type 0
  Reads codec [] [] = Unit {0}
  Reads codec [] (e ∷ es) = ⊥
  Reads codec (b ∷ bs) [] = ⊥
  Reads codec (b ∷ bs) (e ∷ es) = (codec.unmarshal_event b ≡ some e) × Reads codec bs es

-- A connection that keeps every message whose publication to the subject it reports no error for, in order,
-- for the queue group; and an encoding of a request's events that reads back, where it is one. Seconds or
-- times that have no encoding are errors of `Marshal`, and the texts are those of a request.
pub record Delivers (num : Numbers) (nc : Nats num) (codec : Codec num)
    (user request transport : Bytes) : Type 0 where
  pub sent : nc.Bus → List Bytes
  pub sent-publish :
      (b : Bytes) (bus : nc.Bus)
      → (nc.publish subject b bus).0 ≡ ok tt
      → sent (nc.publish subject b bus).1 ≡ sent bus ++ b ∷ []
  pub unmarshal-marshal :
      (e : Event num) (k : ℕ) (b : Bytes)
      → e.idempotency_key ≡ idempotency_key num request k
      → e.user_id ≡ user
      → e.request_id ≡ request
      → e.transport ≡ transport
      → nc.marshal e ≡ ok b
      → codec.unmarshal_event b ≡ some e

module _ (num : Numbers) (nc : Nats num) where
  -- `Publish` reports an error for one of the events, handed to it one after the other.
  abbrev pub Refused : List (ℤ × Event num) → nc.Bus → Type 0
  Refused [] bus = ⊥
  Refused ((now, e) ∷ events) bus =
      ((x : Error) × ((publish num nc now e bus).0 ≡ err x))
      ⊎ Refused events (publish num nc now e bus).1

  publish-ok :
      (now : ℤ) (e : Event num) (bus : nc.Bus)
      → (publish num nc now e bus).0 ≡ ok tt
      → (b : Bytes) × (nc.marshal (stamp num now e) ≡ ok b)
        × ((nc.publish subject b bus).0 ≡ ok tt)
        × ((publish num nc now e bus).1 ≡ (nc.publish subject b bus).1)
  unfolding publish
  publish-ok now e bus h = elim (Result-cases (nc.marshal (stamp num now e))) [
    | inl (b, made) ↦ (b, made, rw (made, publish) at h, rw (made, publish) refl)
    | inr (x, bad) ↦ absurd (cc (rw (bad, publish) at h))
  ]

module _ (num : Numbers) (nc : Nats num) (codec : Codec num) (user request transport : Bytes)
    (d : Delivers num nc codec user request transport) where
  -- What the queue group is handed of a request's numbered events, unless one of them is refused
  pub sent-publish_all :
      (seq : ℕ) (groups : List (List num.Float)) (events : List (ℤ × Event num)) (bus : nc.Bus)
      → Numbered num user request transport seq groups events
      → Refused num nc events bus
        ⊎ ((bs : List Bytes) × (d.sent (publish_all num nc events bus) ≡ d.sent bus ++ bs)
            × Reads num codec bs (stamped num events))
  unfolding publish_all
  sent-publish_all seq [] [] bus k = inr ([], sym (append-nil _), tt)
  sent-publish_all seq [] (x ∷ events) bus k = absurd k
  sent-publish_all seq (g ∷ gs) [] bus k = absurd k
  sent-publish_all seq (g ∷ gs) ((now, e) ∷ events) bus ((key, his, req, way, _, _), k) =
      elim (Result-cases (publish num nc now e bus).0) [
        | inr (x, lost) ↦ inl (inl (x, lost))
        | inl (u, taken) ↦
            let (b, made, accepted, after) = publish-ok num nc now e bus taken in
            let (key', his', req', way', _) = stamp_about num now e in
            let read =
              d.unmarshal-marshal (stamp num now e) (suc seq) b (key' ∙ key) (his' ∙ his)
                (req' ∙ req) (way' ∙ way) made in
            elim (sent-publish_all (suc seq) gs events (publish num nc now e bus).1 k) [
              | inl later ↦ inl (inr later)
              | inr (bs, all, reads) ↦ inr (
                b ∷ bs,
                all
                    ∙ ap (λ l. l ++ bs) (ap d.sent after ∙ d.sent-publish b bus accepted)
                    ∙ append_assoc (d.sent bus) (b ∷ []) bs,
                (read, reads),
              )
            ]
      ]
