-- ===== src/Billing/Windows.antt =====
-- Every second of audio that a coalescer is given is in exactly one of the events that it hands to
-- the publisher.
use tts_platform.Common.{
  ◌≡◌, refl, ap, ◌∙◌, subst, ◌≢◌, ◌⊎◌, inl, inr, List, [], ◌∷◌, ◌++◌, foldl, append_assoc, Bytes,
  All, All-append, concat, Bool-cases,
}
use tts_platform.Common.Int.{ℤ}
use tts_platform.Numbers.{Numbers, zero_float, IsBillable, AddLaws}
use tts_platform.Billing.Event.{Event, Nats, seconds_from_pcm}
use tts_platform.Billing.Coalescer.{Coalescer, Readings, new_coalescer, flush}
use tts_platform.Billing.Calls.{
  Call, adds, flushes, total, billable, call, run_calls, publish_all, Numbered,
}
use tts_platform.Billing.Steps.{IsOwned, Pending, Sends, flush_locked-Sends, call_lem}

module _ (num : Numbers) where
  open num use {Float, le}

  billable-cons :
      (x : Call) (calls : List Call)
      → billable num (x ∷ calls) ≡ billable num (x ∷ []) ++ billable num calls
  unfolding billable
  billable-cons (adds t bytes rate) calls =
      elim (Bool-cases (le (seconds_from_pcm num bytes rate) (zero_float num))) [
        | inl nothing ↦ rw nothing
        | inr some_audio ↦ rw some_audio
      ]
  billable-cons (flushes t) calls = refl

  news-IsBillable : (x : Call) → All (IsBillable num) (billable num (x ∷ []))
  unfolding billable
  news-IsBillable (adds t bytes rate) =
      elim (Bool-cases (le (seconds_from_pcm num bytes rate) (zero_float num))) [
        | inl nothing ↦ rw nothing tt
        | inr some_audio ↦ rw some_audio (some_audio, tt)
      ]
  news-IsBillable (flushes t) = tt

  foldl-IsBillable :
      (laws : AddLaws num) (a : Float) (xs : List Float)
      → IsBillable num a
      → All (IsBillable num) xs
      → IsBillable num (foldl num.add a xs)
  foldl-IsBillable laws a [] ha hx = ha
  foldl-IsBillable laws a (x ∷ xs) ha (hx, hxs) =
      foldl-IsBillable laws (num.add a x) xs (laws.billable_add a x ha hx) hxs

  -- A window with a chunk is worth flushing.
  total-IsBillable :
      (laws : AddLaws num) (xs : List Float)
      → xs ≢ []
      → All (IsBillable num) xs
      → IsBillable num (total num xs)
  total-IsBillable laws [] full h = absurd (full refl)
  total-IsBillable laws (x ∷ xs) full (hx, hxs) =
      foldl-IsBillable laws _ xs (laws.billable_first x hx) hxs

module _ (num : Numbers) (laws : AddLaws num) (nc : Nats num) (user request transport : Bytes) where
  open num use {Float, le}
  open nc use {Bus}

  final_flush :
      (t : Readings) (c : Coalescer num) (bus : Bus) (p : List Float)
      → IsOwned num nc user request transport c
      → Pending num nc user request transport c p
      → All (IsBillable num) p
      → (((flush num nc t c bus).2 ≡ bus) × (p ≡ []))
        ⊎ Sends num nc user request transport c bus p (flush num nc t c bus)
  unfolding flush
  final_flush t c bus p own (inl (e, q)) h = inl (rw (e, flush), q)
  final_flush t c bus [] own (inr (w, e, q)) h = inl (rw (e, flush, q, laws.zero_le), refl)
  final_flush t c bus (x ∷ p) own (inr (w, e, q)) h =
      let full : IsBillable num w.audio_seconds =
        rw q (total-IsBillable num laws (x ∷ p) (λ n. cc) h) in
      inr (
        rw (e, flush, full)
          (flush_locked-Sends num nc user request transport t w c bus (x ∷ p) own q (λ n. cc)))

  -- The events of a run that begins with chunks in its window and ends with a flush.
  abbrev Accounted : Coalescer num → Bus → List Float → List Call → Readings → Type 0
  Accounted c bus p calls t =
      (events : List (ℤ × Event num)) × (groups : List (List Float)) × ((run_calls num nc
          (calls ++ flushes t ∷ []) c bus).1
        ≡ publish_all num nc events bus)
      × (concat groups ≡ p ++ billable num calls)
      × Numbered num user request transport c.seq groups events

  regroup :
      (p : List Float) (x : Call) (calls : List Call)
      → (p ++ billable num (x ∷ [])) ++ billable num calls ≡ p ++ billable num (x ∷ calls)
  regroup p x calls = rw (billable-cons num x calls) (append_assoc p _ _)

  run_calls-Accounted :
      (calls : List Call) (t : Readings) (c : Coalescer num) (bus : Bus) (p : List Float)
      → IsOwned num nc user request transport c
      → Pending num nc user request transport c p
      → All (IsBillable num) p
      → Accounted c bus p calls t
  unfolding run_calls billable publish_all
  run_calls-Accounted [] t c bus p own pending h = elim (final_flush t c bus p own pending h) [
    | inl (same, none_left) ↦ ([], [], same, rw none_left, tt)
    | inr (now, e, sent, _, about, _, _) ↦ ((now, e) ∷ [], p ∷ [], sent, refl, (about, tt))
  ]
  run_calls-Accounted (x ∷ calls) t c bus p own pending h =
      elim (call_lem num nc user request transport x c bus p own pending laws.zero_le) [
        | inl (same, seq, pending', own') ↦
            let (events, groups, b, g, k) =
              run_calls-Accounted calls t (call num nc x c bus).1 (call num nc x c bus).2
                (p ++ billable num (x ∷ [])) own' pending'
                (All-append _ p _ h (news-IsBillable num x)) in
            (
              events,
              groups,
              b ∙ ap (publish_all num nc events) same,
              g ∙ regroup p x calls,
              subst (λ n. Numbered num user request transport n groups events) seq k,
            )
        | inr (now, e, sent, seq, about, pending', own') ↦
            let (events, groups, b, g, k) =
              run_calls-Accounted calls t (call num nc x c bus).1 (call num nc x c bus).2 [] own'
                pending' tt in
            (
              (now, e) ∷ events,
              (p ++ billable num (x ∷ [])) ∷ groups,
              b ∙ ap (publish_all num nc events) sent,
              ap (λ r. (p ++ billable num (x ∷ [])) ++ r) g ∙ regroup p x calls,
              (about, subst (λ n. Numbered num user request transport n groups events) seq k),
            )
      ]

-- Hand any calls with a final flush to a fresh coalescer, on a connection that may fail. The
-- publisher is handed events, in order, and the seconds of all chunks that count, in order, are
-- split among them: each event carries the sum of a group of at least one chunk, and no chunk is in
-- two groups or in none. The event with number k of the request has the key "request:k", from 1 on,
-- and the request's user, id and transport.
pub run_calls-windows :
    (num : Numbers) (laws : AddLaws num) (nc : Nats num) (user request transport : Bytes)
    (interval : ℤ) (calls : List Call) (last : Readings) (bus : nc.Bus)
    → (events : List (ℤ × Event num)) × (groups : List (List num.Float)) × ((run_calls num nc
          (calls ++ flushes last ∷ [])
          (new_coalescer num user request transport interval)
          bus).1
        ≡ publish_all num nc events bus)
      × (concat groups ≡ billable num calls)
      × Numbered num user request transport 0 groups events
unfolding new_coalescer
run_calls-windows num laws nc user request transport interval calls last bus =
    run_calls-Accounted num laws nc user request transport calls last
      (new_coalescer num user request transport interval) bus [] (refl, refl, refl)
      (inl (refl, refl)) tt
