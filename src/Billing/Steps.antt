-- ===== src/Billing/Steps.antt =====
-- One call of a coalescer, seen from the chunks that wait in its open window.
use tts_platform.Common.{
  suc, ◌≡◌, refl, sym, ap, ◌∙◌, ◌≢◌, ◌⊎◌, inl, inr, true, none, some, List, [], ◌∷◌, ◌++◌, foldl,
  append-nil, Bytes, Bool-cases,
}
use tts_platform.Common.Dict.{lookup, insert, lookup-insert_self}
use tts_platform.Common.Int.{ℤ, ◌-ℤ◌, leb_ℤ}
use tts_platform.Numbers.{Numbers, zero_float}
use tts_platform.Billing.Event.{Event, Nats, publish, seconds_from_pcm, new_event}
use tts_platform.Billing.Coalescer.{
  Window, Coalescer, Readings, idempotency_key, window_event, Outcome, flush_locked, open_window,
  add_seconds, add_pcm, flush,
}
use tts_platform.Billing.Calls.{Call, adds, flushes, total, billable, call, Describes}

foldl-concat {ℓ κ} :
    {A : Type ℓ} {B : Type κ} (f : A → B → A) (a : A) (xs : List B) (x : B)
    → foldl f a (xs ++ x ∷ []) ≡ f (foldl f a xs) x
foldl-concat f a [] x = refl
foldl-concat f a (y ∷ xs) x = foldl-concat f (f a y) xs x

concat-ne-nil {ℓ} : {A : Type ℓ} (xs : List A) (x : A) → xs ++ x ∷ [] ≢ []
concat-ne-nil [] x e = cc
concat-ne-nil (y ∷ xs) x e = cc

-- One call, seen from the chunks that wait in the open window.
module _ (num : Numbers) (nc : Nats num) (user request transport : Bytes) where
  open num use {Float, le}
  open nc use {Bus}

  abbrev pub IsOwned : Coalescer num → Type 0
  IsOwned c = (c.user_id ≡ user) × (c.request ≡ request) × (c.transport ≡ transport)

  abbrev pub Pending : Coalescer num → List Float → Type 0
  Pending c p =
      ((lookup c.request c.windows ≡ none) × (p ≡ []))
      ⊎ ((w : Window num) × (lookup c.request c.windows ≡ some w) × (w.audio_seconds ≡ total num p))

  abbrev pub Quiet : Coalescer num → Bus → List Float → Outcome num nc → Type 0
  Quiet c bus p (r, c', bus') = (bus' ≡ bus) × (c'.seq ≡ c.seq) × Pending c' p × IsOwned c'

  abbrev pub Sends : Coalescer num → Bus → List Float → Outcome num nc → Type 0
  Sends c bus p (r, c', bus') =
      (now : ℤ) × (e : Event num) × (bus' ≡ (publish num nc now e bus).1)
      × (c'.seq ≡ suc c.seq)
      × Describes num user request transport (suc c.seq) p e
      × Pending c' []
      × IsOwned c'

  pub flush_locked-Sends :
      (t : Readings) (w : Window num) (c : Coalescer num) (bus : Bus) (p : List Float)
      → IsOwned c
      → w.audio_seconds ≡ total num p
      → p ≢ []
      → Sends c bus p (flush_locked num nc t w c bus)
  unfolding flush_locked new_event
  flush_locked-Sends t w c bus p own sum full = (
    t.published,
    window_event num t w c,
    refl,
    refl,
    (ap (λ r. idempotency_key num r (suc c.seq)) own.1, own.0, own.1, own.2, sum, full),
    inr (
      record { audio_seconds = zero_float num; last_flush = t.flushed },
      lookup-insert_self c.request _ c.windows,
      refl,
    ),
    own,
  )

  open_window-total :
      (t : Readings) (c : Coalescer num) (p : List Float)
      → Pending c p
      → (open_window num nc t c).audio_seconds ≡ total num p
  unfolding open_window
  open_window-total t c p (inl (e, q)) = rw (e, q, open_window)
  open_window-total t c p (inr (w, e, q)) = rw (e, open_window) q

  add_seconds_lem :
      (t : Readings) (sec : Float) (c : Coalescer num) (bus : Bus) (p : List Float)
      → IsOwned c
      → Pending c p
      → (Quiet c bus (p ++ sec ∷ []) (add_seconds num nc t sec c bus)
          ⊎ Sends c bus (p ++ sec ∷ []) (add_seconds num nc t sec c bus))
  unfolding add_seconds
  add_seconds_lem t sec c bus p own pending =
      elim (Bool-cases (leb_ℤ c.interval (t.checked -ℤ (open_window num nc t c).last_flush))) [
        | inl due ↦ rw due (
            inr
              (flush_locked-Sends t grown stored bus (p ++ sec ∷ []) own sum (concat-ne-nil p sec)))
        | inr early ↦
            rw early (
              inl (refl, refl, inr (grown, lookup-insert_self c.request grown c.windows, sum), own))
      ]
    where
      grown : Window num
      grown = record (open_window num nc t c) {
        audio_seconds = num.add (open_window num nc t c).audio_seconds sec;
      }

      stored : Coalescer num
      stored = record c { windows = insert c.request grown c.windows }

      sum : grown.audio_seconds ≡ total num (p ++ sec ∷ [])
      sum =
          ap (λ a. num.add a sec) (open_window-total t c p pending)
          ∙ sym (foldl-concat num.add (zero_float num) p sec)

  -- The chunks of one call that count.
  abbrev pub news : Call → List Float
  news x = billable num (x ∷ [])

  pub call_lem :
      (x : Call) (c : Coalescer num) (bus : Bus) (p : List Float)
      → IsOwned c
      → Pending c p
      → le (zero_float num) (zero_float num) ≡ true
      → (Quiet c bus (p ++ news x) (call num nc x c bus)
          ⊎ Sends c bus (p ++ news x) (call num nc x c bus))
  unfolding call add_pcm flush billable
  call_lem (adds t bytes rate) c bus p own pending z =
      elim (Bool-cases (le (seconds_from_pcm num bytes rate) (zero_float num))) [
        | inl nothing ↦ rw (nothing, append-nil p) (inl (refl, refl, pending, own))
        | inr some_audio ↦
            rw some_audio (add_seconds_lem t (seconds_from_pcm num bytes rate) c bus p own pending)
      ]
  call_lem (flushes t) c bus p own (inl (e, q)) z =
      rw (append-nil p, e, flush) (inl (refl, refl, inl (e, q), own))
  call_lem (flushes t) c bus p own (inr (w, e, q)) z =
      elim (Bool-cases (le w.audio_seconds (zero_float num))) [
        | inl empty ↦ rw (append-nil p, e, flush, empty) (inl (refl, refl, inr (w, e, q), own))
        | inr full ↦
            rw (append-nil p, e, flush, full)
              (inr (flush_locked-Sends t w c bus p own q (λ nil. cc (ap (total num) nil))))
      ]
