-- ===== src/Speech/Stream.antt =====
-- `StreamTTS` of api/internal/handler/server.go, from the stream's first chunk on: each chunk is paid
-- from the budget, written to the client and billed, and from time to time the budget is read anew.
use tts_platform.Common.{
  ℕ, suc, ◌≡◌, refl, sym, ap, ◌∙◌, ◌⊎◌, inl, inr, Bool, Option, none, some, List, [], ◌∷◌, ◌++◌,
  map, append-nil, append_assoc, Bytes, length, take, Bool-cases, Option-cases, if◌then◌else◌,
}
use tts_platform.Common.Int.{ℤ, ◌-ℤ◌, leb_ℤ}
use tts_platform.Common.Results.{Error, Result, ok, err}
use tts_platform.Numbers.{Numbers, zero_float}
use tts_platform.Valkey.{Valkey}
use tts_platform.Billing.Event.{Nats}
use tts_platform.Billing.Coalescer.{Coalescer, add_pcm}
use tts_platform.Billing.Calls.{Call, adds, call, run_calls}
use tts_platform.Wallet.Cache.{WalletSnapshot, Codec, Group, World, refresh}
use tts_platform.Speech.Admission.{observe_wallet}
use tts_platform.Speech.Feed.{received, copy_audio_stream, copy-received_err, copy-received_ok}
use tts_platform.Speech.Job.{Chunk, insufficient_balance, chunk_seconds, chunk_cost}

-- A chunk, with the error of writing it to the client and the two readings of the clock around the
-- refresh of the budget.
pub record Moment : Type 0 where
  pub chunk : Chunk
  pub write : Option Error
  pub now : ℤ
  pub refreshed : ℤ

abbrev pub bill : Moment → Call
bill m = adds m.chunk.readings (length m.chunk.pcm) m.chunk.sample_rate

module _ (num : Numbers) (nc : Nats num) (vk : Valkey) (group : Group) (codec : Codec num)
    (def_ppm : num.Float) (per_user : Bool) where
  open num use {Float, add, sub, le}
  open nc use {Bus}

  -- The variables that the callback shares with the function around it. `sent` is what the client has
  -- been sent.
  pub record Delivery : Type 0 where
    pub budget : Float
    pub snap : WalletSnapshot num
    pub audio_seconds : Float
    pub sent : List Bytes
    pub coal : Coalescer num
    pub bus : Bus
    pub last_refresh : ℤ
    pub wallets : World num vk group

  -- `snap, _ = s.Wallets.Refresh(…)`: with an error the snapshot is zero.
  unfoldable pub snap_or_zero : Result (WalletSnapshot num) → WalletSnapshot num
  snap_or_zero (ok snap) = snap
  snap_or_zero (err e) = record {
    balance_usd = zero_float num;
    price_per_audio_minute_usd = zero_float num;
  }

  unfoldable pub refreshed_budget : Bytes → ℤ → Moment → Delivery → Delivery
  unfolding snap_or_zero
  refreshed_budget user interval m d =
      let (r, w') = refresh num vk group codec def_ppm user d.wallets in
      if leb_ℤ interval (m.now -ℤ d.last_refresh)
      then record d {
        snap = snap_or_zero r;
        budget = (snap_or_zero r).balance_usd;
        last_refresh = m.refreshed;
        wallets = observe_wallet num vk group codec def_ppm per_user user w';
      }
      else d

  -- A chunk that is written is billed.
  unfoldable pub deliver : Moment → Delivery → Delivery
  deliver m d =
      let (_, coal', bus') =
        add_pcm num nc m.chunk.readings (length m.chunk.pcm) m.chunk.sample_rate d.coal d.bus in
      record d { sent = d.sent ++ m.chunk.pcm ∷ []; coal = coal'; bus = bus' }

  unfoldable pub pay : Moment → Delivery → Delivery
  pay m d = record d {
    budget = sub d.budget (chunk_cost num d.snap.price_per_audio_minute_usd m.chunk);
  }

  unfoldable pub count : Moment → Delivery → Delivery
  count m d = record d { audio_seconds = add d.audio_seconds (chunk_seconds num m.chunk) }

  unfoldable pub on_chunk : Bytes → ℤ → Moment → Delivery → Result (Unit {0}) × Delivery
  unfolding refreshed_budget deliver pay count
  on_chunk user interval m d =
      let d' = pay m d in
      if le d'.budget (zero_float num) then (err insufficient_balance, d') else (elim m.write [
        | some e ↦ (err e, count m d')
        | none ↦ (ok tt, refreshed_budget user interval m (deliver m (count m d')))
      ])

  -- What has been sent and billed since a state, in terms of the chunks
  abbrev pub Sent : List Moment → Delivery → Delivery → Type 0
  Sent ms p q =
      (q.sent ≡ p.sent ++ map (λ m. m.chunk.pcm) ms)
      × ((q.coal, q.bus) ≡ run_calls num nc (map bill ms) p.coal p.bus)

  pub on_chunk-cases :
      (user : Bytes) (interval : ℤ) (m : Moment) (d : Delivery)
      → ((e : Error) × (q : Delivery) × (on_chunk user interval m d ≡ (err e, q)) × Sent [] d q)
        ⊎ ((q : Delivery) × (on_chunk user interval m d ≡ (ok tt, q)) × Sent (m ∷ []) d q)
  unfolding on_chunk refreshed_budget deliver pay count run_calls call
  on_chunk-cases user interval m d =
      elim (Bool-cases (
        le (sub d.budget (chunk_cost num d.snap.price_per_audio_minute_usd m.chunk))
          (zero_float num))) [
            | inl poor ↦ inl (
              insufficient_balance,
              pay m d,
              rw (on_chunk, poor) refl,
              (sym (append-nil d.sent), refl),
            )
            | inr rich ↦ elim (Option-cases m.write) [
              | inl sent ↦ elim (Bool-cases (leb_ℤ interval (m.now -ℤ d.last_refresh))) [
                | inl due ↦ inr (
                  (on_chunk user interval m d).1,
                  rw (on_chunk, rich, sent) refl,
                  rw (on_chunk, rich, sent, due) (refl, refl),
                )
                | inr early ↦ inr (
                  (on_chunk user interval m d).1,
                  rw (on_chunk, rich, sent) refl,
                  rw (on_chunk, rich, sent, early) (refl, refl),
                )
              ]
              | inr (e, gone) ↦ inl (
                e,
                count m (pay m d),
                rw (on_chunk, rich, gone) refl,
                (sym (append-nil d.sent), refl),
              )
            ]
          ]

  copy_none :
      (user : Bytes) (interval : ℤ) (p : Delivery)
      → Sent [] p (copy_audio_stream (on_chunk user interval) (map received []) p).1
  unfolding copy_audio_stream run_calls
  copy_none user interval p = (sym (append-nil p.sent), refl)

  -- A stream of any chunks, any of which the client may fail to take, with refreshes of the budget that
  -- may fail: what has been sent and what has been handed to the coalescer are the same chunks, the
  -- first so many of the stream. If the loop ends without an error, these are all.
  pub copy_audio_stream-Sent :
      (user : Bytes) (interval : ℤ) (ms : List Moment) (p : Delivery)
      → let (r, q) = copy_audio_stream (on_chunk user interval) (map received ms) p in
        (n : ℕ) × Sent (take n ms) p q × ((n ≡ length ms) ⊎ ((e : Error) × (r ≡ err e)))
  unfolding run_calls call
  copy_audio_stream-Sent user interval [] p = (0, copy_none user interval p, inl refl)
  copy_audio_stream-Sent user interval (m ∷ ms) p = elim (on_chunk-cases user interval m p) [
    | inl (e, q, stopped, same) ↦
        rw (copy-received_err (on_chunk user interval) m (map received ms) p q e stopped)
          (0, same, inr (e, refl))
    | inr (q, went_on, (sent, billed)) ↦
        let (n, (sent', billed'), end) = copy_audio_stream-Sent user interval ms q in
        rw (copy-received_ok (on_chunk user interval) m (map received ms) p q went_on) (
          suc n,
          (
            sent'
                ∙ ap (λ s. s ++ map (λ m. m.chunk.pcm) (take n ms)) sent
                ∙ append_assoc p.sent (m.chunk.pcm ∷ []) (map (λ m. m.chunk.pcm) (take n ms)),
            billed' ∙ ap (λ s. run_calls num nc (map bill (take n ms)) s.0 s.1) billed,
          ),
          elim end [ inl e ↦ inl (ap suc e) | inr x ↦ inr x ],
        )
  ]
