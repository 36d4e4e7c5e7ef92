-- ===== src/Billing/Keys.antt =====
-- The idempotency keys of a request's events.
use tts_platform.Common.{
  ℕ, suc, ◌≤◌, ◌≡◌, ◌≢◌, refl, sym, ◌∙◌, List, [], ◌∷◌, ◌++◌, Bytes, codes, length, All, arith,
}
use tts_platform.Common.Decimal.{itoa, itoa-injective}
use tts_platform.Common.Int.{ℤ}
use tts_platform.Numbers.{Numbers, AddLaws}
use tts_platform.Billing.Event.{Event, Nats}
use tts_platform.Billing.Coalescer.{Readings, new_coalescer, idempotency_key}
use tts_platform.Billing.Calls.{Call, flushes, run_calls, publish_all, Numbered}
use tts_platform.Billing.Windows.{run_calls-windows}

append_cancel : (r s x y : Bytes) → length r ≡ length s → r ++ x ≡ s ++ y → (r ≡ s) × (x ≡ y)
append_cancel [] [] x y h e = (refl, e)
append_cancel [] (b ∷ s) x y h e = absurd (omega arith)
append_cancel (a ∷ r) [] x y h e = absurd (omega arith)
append_cancel (a ∷ r) (b ∷ s) x y h e = ground (arith, append_cancel r s x y)

-- Keys of equal length requests (all are UUIDs) are equal only if request and number are.
pub idempotency_key-injective :
    (num : Numbers) (r s : Bytes) (m n : ℕ)
    → length r ≡ length s
    → idempotency_key num r m ≡ idempotency_key num s n
    → (r ≡ s) × (m ≡ n)
unfolding idempotency_key
idempotency_key-injective num r s m n h e =
    let (q, t) = append_cancel r s (codes ":" ++ itoa m) (codes ":" ++ itoa n) h e in
    (q, itoa-injective (cc t))

abbrev pub Distinct : List Bytes → Type 0
Distinct [] = Unit {0}
Distinct (k ∷ ks) = All (λ j. j ≢ k) ks × Distinct ks

module _ (num : Numbers) (user request transport : Bytes) where
  abbrev pub keys : List (ℤ × Event num) → List Bytes
  keys [] = []
  keys ((now, e) ∷ es) = e.idempotency_key ∷ keys es

  keys_above :
      (m seq : ℕ) (groups : List (List num.Float)) (events : List (ℤ × Event num))
      → m ≤ seq
      → Numbered num user request transport seq groups events
      → All (λ j. j ≢ idempotency_key num request m) (keys events)
  keys_above m seq [] [] h k = tt
  keys_above m seq [] (e ∷ es) h k = absurd k
  keys_above m seq (g ∷ gs) [] h k = absurd k
  keys_above m seq (g ∷ gs) ((now, e) ∷ es) h (about, k) =
      (λ same. absurd (clash same), keys_above m (suc seq) gs es (omega arith) k)
    where
      clash : e.idempotency_key ≡ idempotency_key num request m → ⊥
      clash same =
          let (_, n) =
            idempotency_key-injective num request request (suc seq) m refl (sym about.0 ∙ same) in
          omega (arith, n)

  Numbered-Distinct :
      (seq : ℕ) (groups : List (List num.Float)) (events : List (ℤ × Event num))
      → Numbered num user request transport seq groups events
      → Distinct (keys events)
  Numbered-Distinct seq [] [] k = tt
  Numbered-Distinct seq [] (e ∷ es) k = absurd k
  Numbered-Distinct seq (g ∷ gs) [] k = absurd k
  Numbered-Distinct seq (g ∷ gs) ((now, e) ∷ es) (about, k) = (
    rw about.0 (keys_above (suc seq) (suc seq) gs es (omega arith) k),
    Numbered-Distinct (suc seq) gs es k,
  )

-- However a request calls its coalescer, the events that it hands to the publisher up to its final
-- flush have pairwise different idempotency keys.
pub run_calls-Distinct :
    (num : Numbers) (laws : AddLaws num) (nc : Nats num) (user request transport : Bytes)
    (interval : ℤ) (calls : List Call) (last : Readings) (bus : nc.Bus)
    → (events : List (ℤ × Event num)) × ((run_calls num nc
          (calls ++ flushes last ∷ [])
          (new_coalescer num user request transport interval)
          bus).1
        ≡ publish_all num nc events bus)
      × Distinct (keys num user request transport events)
run_calls-Distinct num laws nc user request transport interval calls last bus =
    let (events, groups, sent, _, k) =
      run_calls-windows num laws nc user request transport interval calls last bus in
    (events, sent, Numbered-Distinct num user request transport 0 groups events k)
