-- ===== src/Metering/Refines.antt =====
-- The consumer refines the ledger: whatever fails, a run posts the batches of the ledger, each as a whole
-- or not at all.
use tts_platform.Common.{
  ◌+◌, ◌≡◌, refl, sym, ap, ap₂, subst, ◌∙◌, inl, inr, none, some, List, [], ◌∷◌, ◌++◌, map-append,
  All-append, Bytes, arith, Bool-cases, Option-cases,
}
use tts_platform.Common.Dict.{lookup}
use tts_platform.Common.Results.{Error, err, Result-cases}
use tts_platform.Numbers.{Numbers, zero_float}
use tts_platform.Postgres.{exec-cases, WalletRow}
use tts_platform.Valkey.{Valkey}
use tts_platform.Billing.Event.{Event}
use tts_platform.Metering.Consumer.{
  Codec, World, Consumer, insert_usage, update_wallets, charge_events, settle, first_request,
  debit_user, flush_user, flush_batch, flush, on_message, pending_of, Happening, message, tick,
  step, run,
}
use tts_platform.Metering.Keeps.{charge_events-keeps}
use tts_platform.Metering.Debit.{debit_user-Debited}
use tts_platform.Metering.Ledger.{
  Ledger, Batch, Fate, Posting, IsPriced, errors_of, processed_of, post, post_all, take_in, gather,
  waiting,
}

module _ (num : Numbers) (vk : Valkey) (codec : Codec num) (ppm : num.Float) where
  charge_events-wallets :
      (user : Bytes) (es : List (Event num)) (total : num.Float) (w : World num vk codec ppm)
      → (charge_events num vk codec ppm user es total w).1.db.tables.wallets ≡ w.db.tables.wallets
  unfolding insert_usage
  charge_events-wallets user es total w =
      charge_events-keeps num vk codec ppm (λ t. t.wallets ≡ w.db.tables.wallets)
        (λ row t h. ground arith) user es total w refl

  -- A debit of the wallet that fails leaves every wallet as it was.
  settle-err :
      (user reference : Bytes) (total : num.Float) (w : World num vk codec ppm) (x : Error)
      → (settle num vk codec ppm user reference total w).0 ≡ err x
      → (settle num vk codec ppm user reference total w).1.db.tables.wallets ≡ w.db.tables.wallets
  unfolding settle update_wallets
  settle-err user reference total w x h =
      ground (arith, exec-cases (update_wallets num user total) w.db)

  debit_user-err :
      (user : Bytes) (es : List (Event num)) (w : World num vk codec ppm) (x : Error)
      → (debit_user num vk codec ppm user es w).0 ≡ err x
      → (debit_user num vk codec ppm user es w).1.db.tables.wallets ≡ w.db.tables.wallets
  unfolding debit_user
  debit_user-err user es w x h =
      let same = charge_events-wallets user es (zero_float num) w in
      let w' = (charge_events num vk codec ppm user es (zero_float num) w).1 in
      elim (Result-cases (charge_events num vk codec ppm user es (zero_float num) w).0) [
        | inl (total, q) ↦ elim (Bool-cases (num.le total (zero_float num))) [
          | inl nothing ↦ absurd (cc (rw (q, debit_user, nothing) at h))
          | inr due ↦
              rw (q, debit_user, due)
                (settle-err user (first_request num vk codec ppm es) total w' x
                    (rw (q, debit_user, due) at h)
                  ∙ same)
        ]
        | inr (y, q) ↦ rw (q, debit_user) same
      ]

  -- What the flush of one user's batch posts, and what it counts
  abbrev Posts : Posting num → Consumer num vk codec ppm → Consumer num vk codec ppm → Type 0
  Posts p c c' =
      (c'.world.db.tables.wallets ≡ post num vk codec ppm p c.world.db.tables.wallets)
      × (c'.debit_errors ≡ c.debit_errors + errors_of num (p ∷ []))
      × (c'.events_processed ≡ c.events_processed + processed_of num (p ∷ []))
      × (c'.pending ≡ c.pending)

  flush_user-Posts :
      (b : Batch num) (c : Consumer num vk codec ppm)
      → (f : Fate num) × IsPriced num (b, f) × Posts (b, f) c (flush_user num vk codec ppm b c)
  unfolding flush_user post
  flush_user-Posts (user, es) c =
      elim (Result-cases (debit_user num vk codec ppm user es c.world).0) [
        | inl (tt, q) ↦
            let (prices, len, _, (usage, wallets)) =
              debit_user-Debited num vk codec ppm user es c.world q in
            (some prices, len, rw (q, flush_user) (wallets, ground arith, ground arith, refl))
        | inr (x, q) ↦ (
          none,
          tt,
          rw (q, flush_user) (debit_user-err user es c.world x q, ground arith, ground arith, refl),
        )
      ]

module _ (num : Numbers) where
  errors_of-append :
      (ps qs : List (Posting num)) → errors_of num (ps ++ qs) ≡ errors_of num ps + errors_of num qs
  errors_of-append [] qs = omega arith
  errors_of-append ((b, none) ∷ ps) qs = omega (arith, errors_of-append ps qs)
  errors_of-append ((b, some prices) ∷ ps) qs = errors_of-append ps qs

  processed_of-append :
      (ps qs : List (Posting num))
      → processed_of num (ps ++ qs) ≡ processed_of num ps + processed_of num qs
  processed_of-append [] qs = omega arith
  processed_of-append ((b, none) ∷ ps) qs = processed_of-append ps qs
  processed_of-append ((b, some prices) ∷ ps) qs = omega (arith, processed_of-append ps qs)

  Ledger-append :
      (bs cs : List (Batch num)) (ps qs : List (Posting num))
      → Ledger num bs ps
      → Ledger num cs qs
      → Ledger num (bs ++ cs) (ps ++ qs)
  Ledger-append bs cs ps qs (batches, all) (batches', all') = (
    map-append (λ (p : Posting num). p.0) ps qs
        ∙ ap₂ (λ (l k : List (Batch num)). l ++ k) batches batches',
    All-append (IsPriced num) ps qs all all',
  )

module _ (num : Numbers) (vk : Valkey) (codec : Codec num) (ppm : num.Float) where
  post_all-append :
      (ps qs : List (Posting num)) (ws : List (WalletRow num))
      → post_all num vk codec ppm (ps ++ qs) ws
        ≡ post_all num vk codec ppm qs (post_all num vk codec ppm ps ws)
  post_all-append [] qs ws = refl
  post_all-append (p ∷ ps) qs ws = post_all-append ps qs (post num vk codec ppm p ws)

module _ (num : Numbers) (vk : Valkey) (codec : Codec num) (ppm : num.Float) where
  -- The run of a consumer from one state to another has posted these batches.
  abbrev pub HasPosted :
      List (Posting num) → Consumer num vk codec ppm → Consumer num vk codec ppm → Type 0
  HasPosted ps c c' =
      (c'.world.db.tables.wallets ≡ post_all num vk codec ppm ps c.world.db.tables.wallets)
      × (c'.debit_errors ≡ c.debit_errors + errors_of num ps)
      × (c'.events_processed ≡ c.events_processed + processed_of num ps)

  HasPosted-cons :
      (p : Posting num) (ps : List (Posting num)) (c c' c'' : Consumer num vk codec ppm)
      → Posts num vk codec ppm p c c'
      → HasPosted ps c' c''
      → HasPosted (p ∷ ps) c c''
  HasPosted-cons ((u, es), none) ps c c' c'' (ws, errors, done, _) (ws', errors', done') =
      (ws' ∙ ap (post_all num vk codec ppm ps) ws, omega arith, omega arith)
  HasPosted-cons ((u, es), some prices) ps c c' c'' (ws, errors, done, _) (ws', errors', done') =
      (ws' ∙ ap (post_all num vk codec ppm ps) ws, omega arith, omega arith)

  HasPosted-append :
      (ps qs : List (Posting num)) (c c' c'' : Consumer num vk codec ppm)
      → HasPosted ps c c'
      → HasPosted qs c' c''
      → HasPosted (ps ++ qs) c c''
  HasPosted-append ps qs c c' c'' (ws, errors, done) (ws', errors', done') = (
    ws' ∙ ap (post_all num vk codec ppm qs) ws ∙ sym (post_all-append num vk codec ppm ps qs _),
    omega (arith, errors_of-append num ps qs),
    omega (arith, processed_of-append num ps qs),
  )

  flush_batch-HasPosted :
      (bs : List (Batch num)) (c : Consumer num vk codec ppm)
      → (ps : List (Posting num)) × Ledger num bs ps
        × HasPosted ps c (flush_batch num vk codec ppm bs c)
        × ((flush_batch num vk codec ppm bs c).pending ≡ c.pending)
  unfolding flush_batch
  flush_batch-HasPosted [] c = ([], (refl, tt), (refl, omega arith, omega arith), refl)
  flush_batch-HasPosted (b ∷ bs) c =
      let (f, priced, posts) = flush_user-Posts num vk codec ppm b c in
      let c' = flush_user num vk codec ppm b c in
      let (ps, (batches, all), posted, kept) = flush_batch-HasPosted bs c' in
      (
        (b, f) ∷ ps,
        (ap (λ l. b ∷ l) batches, (priced, all)),
        HasPosted-cons (b, f) ps c c' (flush_batch num vk codec ppm bs c') posts posted,
        kept ∙ posts.3,
      )

  pub on_message-take_in :
      (msg : Bytes) (c : Consumer num vk codec ppm)
      → on_message num vk codec ppm msg c
        ≡ record c { pending = take_in num (codec.unmarshal_event msg) c.pending }
  unfolding on_message pending_of
  on_message-take_in msg c = elim (Option-cases (codec.unmarshal_event msg)) [
    | inl bad ↦ rw (bad, on_message)
    | inr (e, good) ↦ elim (Option-cases (lookup e.user_id c.pending)) [
      | inl new ↦ rw (good, on_message, pending_of, new)
      | inr (es, old) ↦ rw (good, on_message, pending_of, old)
    ]
  ]

-- Whatever the messages, the database and the cache do, a run posts a ledger. Its batches are those that the
-- messages alone call for, in order; each is charged at one price for each of its events, or not at all. The
-- wallets at the end are those at the start with the postings applied one by one; one error is counted for
-- each batch that was not charged, and the events of each of the others are counted as processed. What still
-- waits is what the messages after the last tick call for.
pub run-Ledger :
    (num : Numbers) (vk : Valkey) (codec : Codec num) (ppm : num.Float)
    (xs : List (Happening num vk codec ppm)) (c : Consumer num vk codec ppm)
    → (ps : List (Posting num)) × Ledger num (gather num vk codec ppm xs c.pending) ps
      × HasPosted num vk codec ppm ps c (run num vk codec ppm xs c)
      × ((run num vk codec ppm xs c).pending ≡ waiting num vk codec ppm xs c.pending)
unfolding run step flush
run-Ledger num vk codec ppm [] c = ([], (refl, tt), (refl, omega arith, omega arith), refl)
run-Ledger num vk codec ppm (message msg ∷ xs) c =
    let c' : Consumer num vk codec ppm = record c {
      pending = take_in num (codec.unmarshal_event msg) c.pending;
    } in
    subst
      (λ d.
        (ps : List (Posting num)) × Ledger num (gather num vk codec ppm xs c'.pending) ps
        × HasPosted num vk codec ppm ps c (run num vk codec ppm xs d)
        × ((run num vk codec ppm xs d).pending ≡ waiting num vk codec ppm xs c'.pending))
      (sym (on_message-take_in num vk codec ppm msg c)) (run-Ledger num vk codec ppm xs c')
run-Ledger num vk codec ppm (tick ∷ xs) c =
    let c' = flush num vk codec ppm c in
    let (ps, ledger, posted, empty) =
      flush_batch-HasPosted num vk codec ppm c.pending (record c { pending = [] }) in
    let (qs, ledger', posted', left) = run-Ledger num vk codec ppm xs c' in
    (
      ps ++ qs,
      Ledger-append num c.pending (gather num vk codec ppm xs []) ps qs ledger
          (subst (λ p. Ledger num (gather num vk codec ppm xs p) qs) empty ledger'),
      HasPosted-append num vk codec ppm ps qs c c' (run num vk codec ppm xs c') posted posted',
      left ∙ ap (waiting num vk codec ppm xs) empty,
    )
