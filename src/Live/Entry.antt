-- ===== src/Live/Entry.antt =====
-- `LiveHandler.ServeHTTP` of api/internal/ws/live.go up to its two loops, and what it defers.
use tts_platform.Common.{
  ℕ, ◌≡◌, refl, ap, ◌∙◌, inl, inr, Bool, true, false, Option, none, some, [], ◌∷◌, List, Bytes,
  codes, arith, Option-cases, if◌then◌else◌,
}
use tts_platform.Common.Int.{ℤ}
use tts_platform.Common.Results.{Error, ok, err, Result-cases}
use tts_platform.Numbers.{Numbers, zero_float}
use tts_platform.Valkey.{Valkey}
use tts_platform.Billing.Event.{Nats}
use tts_platform.Wallet.Cache.{WalletSnapshot, Codec, Group, World, has_balance}
use tts_platform.Synth.Limiter.{Limiter, acquire, release}
use tts_platform.Synth.Slots.{acquire-release, acquire-refused}
use tts_platform.Speech.Job.{message}
use tts_platform.Speech.Admission.{observe_wallet}
use tts_platform.Live.Wire.{Frame, ready, failed}
use tts_platform.Live.Session.{Session, open_session}

module _ (num : Numbers) (nc : Nats num) (vk : Valkey) (group : Group) where
  -- What becomes of a request: an HTTP error, a failed upgrade, an open socket without a stream, or a
  -- session.
  pub data Entry : Type 0 where
    turned_away : ℕ → Bytes → Entry
    not_upgraded : Entry
    broken_off : List (Frame num) → Entry
    opened : Session num nc vk group → Entry

  -- The entry, the wallets and the limiter; a call that would block has no outcome.
  abbrev pub Outcome : Type 0
  Outcome = Option (Entry × World num vk group × Option Limiter)

  -- What else a request meets: which of two ready cases `select` takes, the end of its context, the
  -- errors of `Upgrade` and `SynthesizeLive`, its new id and the time.
  pub record Meets : Type 0 where
    pub pick : Bool
    pub ended : Option Error
    pub upgrade : Option Error
    pub stream : Option Error
    pub request : Bytes
    pub now : ℤ

  -- A return past the `defer` of `Release`
  unfoldable pub give_back : Entry → World num vk group → Option Limiter → Outcome
  give_back e w l = elim (release l) [ none ↦ none | some l' ↦ some (e, w, l') ]

  -- Past the limiter
  unfoldable pub upgraded :
      Bytes
      → Meets
      → ℤ
      → WalletSnapshot num
      → nc.Bus
      → World num vk group
      → Option Limiter
      → Outcome
  unfolding give_back
  upgraded user m interval snap bus w l = elim m.upgrade [
    | some e ↦ give_back not_upgraded w l
    | none ↦ elim m.stream [
      | some e ↦ give_back (broken_off (ready ∷ failed (message e) ∷ [])) w l
      | none ↦
          some
            (opened (open_session num nc vk group user m.request interval m.now snap bus w), w, l)
    ]
  ]

  -- With a balance: `Acquire`, if there is a limiter
  unfoldable pub with_balance :
      Bytes
      → Meets
      → ℤ
      → WalletSnapshot num
      → nc.Bus
      → World num vk group
      → Option Limiter
      → Outcome
  unfolding upgraded
  with_balance user m interval snap bus w l = elim (acquire m.pick m.ended l) [
    | none ↦ none
    | some (err e, l') ↦ some (turned_away 503 (codes "synthesis capacity exceeded"), w, l')
    | some (ok _, l') ↦ upgraded user m interval snap bus w l'
  ]

  module _ (codec : Codec num) (def_ppm : num.Float) (per_user : Bool) where
    unfoldable pub serve_live :
        Option Bytes → Meets → ℤ → nc.Bus → World num vk group → Option Limiter → Outcome
    unfolding with_balance
    serve_live none m interval bus w l = some (turned_away 401 (codes "unauthorized"), w, l)
    serve_live (some user) m interval bus w l =
        let (r, w') = has_balance num vk group codec def_ppm user w in
        elim r [
          | err e ↦ some (turned_away 402 (codes "insufficient balance"), w', l)
          | ok (enough, snap) ↦
              if enough
              then with_balance user m interval snap bus
                  (observe_wallet num vk group codec def_ppm per_user user w') l
              else some (turned_away 402 (codes "insufficient balance"), w', l)
        ]

  -- The limiter once the handler has returned: a session returns its slot when it ends.
  abbrev pub left_by : Entry → Option Limiter → Option (Option Limiter)
  left_by (opened s) l = release l
  left_by _ l = some l

  -- A session has a budget, of what the wallet held, and has sent `ready` alone.
  abbrev pub IsFunded : Entry → Type 0
  IsFunded (opened s) = (num.lt (zero_float num) s.budget ≡ true) × (s.frames ≡ ready ∷ [])
  IsFunded _ = Unit {0}

  -- An outcome that gives back this limiter, and is funded
  abbrev pub Leaves : Option Limiter → Outcome → Type 0
  Leaves l none = Unit {0}
  Leaves l (some (e, w, l')) = (left_by e l' ≡ some l) × IsFunded e

  give_back-Leaves :
      (e : Entry) (w : World num vk group) (k l : Option Limiter)
      → release k ≡ some l
      → (left_by e l ≡ some l) × IsFunded e
      → Leaves l (give_back e w k)
  unfolding give_back
  give_back-Leaves e w k l slot p = rw (slot, give_back) p

  upgraded-Leaves :
      (user : Bytes) (m : Meets) (interval : ℤ) (snap : WalletSnapshot num) (bus : nc.Bus)
      (w : World num vk group) (k l : Option Limiter)
      → num.lt (zero_float num) snap.balance_usd ≡ true
      → release k ≡ some l
      → Leaves l (upgraded user m interval snap bus w k)
  unfolding upgraded open_session
  upgraded-Leaves user m interval snap bus w k l funded slot = elim (Option-cases m.upgrade) [
    | inr (u, bad) ↦ rw (bad, upgraded) (give_back-Leaves not_upgraded w k l slot (refl, tt))
    | inl fine ↦ elim (Option-cases m.stream) [
      | inr (u, bad) ↦
          rw (fine, bad, upgraded)
            (give_back-Leaves (broken_off (ready ∷ failed (message u) ∷ [])) w k l slot (refl, tt))
      | inl fine' ↦ rw (fine, fine', upgraded) (slot, (funded, refl))
    ]
  ]

  with_balance-Leaves :
      (user : Bytes) (m : Meets) (interval : ℤ) (snap : WalletSnapshot num) (bus : nc.Bus)
      (w : World num vk group) (l : Option Limiter)
      → num.lt (zero_float num) snap.balance_usd ≡ true
      → Leaves l (with_balance user m interval snap bus w l)
  unfolding with_balance acquire release
  with_balance-Leaves user m interval snap bus w none funded =
      upgraded-Leaves user m interval snap bus w none none funded refl
  with_balance-Leaves user m interval snap bus w (some l) funded =
      elim (Option-cases (acquire m.pick m.ended (some l))) [
        | inl blocked ↦ rw (blocked, with_balance) tt
        | inr ((r, k), found) ↦ elim (Result-cases r) [
          | inl (u, fine) ↦
              rw (found, fine, with_balance)
                (upgraded-Leaves user m interval snap bus w k (some l) funded
                  (acquire-release m.pick m.ended l k (found ∙ rw fine refl)))
          | inr (e, bad) ↦
              rw (found, bad, with_balance)
                (ap (λ o. some o) (acquire-refused m.pick m.ended e l k (found ∙ rw bad refl)), tt)
        ]
      ]

  module _ (codec : Codec num) (def_ppm : num.Float) (per_user : Bool) where
    -- Whatever a request for a live socket meets, unless it waits for a slot for ever: the limiter that
    -- it leaves when it returns, with a session at the end of the session, is the one that it found;
    -- and a session begins with a budget above zero, and with `ready` sent and nothing else.
    pub serve_live-Leaves :
        (u : Option Bytes) (m : Meets) (interval : ℤ) (bus : nc.Bus) (w : World num vk group)
        (l : Option Limiter)
        → Leaves l (serve_live codec def_ppm per_user u m interval bus w l)
    unfolding serve_live has_balance
    serve_live-Leaves none m interval bus w l = (refl, tt)
    serve_live-Leaves (some user) m interval bus w l =
        elim (Result-cases (has_balance num vk group codec def_ppm user w).0) [
          | inr (e, bad) ↦ rw (bad, serve_live) (refl, tt)
          | inl ((true, snap), found) ↦
              rw (found, serve_live)
                (with_balance-Leaves user m interval snap bus _ l (ground arith))
          | inl ((false, snap), found) ↦ rw (found, serve_live) (refl, tt)
        ]
