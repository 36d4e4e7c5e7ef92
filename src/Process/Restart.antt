-- ===== src/Process/Restart.antt =====
-- What a process that serves has found and made, and what another start changes.
use tts_platform.Common.{
  ◌≡◌, sym, ap, ◌∙◌, subst, inl, inr, true, Option, none, List, [], Bytes, arith, Option-cases, All,
}
use tts_platform.Common.Results.{Error, ok, Result-cases}
use tts_platform.Numbers.{Numbers}
use tts_platform.Postgres.{Tables}
use tts_platform.Auth.Accounts.{Crypto, World}
use tts_platform.Auth.Handlers.{ensure_default_user, ensure_default_user_again}
use tts_platform.Config.Load.{Config}
use tts_platform.Speech.Admission.{Health}
use tts_platform.Process.Dial.{dial}
use tts_platform.Process.Boot.{
  Outside, migrate, connect, steps, first_fatal, Serving, assemble, Boot, fatal, serving, seed,
  boot, migrated,
}
use tts_platform.Process.Seeded.{Has, ensure_default_user-Has}

-- No step failed.
abbrev IsClear : List (Bytes × Option Error) → Type 0
IsClear steps = All (λ s. s.1 ≡ none) steps

-- What the libraries have answered a process that serves
abbrev pub IsReached : {num : Numbers} → Outside num → Config num → Tables num → Type 0
IsReached o cfg t =
    ((migrate o cfg.database_url t).0 ≡ none)
    × (connect o cfg.database_url ≡ none)
    × (o.nats cfg.nats_url ≡ none)
    × (dial o.dial_context cfg.inference_grpc_addr ≡ ok tt)
    × ((h : Health) × (o.health ≡ ok h) × (h.healthy ≡ true))

-- The key that is logged
abbrev key_of : {num : Numbers} → Boot num → Bytes
key_of (fatal text) = []
key_of (serving srv) = srv.new_key

module _ (num : Numbers) (crypto : Crypto) where
  seed_again :
      (cfg : Config num) (w : World num crypto)
      → Has num crypto cfg.default_username w.db.tables
      → ((seed num crypto cfg w).1.db.tables ≡ w.db.tables)
        × ((srv : Serving num) → (seed num crypto cfg w).0 ≡ serving srv → srv.new_key ≡ [])
  unfolding seed assemble
  seed_again cfg w (row, there) =
      let (same, answer) =
        ensure_default_user_again num crypto cfg.default_username cfg.default_password
          cfg.default_wallet_usd cfg.platform_default_price_per_minute w row there in
      (
        same,
        λ srv h. elim answer [
          | inl made ↦ cc (ap (λ (b : Boot num). key_of b) (rw (made, seed) at h))
          | inr (e, bad) ↦ absurd (cc (rw (bad, seed) at h))
        ],
      )

  seed-serving :
      (cfg : Config num) (w : World num crypto) (srv : Serving num)
      → (seed num crypto cfg w).0 ≡ serving srv
      → Has num crypto cfg.default_username (seed num crypto cfg w).1.db.tables
        × ((key : Bytes) × (srv ≡ assemble cfg key))
  unfolding seed
  seed-serving cfg w srv h =
      let name = cfg.default_username in
      let (r, w') =
        ensure_default_user num crypto name cfg.default_password cfg.default_wallet_usd
          cfg.platform_default_price_per_minute w in
      elim (Result-cases r) [
        | inl ((id, key), made) ↦ (
          ensure_default_user-Has num crypto name cfg.default_password cfg.default_wallet_usd
              cfg.platform_default_price_per_minute w (id, key) made,
          (key, cc (rw (made, seed) at h)),
        )
        | inr (e, bad) ↦ absurd (cc (rw (bad, seed) at h))
      ]

module _ (num : Numbers) (crypto : Crypto) where
  boot-Has :
      (o : Outside num) (cfg : Config num) (w : World num crypto) (srv : Serving num)
      → (boot num crypto o cfg w).0 ≡ serving srv
      → Has num crypto cfg.default_username (boot num crypto o cfg w).1.db.tables
  unfolding boot
  boot-Has o cfg w srv h = elim (Option-cases (first_fatal (steps o cfg w.db.tables))) [
    | inr (text, stopped) ↦ absurd (cc (rw (stopped, boot) at h))
    | inl clear ↦
        rw (clear, boot)
          (seed-serving num crypto cfg (migrated num crypto o cfg w) srv (rw (clear, boot) at h)).0
  ]

  migrate-up_to_date :
      (o : Outside num) (url : Bytes) (t : Tables num) → (o.up t).1 ≡ t → (migrate o url t).1 ≡ t
  unfolding migrate
  migrate-up_to_date o url t h = ground arith

  boot_known :
      (o : Outside num) (cfg : Config num) (w : World num crypto)
      → Has num crypto cfg.default_username w.db.tables
      → (o.up w.db.tables).1 ≡ w.db.tables
      → ((boot num crypto o cfg w).1.db.tables ≡ w.db.tables)
        × ((srv : Serving num) → (boot num crypto o cfg w).0 ≡ serving srv → srv.new_key ≡ [])
  unfolding boot
  boot_known o cfg w has up_to_date =
      let same_tables = migrate-up_to_date o cfg.database_url w.db.tables up_to_date in
      elim (Option-cases (first_fatal (steps o cfg w.db.tables))) [
        | inr (text, stopped) ↦
            (rw (stopped, boot) same_tables, λ srv h. absurd (cc (rw (stopped, boot) at h)))
        | inl clear ↦
            let (same, keyless) =
              seed_again num crypto cfg (migrated num crypto o cfg w)
                (subst (Has num crypto cfg.default_username) (sym same_tables) has) in
            (rw (clear, boot) (same ∙ same_tables), λ srv h. keyless srv (rw (clear, boot) at h))
      ]

-- Another start with the same configuration, if the migrations leave the tables of a service that has begun to
-- serve as they are, and whatever else the libraries answer it, changes no table, and if it begins to serve
-- too, it logs no key.
pub boot_again :
    (num : Numbers) (crypto : Crypto) (o o' : Outside num) (cfg : Config num) (w : World num crypto)
    (srv : Serving num)
    → (boot num crypto o cfg w).0 ≡ serving srv
    → (o'.up (boot num crypto o cfg w).1.db.tables).1 ≡ (boot num crypto o cfg w).1.db.tables
    → let w' = (boot num crypto o cfg w).1 in
      let (b, w'') = boot num crypto o' cfg w' in
      (w''.db.tables ≡ w'.db.tables) × ((srv' : Serving num) → b ≡ serving srv' → srv'.new_key ≡ [])
boot_again num crypto o o' cfg w srv h up_to_date =
    boot_known num crypto o' cfg (boot num crypto o cfg w).1 (boot-Has num crypto o cfg w srv h)
      up_to_date
