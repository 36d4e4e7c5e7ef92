-- ===== src/RateLimit/Quota.antt =====
-- No minute lets more requests of a user through than the cap.
use tts_platform.Common.{
  ℕ, suc, ◌+◌, ◌-◌, ◌/◌, ◌≤◌, ◌≡◌, refl, inl, inr, Bool, true, false, List, [], ◌∷◌, Bytes, All,
  arith,
}
use tts_platform.Common.Int.{ℤ, pos, ◌≤ℤ◌}
use tts_platform.Common.Results.{Result, ok, err, Result-cases}
use tts_platform.Numbers.{Numbers}
use tts_platform.Valkey.{Valkey}
use tts_platform.RateLimit.Store.{Limits, LimitsJson, Store, World, effective}
use tts_platform.RateLimit.Limiter.{minute_key, allow}
use tts_platform.RateLimit.Counters.{
  CounterLaws, effective-count, count_request-cap, count_request-grows,
}

module _ (num : Numbers) (vk : Valkey) (json : LimitsJson) (s : Store) (user : Bytes) (start : ℕ)
    (laws : CounterLaws vk (minute_key user start)) where
  open laws use {count}

  -- The caps that are looked up on the way say at most so many requests a minute.
  abbrev pub CapsAtMost : ℕ → List ℕ → World num vk → Type 0
  CapsAtMost cap [] w = Unit {0}
  CapsAtMost cap (t ∷ ts) w =
      ((l : Limits) (override : Bool)
        → (effective num vk json s user w).0 ≡ ok (l, override)
        → l.rpm ≤ℤ pos cap)
      × CapsAtMost cap ts (allow num vk json s user t w).1

  allow-grows :
      (t : ℕ) (w : World num vk) → count w.redis ≤ count (allow num vk json s user t w).1.redis
  unfolding allow
  allow-grows t w = elim (Result-cases (effective num vk json s user w).0) [
    | inl (caps, found) ↦ ground (
      arith,
      effective-count num vk json s user start laws user w,
      count_request-grows num vk json s user start laws t caps.0 (effective num vk json s user w).1,
    )
    | inr (e, failed) ↦ ground (arith, effective-count num vk json s user start laws user w)
  ]

  allow-cap :
      (t cap : ℕ) (retry : ℤ) (w : World num vk)
      → t / 60 ≡ start / 60
      → ((l : Limits) (override : Bool)
          → (effective num vk json s user w).0 ≡ ok (l, override)
          → l.rpm ≤ℤ pos cap)
      → (allow num vk json s user t w).0 ≡ ok (true, retry)
      → (count (allow num vk json s user t w).1.redis ≡ suc (count w.redis))
        × (suc (count w.redis) ≤ cap)
  unfolding allow
  allow-cap t cap retry w e caps h = elim (Result-cases (effective num vk json s user w).0) [
    | inl (c, found) ↦ ground (
      arith,
      effective-count num vk json s user start laws user w,
      caps c.0 c.1 found,
      count_request-cap num vk json s user start laws t c.0 retry (effective num vk json s user w).1
          e,
    )
    | inr (x, failed) ↦ absurd (cc (rw (failed, allow) at h))
  ]

abbrev pub was_allowed : Result (Bool × ℤ) → ℕ
was_allowed (ok (true, _)) = 1
was_allowed (ok (false, _)) = 0
was_allowed (err e) = 0

-- How many of the requests at these times are let through, one after another.
unfoldable pub allowed :
    (num : Numbers) (vk : Valkey) (json : LimitsJson) (s : Store) (user : Bytes)
    → List ℕ
    → World num vk
    → ℕ
allowed num vk json s user [] w = 0
allowed num vk json s user (t ∷ ts) w =
    let (r, w') = allow num vk json s user t w in was_allowed r + allowed num vk json s user ts w'

-- Of any requests of a user within one minute, at most so many are let through as the largest of
-- the caps per minute that `Effective` says for them, less what the counter of that minute has
-- counted before; whatever fails on the way.
pub allowed-le-cap :
    (num : Numbers) (vk : Valkey) (json : LimitsJson) (s : Store) (user : Bytes) (start : ℕ)
    (laws : CounterLaws vk (minute_key user start)) (cap : ℕ) (ts : List ℕ) (w : World num vk)
    → All (λ t. t / 60 ≡ start / 60) ts
    → CapsAtMost num vk json s user start laws cap ts w
    → allowed num vk json s user ts w ≤ cap - laws.count w.redis
unfolding allowed
allowed-le-cap num vk json s user start laws cap [] w within caps = omega arith
allowed-le-cap num vk json s user start laws cap (t ∷ ts) w (now, within) (here, caps) =
    go (allow num vk json s user t w).0 refl (
      allowed-le-cap num vk json s user start laws cap ts (allow num vk json s user t w).1 within
        caps)
  where
    go :
        (r : Result (Bool × ℤ))
        → (allow num vk json s user t w).0 ≡ r
        → allowed num vk json s user ts (allow num vk json s user t w).1
          ≤ cap - laws.count (allow num vk json s user t w).1.redis
        → was_allowed r + allowed num vk json s user ts (allow num vk json s user t w).1
          ≤ cap - laws.count w.redis
    go (ok (true, retry)) e rest =
        omega (arith, rest, allow-cap num vk json s user start laws t cap retry w now here e)
    go (ok (false, retry)) e rest =
        omega (arith, rest, allow-grows num vk json s user start laws t w)
    go (err x) e rest = omega (arith, rest, allow-grows num vk json s user start laws t w)
