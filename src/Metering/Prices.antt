-- ===== src/Metering/Prices.antt =====
-- The price of a minute for a user, whatever way `pricePerMinute` (metering/internal/consumer/consumer.go)
-- finds it.
use tts_platform.Common.{
  ◌≡◌, refl, ◌⊎◌, inl, inr, false, true, none, some, List, [], ◌∷◌, Bytes, arith, Option-cases,
}
use tts_platform.Common.Results.{Result, ok, err, Result-cases}
use tts_platform.Numbers.{Numbers, zero_float}
use tts_platform.Postgres.{UserRow, exec-cases}
use tts_platform.Valkey.{Valkey}
use tts_platform.Metering.Consumer.{
  Codec, World, wallet_key, find_user, select_price, cached_price, or_default, price_per_minute,
}

module _ (num : Numbers) (vk : Valkey) (codec : Codec num) (ppm : num.Float) where
  -- An answer of Valkey in which there is no price above zero
  abbrev pub IsUseless : Result Bytes → Type 0
  IsUseless (err e) = Unit {0}
  IsUseless (ok val) =
      (q : num.Float) → codec.unmarshal_price val ≡ some q → num.lt (zero_float num) q ≡ false

  -- The price above zero in Valkey's answer, or if there is none, that of the user's row, or if the row has
  -- none, the default
  abbrev pub IsPrice : Bytes → Result Bytes → List (UserRow num) → num.Float → Type 0
  IsPrice user answer users p =
      ((val : Bytes) × (answer ≡ ok val)
        × (codec.unmarshal_price val ≡ some p)
        × (num.lt (zero_float num) p ≡ true))
      ⊎ (IsUseless answer
          × (((find_user num user users ≡ ok none) × (p ≡ ppm))
              ⊎ ((q : num.Numeric) × (find_user num user users ≡ ok (some q))
                  × (p ≡ num.to_float q))))

  -- Prices found one after the other, with one look at Valkey for each
  abbrev pub ArePrices : Bytes → List (UserRow num) → vk.Store → List num.Float → Type 0
  ArePrices user users redis [] = Unit {0}
  ArePrices user users redis (p ∷ prices) =
      IsPrice user (vk.get (wallet_key user) redis).0 users p
      × ArePrices user users (vk.get (wallet_key user) redis).1 prices

  cached_price-none :
      (answer : Result Bytes) → cached_price num vk codec ppm answer ≡ none → IsUseless answer
  unfolding cached_price
  cached_price-none (err e) h = tt
  cached_price-none (ok val) h = λ q found. ground arith

  cached_price-some :
      (answer : Result Bytes) (p : num.Float)
      → cached_price num vk codec ppm answer ≡ some p
      → (val : Bytes) × (answer ≡ ok val)
        × (codec.unmarshal_price val ≡ some p)
        × (num.lt (zero_float num) p ≡ true)
  unfolding cached_price
  cached_price-some (err e) p h = absurd (cc h)
  cached_price-some (ok val) p h = (val, refl, ground arith, ground arith)

  pub price-redis :
      (user : Bytes) (w : World num vk codec ppm)
      → (price_per_minute num vk codec ppm user w).1.redis ≡ (vk.get (wallet_key user) w.redis).1
  unfolding price_per_minute
  price-redis user w = ground arith

  pub price_per_minute-IsPrice :
      (user : Bytes) (w : World num vk codec ppm) (p : num.Float)
      → (price_per_minute num vk codec ppm user w).0 ≡ ok p
      → IsPrice user (vk.get (wallet_key user) w.redis).0 w.db.tables.users p
  unfolding price_per_minute select_price or_default
  price_per_minute-IsPrice user w p h =
      let answer = (vk.get (wallet_key user) w.redis).0 in
      elim (Option-cases (cached_price num vk codec ppm answer)) [
        | inr (q, hit) ↦
            let same : q ≡ p = ground arith in
            inl (cached_price-some answer p (rw (hit, same) refl))
        | inl miss ↦ inr (
          cached_price-none answer miss,
          elim (Result-cases (find_user num user w.db.tables.users)) [
            | inl (none, there) ↦
                inl (there, ground (arith, exec-cases (select_price num user) w.db))
            | inl (some q, there) ↦
                inr (q, there, ground (arith, exec-cases (select_price num user) w.db))
            | inr (e, gone) ↦ absurd (ground (arith, exec-cases (select_price num user) w.db))
          ],
        )
      ]
