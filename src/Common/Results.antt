-- ===== src/Common/Results.antt =====
-- Go's `(T, error)` results, with the errors that the code tells apart by `errors.Is`.
use mathlib.Core.Path.{◌≡◌, refl}
use mathlib.Core.Bool.{Bool, true, false}
use mathlib.Core.Logic.{◌⊎◌, inl, inr}
use tts_platform.Common.Text.{Bytes}

-- `pgx.ErrNoRows`, `redis.Nil`, `context.Canceled`, `io.EOF`, and any other error by its text.
pub data Error : Type 0 where
  no_rows : Error
  redis_nil : Error
  canceled : Error
  eof : Error
  failure : Bytes → Error

pub data Result {ℓ} (A : Type ℓ) : Type ℓ where
  ok : A → Result A
  err : Error → Result A

abbrev pub is_no_rows : Error → Bool
is_no_rows no_rows = true
is_no_rows _ = false

abbrev pub is_canceled : Error → Bool
is_canceled canceled = true
is_canceled _ = false

pub Result-cases {ℓ} :
    {A : Type ℓ} (r : Result A) → ((a : A) × (r ≡ ok a)) ⊎ ((e : Error) × (r ≡ err e))
Result-cases (ok a) = inl (a, refl)
Result-cases (err e) = inr (e, refl)
