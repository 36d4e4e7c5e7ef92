-- ===== src/Numbers.antt =====
-- The arithmetic that the Go code takes from the machine and from Postgres: `float64` and
-- NUMERIC are parameters, with the operations that the services use.
pub mod Fixed
pub mod Laws
use tts_platform.Common.{◌≡◌, Bool, true, false, ◌⊎◌}
use tts_platform.Common.Int.{ℤ, pos}

pub record Numbers : Type 1 where
  -- `float64` with its arithmetic, comparisons and the conversion from `int`
  pub Float : Type 0
  pub float : ℤ → Float
  pub add : Float → Float → Float
  pub sub : Float → Float → Float
  pub mul : Float → Float → Float
  pub div : Float → Float → Float
  pub neg : Float → Float
  pub le : Float → Float → Bool
  pub lt : Float → Float → Bool
  -- NUMERIC columns: a float64 argument of a statement, a scanned column, and SQL's `-` and `<`
  pub Numeric : Type 0
  pub to_numeric : Float → Numeric
  pub to_float : Numeric → Float
  pub minus : Numeric → Numeric → Numeric
  pub less : Numeric → Numeric → Bool

module _ (num : Numbers) where
  open num use {Float, float, add, sub, le, lt, Numeric, to_numeric, less}

  abbrev pub zero_float : Float
  zero_float = float (pos 0)

  -- An amount that passes the code's guard `x <= 0`.
  abbrev pub IsBillable : Float → Type 0
  IsBillable x = le x zero_float ≡ false

  -- Zero is no such amount. Adding an amount above zero (or NaN) to zero or to such an amount gives such an amount. This
  -- holds of IEEE 754 doubles with rounding.
  pub record AddLaws : Type 0 where
    pub zero_le : le zero_float zero_float ≡ true
    pub billable_first : (x : Float) → IsBillable x → IsBillable (add zero_float x)
    pub billable_add : (a x : Float) → IsBillable a → IsBillable x → IsBillable (add a x)

  -- NUMERIC has no value below itself.
  pub record NumericLaws : Type 0 where
    pub less_irrefl : (a : Numeric) → less a a ≡ false
