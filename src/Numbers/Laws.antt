-- ===== src/Numbers/Laws.antt =====
-- The laws hold of the concrete arithmetic.
use tts_platform.Common.{refl, arith}
use tts_platform.Common.Int.{◌+ℤ◌, ◌*ℤ◌}
use tts_platform.Numbers.{AddLaws, NumericLaws}
use tts_platform.Numbers.Fixed.{fixed}

pub fixed_add_laws : AddLaws fixed
unfolding ◌+ℤ◌ ◌*ℤ◌
fixed_add_laws = record {
  zero_le = refl;
  billable_first = λ x h. ground arith;
  billable_add = λ a x h k. ground arith;
}

pub fixed_numeric_laws : NumericLaws fixed
fixed_numeric_laws = record { less_irrefl = λ a. ground arith }
