-- ===== src/Numbers/Fixed.antt =====
-- A concrete arithmetic for tests and witnesses: millionths, as integers.
use tts_platform.Common.Int.{ℤ, pos, ◌+ℤ◌, ◌-ℤ◌, ◌*ℤ◌, div_ℤ, ltb_ℤ, leb_ℤ, pos_part}
use tts_platform.Numbers.{Numbers}

abbrev pub fixed : Numbers
fixed = record {
  Float = ℤ;
  float = λ n. n *ℤ pos 1_000_000;
  add = ◌+ℤ◌;
  sub = ◌-ℤ◌;
  mul = λ a b. div_ℤ (a *ℤ b) 1_000_000;
  div = λ a b. div_ℤ (a *ℤ pos 1_000_000) (pos_part b);
  neg = λ a. pos 0 -ℤ a;
  le = leb_ℤ;
  lt = ltb_ℤ;
  Numeric = ℤ;
  to_numeric = λ a. a;
  to_float = λ a. a;
  minus = ◌-ℤ◌;
  less = ltb_ℤ;
}
