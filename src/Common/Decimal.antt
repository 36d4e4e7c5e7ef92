-- ===== src/Common/Decimal.antt =====
-- `strconv.Itoa` and the `%d` of `fmt.Sprintf`, on numbers from 0 on.
use tts_platform.Common.Tests.{ltb, if◌then◌else◌, Bool-cases}
use tts_platform.Common.Text.{Bytes, codes}
use Prim.Native.Nat.{ℕ, zero, suc, ◌+◌, ◌-◌, ◌*◌, ◌/◌, ◌%◌, ◌<◌}
use mathlib.Core.Path.{◌≡◌, refl, ap, ◌∙◌, sym}
use mathlib.Core.Logic.{inl, inr}
use mathlib.Core.List.{[], ◌∷◌, ◌++◌}
use native.Mathlib.Omega.{arith}

digits : ℕ → ℕ → Bytes
digits zero n = []
digits (suc fuel) n =
    let rest = digits fuel (n / 10) ++ (b'0' + n % 10) ∷ [] in
    if ltb n 10 then (b'0' + n) ∷ [] else rest

-- `n + 1` rounds are enough, since each one divides by ten.
unfoldable pub itoa : ℕ → Bytes
unfolding digits
itoa n = digits (suc n) n

value_from : ℕ → Bytes → ℕ
value_from acc [] = acc
value_from acc (c ∷ s) = value_from (acc * 10 + (c - b'0')) s

value_from-append :
    (acc : ℕ) (s : Bytes) (c : ℕ)
    → value_from acc (s ++ c ∷ []) ≡ value_from acc s * 10 + (c - b'0')
unfolding value_from
value_from-append acc [] c = refl
value_from-append acc (x ∷ s) c = value_from-append (acc * 10 + (x - b'0')) s c

value_from-digits : (fuel n : ℕ) → n < fuel → value_from 0 (digits fuel n) ≡ n
unfolding digits value_from
value_from-digits zero n h = elim h [ ]
value_from-digits (suc fuel) n h = elim (Bool-cases (ltb n 10)) [
  | inl small ↦ rw small (omega arith)
  | inr big ↦
      rw
        (
          big,
          value_from-append 0 (digits fuel (n / 10)) (b'0' + n % 10),
          value_from-digits fuel (n / 10) (ground arith),
        )
        (omega arith)
]

-- Different numbers have different texts.
pub itoa-injective : {m n : ℕ} → itoa m ≡ itoa n → m ≡ n
unfolding itoa
itoa-injective {m} {n} e =
    sym (value_from-digits (suc m) m (omega arith))
    ∙ ap (value_from 0) e
    ∙ value_from-digits (suc n) n (omega arith)

itoa_example : itoa 1205 ≡ codes "1205"
unfolding itoa
itoa_example = refl
