-- ===== src/Speech/Sorted.antt =====
-- The order of rows of usage (`ListUsage`, api/internal/handler/server.go) by time, newest first.
use tts_platform.Common.{
  suc, ◌≡◌, refl, sym, ap, ◌∙◌, ap₂, subst, inl, inr, Bool, true, false, ◌||◌, if◌then◌else◌, List,
  [], ◌∷◌, length, All, arith, Bool-cases,
}
use mathlib.Core.List.{Permᴰ}
use mathlib.Core.List.Permᴰ
use tts_platform.Common.Int.{ℤ, ltb_ℤ}
use tts_platform.Numbers.{Numbers}
use tts_platform.Postgres.{UsageRow}
use tts_platform.Speech.Usage.{IsNewestFirst}

ltb-asym : (a b : ℤ) → ltb_ℤ a b ≡ true → ltb_ℤ b a ≡ false
ltb-asym a b h = ground arith

ltb-other : (a b : ℤ) → (ltb_ℤ a b || ltb_ℤ b a) ≡ true → ltb_ℤ a b ≡ false → ltb_ℤ b a ≡ true
ltb-other a b h k = ground arith

ltb-between : (a b c : ℤ) → ltb_ℤ a c ≡ true → ltb_ℤ b c ≡ false → ltb_ℤ a b ≡ true
ltb-between a b c h k = ground arith

module _ {num : Numbers} where
  unfoldable pub insert_by_time : UsageRow num → List (UsageRow num) → List (UsageRow num)
  insert_by_time r [] = r ∷ []
  insert_by_time r (s ∷ ss) =
      let rest = insert_by_time r ss in
      if ltb_ℤ r.occurred_at s.occurred_at then s ∷ rest else r ∷ s ∷ ss

  unfoldable pub newest_first : List (UsageRow num) → List (UsageRow num)
  newest_first [] = []
  newest_first (r ∷ rs) = insert_by_time r (newest_first rs)

  insert_by_time-perm :
      (r : UsageRow num) (rs : List (UsageRow num)) → Permᴰ (insert_by_time r rs) (r ∷ rs)
  unfolding insert_by_time
  insert_by_time-perm r [] = Permᴰ.refl (r ∷ [])
  insert_by_time-perm r (s ∷ ss) = elim (Bool-cases (ltb_ℤ r.occurred_at s.occurred_at)) [
    | inl older ↦
        rw older (Permᴰ.trans (Permᴰ.cons refl (insert_by_time-perm r ss)) (Permᴰ.swap refl refl))
    | inr newer ↦ rw newer (Permᴰ.refl (r ∷ s ∷ ss))
  ]

  pub newest_first-perm : (rs : List (UsageRow num)) → Permᴰ (newest_first rs) rs
  unfolding newest_first
  newest_first-perm [] = Permᴰ.nil
  newest_first-perm (r ∷ rs) =
      Permᴰ.trans (insert_by_time-perm r (newest_first rs)) (Permᴰ.cons refl (newest_first-perm rs))

  insert_by_time-All :
      (P : UsageRow num → Type 0) (r : UsageRow num) (rs : List (UsageRow num))
      → P r
      → All P rs
      → All P (insert_by_time r rs)
  unfolding insert_by_time
  insert_by_time-All P r [] hr h = (hr, tt)
  insert_by_time-All P r (s ∷ ss) hr (hs, h) =
      elim (Bool-cases (ltb_ℤ r.occurred_at s.occurred_at)) [
        | inl older ↦ rw older (hs, insert_by_time-All P r ss hr h)
        | inr newer ↦ rw newer (hr, (hs, h))
      ]

  not_newer :
      (r s : UsageRow num) (ss : List (UsageRow num))
      → ltb_ℤ r.occurred_at s.occurred_at ≡ false
      → All (λ x. ltb_ℤ s.occurred_at x.occurred_at ≡ false) ss
      → All (λ x. ltb_ℤ r.occurred_at x.occurred_at ≡ false) ss
  not_newer r s [] h k = tt
  not_newer r s (x ∷ ss) h (k0, k) = (ground arith, not_newer r s ss h k)

  insert_by_time-Newest :
      (r : UsageRow num) (rs : List (UsageRow num))
      → IsNewestFirst rs
      → IsNewestFirst (insert_by_time r rs)
  unfolding insert_by_time
  insert_by_time-Newest r [] h = (tt, tt)
  insert_by_time-Newest r (s ∷ ss) (hs, h) = elim (Bool-cases (ltb_ℤ r.occurred_at s.occurred_at)) [
    | inl older ↦ rw older (
      insert_by_time-All (λ x. ltb_ℤ s.occurred_at x.occurred_at ≡ false) r ss (ground arith) hs,
      insert_by_time-Newest r ss h,
    )
    | inr newer ↦ rw newer ((newer, not_newer r s ss newer hs), (hs, h))
  ]

  pub newest_first-Newest : (rs : List (UsageRow num)) → IsNewestFirst (newest_first rs)
  unfolding newest_first
  newest_first-Newest [] = tt
  newest_first-Newest (r ∷ rs) = insert_by_time-Newest r (newest_first rs) (newest_first-Newest rs)

  pub length-perm : {rs ss : List (UsageRow num)} → Permᴰ rs ss → length rs ≡ length ss
  length-perm Permᴰ.nil = refl
  length-perm (Permᴰ.cons e p) = ap suc (length-perm p)
  length-perm (Permᴰ.swap e f) = refl
  length-perm (Permᴰ.trans p q) = length-perm p ∙ length-perm q

  -- Two rows of different times
  abbrev pub apart : UsageRow num → UsageRow num → Bool
  apart r s = ltb_ℤ r.occurred_at s.occurred_at || ltb_ℤ s.occurred_at r.occurred_at

  -- No two rows have the same time.
  abbrev pub AreApart : List (UsageRow num) → Type 0
  AreApart [] = Unit {0}
  AreApart (r ∷ rs) = All (λ s. apart r s ≡ true) rs × AreApart rs

  newest_first_same : (rs : List (UsageRow num)) → IsNewestFirst rs → newest_first rs ≡ rs
  unfolding newest_first insert_by_time
  newest_first_same [] h = refl
  newest_first_same (r ∷ []) h = refl
  newest_first_same (r ∷ s ∷ ss) ((hr, _), h) =
      ap (insert_by_time r) (newest_first_same (s ∷ ss) h) ∙ rw hr refl

  insert_by_time_twice :
      (r s : UsageRow num) (rs : List (UsageRow num))
      → apart r s ≡ true
      → insert_by_time r (insert_by_time s rs) ≡ insert_by_time s (insert_by_time r rs)
  unfolding insert_by_time
  insert_by_time_twice r s [] h = elim (Bool-cases (ltb_ℤ r.occurred_at s.occurred_at)) [
    | inl older ↦ simp (older, ltb-asym r.occurred_at s.occurred_at older)
    | inr newer ↦ simp (newer, ltb-other r.occurred_at s.occurred_at h newer)
  ]
  insert_by_time_twice r s (x ∷ xs) h =
      let tr = r.occurred_at in
      let ts = s.occurred_at in
      let tx = x.occurred_at in
      elim (Bool-cases (ltb_ℤ tr tx)) [
        | inl rx ↦ elim (Bool-cases (ltb_ℤ ts tx)) [
          | inl sx ↦ simp (rx, sx, insert_by_time_twice r s xs h)
          | inr sx ↦ simp (rx, sx, ltb-between tr ts tx rx sx)
        ]
        | inr rx ↦ elim (Bool-cases (ltb_ℤ ts tx)) [
          | inl sx ↦ simp (rx, sx, ltb-between ts tr tx sx rx)
          | inr sx ↦ elim (Bool-cases (ltb_ℤ tr ts)) [
            | inl older ↦ simp (rx, sx, older, ltb-asym tr ts older)
            | inr newer ↦ simp (rx, sx, newer, ltb-other tr ts h newer)
          ]
        ]
      ]

  All-perm :
      (P : UsageRow num → Type 0) {rs ss : List (UsageRow num)} → Permᴰ rs ss → All P rs → All P ss
  All-perm P Permᴰ.nil h = tt
  All-perm P (Permᴰ.cons e p) (hr, h) = (subst P e hr, All-perm P p h)
  All-perm P (Permᴰ.swap e f) (hr, (hs, h)) = (subst P f hs, (subst P e hr, h))
  All-perm P (Permᴰ.trans p q) h = All-perm P q (All-perm P p h)

  AreApart-perm : {rs ss : List (UsageRow num)} → Permᴰ rs ss → AreApart rs → AreApart ss
  AreApart-perm Permᴰ.nil h = tt
  AreApart-perm (Permᴰ.cons {b = b} {l₁ = l} e p) (hr, h) = (
    All-perm (λ s. apart b s ≡ true) p (subst (λ r. All (λ s. apart r s ≡ true) l) e hr),
    AreApart-perm p h,
  )
  AreApart-perm (Permᴰ.swap {a = a} {a' = c} {l = l} e f) ((ab, ha), (hb, h)) = (
    (
      subst (λ x. apart c x ≡ true) e (subst (λ x. apart x a ≡ true) f (ground arith)),
      subst (λ r. All (λ s. apart r s ≡ true) l) f hb,
    ),
    (subst (λ r. All (λ s. apart r s ≡ true) l) e ha, h),
  )
  AreApart-perm (Permᴰ.trans p q) h = AreApart-perm q (AreApart-perm p h)

  newest_first_unmoved :
      {rs ss : List (UsageRow num)} → Permᴰ rs ss → AreApart rs → newest_first rs ≡ newest_first ss
  unfolding newest_first
  newest_first_unmoved Permᴰ.nil h = refl
  newest_first_unmoved (Permᴰ.cons e p) (hr, h) = ap₂ insert_by_time e (newest_first_unmoved p h)
  newest_first_unmoved (Permᴰ.swap {a = a} {b = b} {l = l} e f) ((ab, ha), _) =
      insert_by_time_twice a b (newest_first l) ab
      ∙ ap₂ (λ x y. insert_by_time x (insert_by_time y (newest_first l))) f e
  newest_first_unmoved (Permᴰ.trans p q) h =
      newest_first_unmoved p h ∙ newest_first_unmoved q (AreApart-perm p h)

  -- Any order of rows of different times in which none is older than the next is this one.
  pub newest_first_unique :
      (rs ss : List (UsageRow num))
      → Permᴰ ss rs
      → IsNewestFirst ss
      → AreApart rs
      → ss ≡ newest_first rs
  newest_first_unique rs ss same newest h =
      sym (newest_first_same ss newest) ∙ sym (newest_first_unmoved (Permᴰ.symm same) h)
