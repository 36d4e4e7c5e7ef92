-- ===== src/Speech/Standing.antt =====
-- Which rows of `tts_jobs` a goroutine has still to change, and how far it is.
use tts_platform.Common.{
  ◌≡◌, refl, sym, ap, ◌∙◌, subst, inl, inr, Bool, true, false, ◌||◌, Option, none, some, List, [],
  ◌∷◌, ◌++◌, Bytes, bytes_eq, bytes_eq_iff, All, arith, Bool-cases, if◌then◌else◌,
}
use tts_platform.Postgres.{JobRow}
use tts_platform.Speech.Job.{update_job}
use tts_platform.Speech.Lifecycle.{IsFresh}

-- A goroutine has not begun, or it has made its first statement and not its last.
pub data Phase : Type 0 where
  waiting : Phase
  begun : Phase

-- The jobs whose goroutines have not returned
abbrev pub Goroutines : Type 0
Goroutines = List (Bytes × Phase)

abbrev pub phase_of : Bytes → Goroutines → Option Phase
phase_of job [] = none
phase_of job ((j, p) ∷ js) = if bytes_eq job j then some p else phase_of job js

abbrev pub without : Bytes → Goroutines → Goroutines
without job [] = []
without job ((j, p) ∷ js) = if bytes_eq job j then without job js else (j, p) ∷ without job js

abbrev pub is_used : Bytes → List JobRow → Bool
is_used job [] = false
is_used job (r ∷ rs) = bytes_eq r.id job || is_used job rs

abbrev pub is_phase : Phase → Option Phase → Bool
is_phase waiting (some waiting) = true
is_phase begun (some begun) = true
is_phase _ _ = false

pub is_phase-some : (p : Phase) (o : Option Phase) → is_phase p o ≡ true → o ≡ some p
is_phase-some waiting (some waiting) h = refl
is_phase-some waiting (some begun) h = absurd (cc h)
is_phase-some waiting none h = absurd (cc h)
is_phase-some begun (some waiting) h = absurd (cc h)
is_phase-some begun (some begun) h = refl
is_phase-some begun none h = absurd (cc h)

pub phase-without_self : (job : Bytes) (js : Goroutines) → phase_of job (without job js) ≡ none
phase-without_self job [] = refl
phase-without_self job ((j, p) ∷ js) = elim (Bool-cases (bytes_eq job j)) [
  | inl same ↦ rw same (phase-without_self job js)
  | inr other ↦ rw (other, other) (phase-without_self job js)
]

pub phase-without_other :
    (other job : Bytes) (js : Goroutines)
    → bytes_eq other job ≡ false
    → phase_of other (without job js) ≡ phase_of other js
phase-without_other other job [] h = refl
phase-without_other other job ((j, p) ∷ js) h = elim (Bool-cases (bytes_eq job j)) [
  | inl same ↦
      let e : job ≡ j = (bytes_eq_iff job j).0 same in
      rw (same, sym e, h) (phase-without_other other job js h)
  | inr differs ↦ rw differs (
      ap (λ (o : Option Phase). if bytes_eq other j then some p else o)
        (phase-without_other other job js h))
]

-- `Begun` is what holds of a row between its job's statements, `Past` what holds after them.
module _ (Begun Past : JobRow → Type 0) where
  -- What a row is like, by how far its job is
  abbrev pub Standing : Option Phase → JobRow → Type 0
  Standing (some waiting) r = IsFresh r
  Standing (some begun) r = Begun r
  Standing none r = Past r

  abbrev pub Stands : Goroutines → List JobRow → Type 0
  Stands live rs = All (λ r. Standing (phase_of r.id live) r) rs

  pub Stands-submitted :
      (id : Bytes) (live : Goroutines) (rs : List JobRow)
      → is_used id rs ≡ false
      → Stands live rs
      → Stands ((id, waiting) ∷ live) rs
  Stands-submitted id live [] unused h = tt
  Stands-submitted id live (r ∷ rs) unused (h, hs) =
      let not_it : bytes_eq r.id id ≡ false = ground arith in
      (rw not_it h, Stands-submitted id live rs (ground arith) hs)

  pub Stands-append :
      (live : Goroutines) (rs : List JobRow) (r : JobRow)
      → Stands live rs
      → Standing (phase_of r.id live) r
      → Stands live (rs ++ r ∷ [])
  Stands-append live [] r h new = (new, tt)
  Stands-append live (s ∷ rs) r (h, hs) new = (h, Stands-append live rs r hs new)

  -- One job's goroutine goes on, and changes its row alone.
  pub Stands-moved :
      (job : Bytes) (f : JobRow → JobRow) (live live' : Goroutines) (p : Phase) (q : Option Phase)
      (rs : List JobRow)
      → ((r : JobRow) → (f r).id ≡ r.id)
      → ((r : JobRow) → Standing (some p) r → Standing q (f r))
      → phase_of job live ≡ some p
      → phase_of job live' ≡ q
      → ((other : Bytes) → bytes_eq other job ≡ false → phase_of other live' ≡ phase_of other live)
      → Stands live rs
      → Stands live' (update_job job f rs)
  unfolding update_job
  Stands-moved job f live live' p q [] same step before after others h = tt
  Stands-moved job f live live' p q (r ∷ rs) same step before after others (h, hs) =
      let rest = Stands-moved job f live live' p q rs same step before after others hs in
      elim (Bool-cases (bytes_eq r.id job)) [
        | inl its ↦
            let e : r.id ≡ job = (bytes_eq_iff r.id job).0 its in
            let was : Standing (some p) r =
              subst (λ o. Standing o r) (ap (λ x. phase_of x live) e ∙ before) h in
            let is : phase_of (f r).id live' ≡ q =
              ap (λ x. phase_of x live') (same r ∙ e) ∙ after in
            (rw its (subst (λ o. Standing o (f r)) (sym is) (step r was)), rest)
        | inr other ↦ (rw other (subst (λ o. Standing o r) (sym (others r.id other)) h), rest)
      ]
