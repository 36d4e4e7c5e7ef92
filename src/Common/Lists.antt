-- ===== src/Common/Lists.antt =====
-- Lists measured and indexed by native numbers, under the library's names.
use Prim.Native.Nat.{ℕ, zero, suc, ◌+◌, ◌≤◌}
use mathlib.Core.Path.{◌≡◌, refl, ap, ◌∙◌}
use mathlib.Core.List.{List, [], ◌∷◌, ◌++◌}
use mathlib.Core.Option.{Option, none, some}
use native.Mathlib.Omega.{arith}

module _ {ℓ} {A : Type ℓ} where
  abbrev pub length : List A → ℕ
  length [] = 0
  length (x ∷ xs) = suc (length xs)

  abbrev pub take : ℕ → List A → List A
  take zero xs = []
  take (suc n) [] = []
  take (suc n) (x ∷ xs) = x ∷ take n xs

  abbrev pub drop : ℕ → List A → List A
  drop zero xs = xs
  drop (suc n) [] = []
  drop (suc n) (x ∷ xs) = drop n xs

  abbrev pub get_elem? : List A → ℕ → Option A
  get_elem? [] i = none
  get_elem? (x ∷ xs) zero = some x
  get_elem? (x ∷ xs) (suc i) = get_elem? xs i

  -- A write out of bounds changes nothing.
  abbrev pub set : List A → ℕ → A → List A
  set [] i v = []
  set (x ∷ xs) zero v = v ∷ xs
  set (x ∷ xs) (suc i) v = x ∷ set xs i v

  abbrev pub concat : List (List A) → List A
  concat [] = []
  concat (xs ∷ xss) = xs ++ concat xss

  pub length-append : (xs ys : List A) → length (xs ++ ys) ≡ length xs + length ys
  length-append [] ys = omega arith
  length-append (x ∷ xs) ys = omega (arith, length-append xs ys)

  pub drop-append : (xs ys : List A) → drop (length xs) (xs ++ ys) ≡ ys
  drop-append [] ys = refl
  drop-append (x ∷ xs) ys = drop-append xs ys

abbrev pub All {ℓ κ} : {A : Type ℓ} → (A → Type κ) → List A → Type κ
All P [] = Unit
All P (x ∷ xs) = P x × All P xs

pub All-append {ℓ κ} :
    {A : Type ℓ} (P : A → Type κ) (xs ys : List A) → All P xs → All P ys → All P (xs ++ ys)
All-append P [] ys h k = k
All-append P (x ∷ xs) ys (hx, h) k = (hx, All-append P xs ys h k)

module _ {ℓ} {A : Type ℓ} where
  take-suc_add : (n m : ℕ) (l : List A) → take (suc (n + m)) l ≡ take (suc n + m) l
  take-suc_add n m l = ap (λ k. take k l) {x = suc (n + m)} (omega arith)

  take-nil : (m : ℕ) → take {A = A} m [] ≡ []
  take-nil zero = refl
  take-nil (suc m) = refl

  pub take-take : (n m : ℕ) (l : List A) → take n l ++ take m (drop n l) ≡ take (n + m) l
  take-take zero m l = ap (λ k. take k l) {x = m} (omega arith)
  take-take (suc n) m [] = take-nil m ∙ take-suc_add n m []
  take-take (suc n) m (x ∷ l) = ap (λ k. x ∷ k) (take-take n m l) ∙ take-suc_add n m (x ∷ l)

  drop-suc_add : (a b : ℕ) (l : List A) → drop (suc (a + b)) l ≡ drop (suc a + b) l
  drop-suc_add a b l = ap (λ k. drop k l) {x = suc (a + b)} (omega arith)

  drop-nil : (m : ℕ) → drop {A = A} m [] ≡ []
  drop-nil zero = refl
  drop-nil (suc m) = refl

  pub drop-drop : (a b : ℕ) (l : List A) → drop b (drop a l) ≡ drop (a + b) l
  drop-drop zero b l = ap (λ k. drop k l) {x = b} (omega arith)
  drop-drop (suc a) b [] = drop-nil b ∙ drop-suc_add a b []
  drop-drop (suc a) b (x ∷ l) = drop-drop a b l ∙ drop-suc_add a b (x ∷ l)

  pub take_all : (m : ℕ) (l : List A) → length l ≤ m → take m l ≡ l
  take_all zero [] h = refl
  take_all zero (x ∷ l) h = absurd (omega arith)
  take_all (suc m) [] h = refl
  take_all (suc m) (x ∷ l) h = ap (λ k. x ∷ k) (take_all m l (omega arith))
