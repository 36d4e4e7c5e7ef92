-- ===== src/Common/Dict.antt =====
-- A Go map with string keys, as an association list.
use tts_platform.Common.{
  ◌≡◌, inl, inr, false, Option, none, some, List, [], ◌∷◌, Bytes, bytes_eq, bytes_eq_refl,
  bytes_eq_iff, Bool-cases, if◌then◌else◌,
}

module _ {ℓ} {V : Type ℓ} where
  abbrev pub lookup : Bytes → List (Bytes × V) → Option V
  lookup k [] = none
  lookup k ((j, v) ∷ m) = if bytes_eq j k then some v else lookup k m

  abbrev pub insert : Bytes → V → List (Bytes × V) → List (Bytes × V)
  insert k v [] = (k, v) ∷ []
  insert k v ((j, w) ∷ m) = if bytes_eq j k then (k, v) ∷ m else (j, w) ∷ insert k v m

  pub lookup-insert_self :
      (k : Bytes) (v : V) (m : List (Bytes × V)) → lookup k (insert k v m) ≡ some v
  lookup-insert_self k v [] = rw (bytes_eq_refl k)
  lookup-insert_self k v ((j, w) ∷ m) = elim (Bool-cases (bytes_eq j k)) [
    | inl same ↦ rw (same, bytes_eq_refl k)
    | inr other ↦ rw (other, other) (lookup-insert_self k v m)
  ]

  pub lookup-insert_ne :
      (k j : Bytes) (v : V) (m : List (Bytes × V))
      → bytes_eq k j ≡ false
      → lookup j (insert k v m) ≡ lookup j m
  lookup-insert_ne k j v [] ne = rw ne
  lookup-insert_ne k j v ((i, w) ∷ m) ne = elim (Bool-cases (bytes_eq i k)) [
    | inl same ↦ rw (same, (bytes_eq_iff i k).0 same, ne)
    | inr other ↦ elim (Bool-cases (bytes_eq i j)) [
      | inl hit ↦ rw (other, hit)
      | inr miss ↦ rw (other, miss) (lookup-insert_ne k j v m ne)
    ]
  ]
