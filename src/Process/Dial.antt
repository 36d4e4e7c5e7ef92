-- ===== src/Process/Dial.antt =====
-- `Dial` of api/internal/grpcclient/client.go: the target of a connection to the inference service and
-- its options. The package grpc is a parameter.
use tts_platform.Common.{
  ℕ, ◌≡◌, refl, sym, ◌∙◌, ap₂, inl, inr, Bool, true, false, not, ◌&&◌, ◌||◌, List, [], ◌∷◌, ◌++◌,
  Bytes, codes, has_prefix, arith, Bool-cases, if◌then◌else◌,
}
use tts_platform.Common.Results.{Result, ok, err, failure}
use tts_platform.Speech.Job.{message}

-- `strings.Contains`
unfoldable pub contains_text : Bytes → Bytes → Bool
contains_text [] sub = has_prefix [] sub
contains_text (c ∷ s) sub = has_prefix (c ∷ s) sub || contains_text s sub

-- The `DialOption`s that the code uses
pub data DialOption : Type 0 where
  insecure : DialOption
  round_robin : DialOption
  block : DialOption

abbrev pub dns : Bytes
dns = codes "dns:///"

abbrev pub has_scheme : Bytes → Bool
has_scheme addr = contains_text addr (codes "://")

-- Whether the service's name is to be resolved, and the streams to be spread
unfoldable pub is_balanced : Bytes → Bool
is_balanced addr = has_prefix addr dns || not (has_scheme addr)

unfoldable pub target_of : Bytes → Bytes
target_of addr = if is_balanced addr && not (has_scheme addr) then dns ++ addr else addr

unfoldable pub options_of : Bytes → List DialOption
options_of addr = insecure ∷ (if is_balanced addr then round_robin ∷ [] else []) ++ block ∷ []

module _ {ℓ} {Conn : Type ℓ} (dial_context : Bytes → List DialOption → Result Conn) where
  -- `dial_context` is `grpc.DialContext`, with the time-out of thirty seconds.
  unfoldable pub dial_by : Bytes → List DialOption → Result Conn
  dial_by target options = elim (dial_context target options) [
    | err e ↦ err (failure (codes "grpc dial " ++ (target ++ (codes ": " ++ message e))))
    | ok conn ↦ ok conn
  ]

  unfoldable pub dial : Bytes → Result Conn
  unfolding dial_by
  dial addr = dial_by (target_of addr) (options_of addr)

prefix-shorter : (s p q : Bytes) → has_prefix s (p ++ q) ≡ true → has_prefix s p ≡ true
prefix-shorter s [] q h = refl
prefix-shorter [] (c ∷ p) q h = h
prefix-shorter (x ∷ s) (c ∷ p) q h = ground (arith, prefix-shorter s p q)

contains-prefix : (s sub : Bytes) → has_prefix s sub ≡ true → contains_text s sub ≡ true
unfolding contains_text
contains-prefix [] sub h = h
contains-prefix (c ∷ s) sub h = ground arith

contains-later :
    (c : ℕ) (s sub : Bytes) → contains_text s sub ≡ true → contains_text (c ∷ s) sub ≡ true
unfolding contains_text
contains-later c s sub h = ground arith

prefix-drop : (x y : ℕ) (s p : Bytes) → has_prefix (x ∷ s) (y ∷ p) ≡ true → has_prefix s p ≡ true
prefix-drop x y s p h = ground arith

prefix-scheme : (addr : Bytes) → has_prefix addr dns ≡ true → has_scheme addr ≡ true
prefix-scheme [] h = absurd (cc h)
prefix-scheme (a ∷ []) h = absurd (cc (prefix-drop a 100 [] (codes "ns:///") h))
prefix-scheme (a ∷ b ∷ []) h =
    absurd
      (cc (prefix-drop b 110 [] (codes "s:///") (prefix-drop a 100 (b ∷ []) (codes "ns:///") h)))
prefix-scheme (a ∷ b ∷ c ∷ s) h = contains-later a (b ∷ c ∷ s) (codes "://") (
    contains-later b (c ∷ s) (codes "://") (
      contains-later c s (codes "://") (
        contains-prefix s (codes "://") (
          prefix-shorter s (codes "://") (codes "/") (
            prefix-drop c 115 s (codes ":///") (
              prefix-drop b 110 (c ∷ s) (codes "s:///")
                (prefix-drop a 100 (b ∷ c ∷ s) (codes "ns:///") h)))))))

prefix-append : (p s : Bytes) → has_prefix (p ++ s) p ≡ true
prefix-append [] s = refl
prefix-append (c ∷ p) s = ground (arith, prefix-append p s)

abbrev pub spreads : List DialOption → Bool
spreads [] = false
spreads (round_robin ∷ os) = true
spreads (insecure ∷ os) = spreads os
spreads (block ∷ os) = spreads os

-- Which targets go by the resolver of names
target-dns : (addr : Bytes) → has_prefix (target_of addr) dns ≡ is_balanced addr
unfolding target_of is_balanced
target-dns addr = elim (Bool-cases (has_prefix addr dns)) [
  | inl named ↦ rw (prefix-scheme addr named, named, is_balanced, named)
  | inr plain ↦ elim (Bool-cases (has_scheme addr)) [
    | inl other ↦ rw (is_balanced, plain, other, plain)
    | inr bare ↦ rw (is_balanced, plain, bare) (prefix-append dns addr)
  ]
]

balanced-target : (addr : Bytes) → is_balanced (target_of addr) ≡ is_balanced addr
unfolding target_of is_balanced
balanced-target addr = elim (Bool-cases (is_balanced addr)) [
  | inl due ↦ let named = target-dns addr ∙ due in rw (is_balanced, named) (sym due)
  | inr not_due ↦ rw not_due not_due
]

target-target : (addr : Bytes) → target_of (target_of addr) ≡ target_of addr
unfolding target_of
target-target addr = elim (Bool-cases (is_balanced addr)) [
  | inl due ↦
      let scheme = prefix-scheme (target_of addr) (target-dns addr ∙ due) in
      rw (balanced-target addr, scheme, due) refl
  | inr not_due ↦ rw (balanced-target addr, not_due) refl
]

options-target : (addr : Bytes) → options_of (target_of addr) ≡ options_of addr
unfolding options_of
options-target addr = rw (balanced-target addr) refl

options-spreads : (addr : Bytes) → spreads (options_of addr) ≡ is_balanced addr
unfolding options_of
options-spreads addr = elim (Bool-cases (is_balanced addr)) [
  | inl due ↦ rw due refl
  | inr not_due ↦ rw not_due refl
]

-- Dialling the target that an address stands for is dialling the address, whatever comes of it; and the
-- streams are spread over the service's hosts exactly if the target goes by the resolver of names.
dial-target {ℓ} :
    {Conn : Type ℓ} (dial_context : Bytes → List DialOption → Result Conn) (addr : Bytes)
    → (dial dial_context (target_of addr) ≡ dial dial_context addr)
      × (spreads (options_of addr) ≡ has_prefix (target_of addr) dns)
unfolding dial
dial-target dial_context addr = (
  ap₂ (dial_by dial_context) (target-target addr) (options-target addr),
  options-spreads addr ∙ sym (target-dns addr),
)
