-- ===== src/Config/Env.antt =====
-- The helpers of api/internal/config/config.go, and `RedisAddr` of
-- metering/internal/consumer/consumer.go, which api/cmd/api/main.go repeats. The environment is a
-- function; a variable that is not set is empty.
use tts_platform.Common.{
  ℕ, ◌+◌, ◌-◌, ◌*◌, ◌^◌, ◌≡◌, ◌≢◌, refl, Bool, true, false, ◌&&◌, ◌||◌, Option, none, some, [], ◌∷◌,
  Bytes, codes, ltb, leb, ◌==◌, has_prefix, drop, arith, if◌then◌else◌,
}
use tts_platform.Common.Int.{ℤ, pos, negsuc}

-- `env`
unfoldable pub env : (Bytes → Bytes) → Bytes → Bytes → Bytes
env getenv k def = elim (getenv k) [ [] ↦ def | c ∷ s ↦ c ∷ s ]

unfoldable pub parse_digits : ℕ → Bytes → Option ℕ
parse_digits n [] = some n
parse_digits n (c ∷ s) =
    let rest = parse_digits (n * 10 + (c - 48)) s in if leb 48 c && leb c 57 then rest else none

-- A magnitude with its sign, if it is in the range of a 64-bit integer.
abbrev pub in_range : Bool → Option ℕ → Option ℤ
in_range neg none = none
in_range true (some n) =
    if n == 0 then some (pos 0) else if leb n (2 ^ 63) then some (negsuc (n - 1)) else none
in_range false (some n) = if ltb n (2 ^ 63) then some (pos n) else none

abbrev pub digits : Bytes → Option ℕ
digits [] = none
digits (c ∷ s) = parse_digits 0 (c ∷ s)

-- `strconv.Atoi`
unfoldable pub atoi : Bytes → Option ℤ
unfolding parse_digits
atoi [] = none
atoi (c ∷ s) =
    if c == 45
    then in_range true (digits s)
    else if c == 43
    then in_range false (digits s)
    else in_range false (digits (c ∷ s))

abbrev pub or_else {ℓ} : {A : Type ℓ} → A → Option A → A
or_else def none = def
or_else def (some n) = n

-- `envInt` and `envFloat`; `parse_float` is `strconv.ParseFloat`.
unfoldable pub env_int : (Bytes → Bytes) → Bytes → ℤ → ℤ
unfolding atoi
env_int getenv k def = elim (getenv k) [ [] ↦ def | c ∷ s ↦ or_else def (atoi (c ∷ s)) ]

unfoldable pub env_float {ℓ} :
    {Float : Type ℓ} → (Bytes → Option Float) → (Bytes → Bytes) → Bytes → Float → Float
env_float parse_float getenv k def = elim (getenv k) [
  | [] ↦ def
  | c ∷ s ↦ or_else def (parse_float (c ∷ s))
]

-- `u[:strings.IndexByte(u, '/')]`, or all of `u`
unfoldable pub before_slash : Bytes → Bytes
before_slash [] = []
before_slash (c ∷ s) = let rest = before_slash s in if c == 47 then [] else c ∷ rest

abbrev pub trim_scheme : Bytes → Bytes
trim_scheme url = if has_prefix url (codes "redis://") then drop 8 url else url

abbrev pub or_local : Bytes → Bytes
or_local [] = codes "localhost:6379"
or_local (c ∷ s) = c ∷ s

-- `RedisAddr`
unfoldable pub redis_addr : Bytes → Bytes
unfolding before_slash
redis_addr url = or_local (before_slash (trim_scheme url))

abbrev pub contains : ℕ → Bytes → Bool
contains b [] = false
contains b (c ∷ s) = (c == b) || contains b s

before_slash-contains : (s : Bytes) → contains 47 (before_slash s) ≡ false
unfolding before_slash
before_slash-contains [] = refl
before_slash-contains (c ∷ s) = ground (arith, before_slash-contains s)

or_local-clean :
    (s : Bytes) → contains 47 s ≡ false → (or_local s ≢ []) × (contains 47 (or_local s) ≡ false)
or_local-clean [] h = ((λ e. cc), refl)
or_local-clean (c ∷ s) h = ((λ e. cc), h)

-- The address of Valkey is never empty, and it has no slash: no scheme and no database's number is
-- left in it.
redis_addr-clean : (url : Bytes) → (redis_addr url ≢ []) × (contains 47 (redis_addr url) ≡ false)
unfolding redis_addr
redis_addr-clean url =
    or_local-clean (before_slash (trim_scheme url)) (before_slash-contains (trim_scheme url))
