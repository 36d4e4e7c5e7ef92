-- ===== src/Auth/Token.antt =====
-- Tokens as text: api/internal/auth/auth.go (the hexadecimal key and its prefix) and cookie.go. A
-- token is ASCII, so `strings.TrimSpace` looks for the ASCII blanks.
use tts_platform.Common.{
  ℕ, ◌+◌, ◌/◌, ◌%◌, Bool, ◌&&◌, ◌||◌, Option, none, some, [], ◌∷◌, ◌++◌, Bytes, codes, has_prefix,
  ltb, leb, ◌==◌, take, drop, if◌then◌else◌,
}

abbrev pub is_space : ℕ → Bool
is_space c = (leb 9 c && leb c 13) || (c == 32)

unfoldable pub trim_left : Bytes → Bytes
trim_left [] = []
trim_left (c ∷ s) = if is_space c then trim_left s else c ∷ s

abbrev cons_trimmed : ℕ → Bytes → Bytes
cons_trimmed c [] = if is_space c then [] else c ∷ []
cons_trimmed c (d ∷ s) = c ∷ d ∷ s

unfoldable pub trim_right : Bytes → Bytes
trim_right [] = []
trim_right (c ∷ s) = cons_trimmed c (trim_right s)

-- `strings.TrimSpace`
unfoldable pub trim_space : Bytes → Bytes
unfolding trim_left trim_right
trim_space s = trim_right (trim_left s)

abbrev pub hex_digit : ℕ → ℕ
hex_digit n = if ltb n 10 then 48 + n else 87 + n

-- `hex.EncodeToString`
unfoldable pub encode_hex : Bytes → Bytes
encode_hex [] = []
encode_hex (b ∷ bs) = hex_digit (b / 16) ∷ hex_digit (b % 16) ∷ encode_hex bs

-- `APIKeyPrefix`
abbrev pub api_key_prefix : Bytes
api_key_prefix = codes "sk-"

-- The secret behind what a client sends, with or without the prefix.
unfoldable pub with_prefix : Bytes → Bytes
with_prefix secret = if has_prefix secret api_key_prefix then secret else api_key_prefix ++ secret

-- `secret[len(APIKeyPrefix) : len(APIKeyPrefix)+8]`
abbrev pub key_prefix : Bytes → Bytes
key_prefix secret = take 8 (drop 3 secret)

-- The headers of a request that the middlewares read; a missing one is empty.
pub record Request : Type 0 where
  pub path : Bytes
  pub authorization : Bytes
  pub admin_key : Bytes
  pub cookie : Option Bytes

abbrev pub bearer : Bytes
bearer = codes "Bearer "

-- `TokenFromRequest`
unfoldable pub token_from_request : Request → Bytes
token_from_request r =
    if has_prefix r.authorization bearer
    then trim_space (drop 7 r.authorization)
    else elim r.cookie [ none ↦ [] | some c ↦ trim_space c ]
