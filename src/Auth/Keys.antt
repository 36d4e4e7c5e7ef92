-- ===== src/Auth/Keys.antt =====
-- API keys and passwords from their creation to their use.
use tts_platform.Common.{
  ℕ, ◌*◌, ◌/◌, ◌%◌, ◌≡◌, refl, ◌⊎◌, inl, inr, true, false, Option, none, some, List, [], ◌∷◌, ◌++◌,
  Bytes, bytes_eq, bytes_eq_refl, bytes_eq_iff, arith, Bool-cases, All, length,
}
use tts_platform.Common.Results.{Result, ok, err, no_rows, failure}
use tts_platform.Numbers.{Numbers}
use tts_platform.Postgres.{Db, UserRow, ApiKeyRow}
use tts_platform.Auth.Token.{
  is_space, trim_left, trim_right, trim_space, hex_digit, encode_hex, api_key_prefix,
}
use tts_platform.Auth.Accounts.{Crypto}
use tts_platform.Auth.Statements.{
  User, matches, revokes, revoke_rows, keys_of, user_by_id, user_by_name, find_key,
}

-- The answer to a call on a database is this user, or the call's statement, which is the database's next one,
-- fails, and the answer is its error.
abbrev pub Says : {num : Numbers} → User → Db num → Result User → Type 0
Says u db r =
    (r ≡ ok u)
    ⊎ ((e : Bytes) × (rest : List (Option Bytes)) × (db.faults ≡ some e ∷ rest)
        × (r ≡ err (failure e)))

abbrev pub IsSolid : Bytes → Type 0
IsSolid s = All (λ c. is_space c ≡ false) s

trim_right-IsSolid : (s : Bytes) → IsSolid s → trim_right s ≡ s
unfolding trim_right
trim_right-IsSolid [] h = refl
trim_right-IsSolid (c ∷ []) (h, _) = rw h refl
trim_right-IsSolid (c ∷ d ∷ s) (h, hs) = rw (trim_right-IsSolid (d ∷ s) hs) refl

hex_digit-solid : (n : ℕ) → is_space (hex_digit n) ≡ false
hex_digit-solid n = ground arith

encode_hex-IsSolid : (b : Bytes) → IsSolid (encode_hex b)
unfolding encode_hex
encode_hex-IsSolid [] = tt
encode_hex-IsSolid (x ∷ b) =
    (hex_digit-solid (x / 16), (hex_digit-solid (x % 16), encode_hex-IsSolid b))

pub length-encode_hex : (b : Bytes) → length (encode_hex b) ≡ 2 * length b
unfolding encode_hex
length-encode_hex [] = refl
length-encode_hex (x ∷ b) = omega (arith, length-encode_hex b)

-- The secret of a key survives the way through the client.
pub trim_space-secret :
    (b : Bytes) → trim_space (api_key_prefix ++ encode_hex b) ≡ api_key_prefix ++ encode_hex b
unfolding trim_space trim_left
trim_space-secret b =
    trim_right-IsSolid (api_key_prefix ++ encode_hex b) (refl, (refl, (refl, encode_hex-IsSolid b)))

module _ {num : Numbers} where
  pub find_key-append :
      (prefix hash : Bytes) (us : List (UserRow num)) (ks : List ApiKeyRow) (k : ApiKeyRow)
      (u : User)
      → find_key prefix hash us ks ≡ err no_rows
      → matches prefix hash k ≡ true
      → user_by_id k.user_id us ≡ some u
      → find_key prefix hash us (ks ++ k ∷ []) ≡ ok u
  unfolding find_key
  find_key-append prefix hash us [] k u missing match found = rw (match, found) refl
  find_key-append prefix hash us (j ∷ ks) k u missing match found =
      ground (arith, find_key-append prefix hash us ks k u)

  pub user_by_name-append :
      (name : Bytes) (us : List (UserRow num)) (row : UserRow num)
      → user_by_name name us ≡ none
      → row.username ≡ name
      → user_by_name name (us ++ row ∷ []) ≡ some row
  unfolding user_by_name
  user_by_name-append name [] row missing same = rw (same, bytes_eq_refl name) refl
  user_by_name-append name (u ∷ us) row missing same =
      ground (arith, user_by_name-append name us row)

  -- No row that the update leaves active belongs to the secret.
  pub find_key-revoked :
      (prefix hash user key : Bytes) (us : List (UserRow num)) (ks : List ApiKeyRow)
      → All (λ k. matches prefix hash k ≡ true → (k.id ≡ key) × (k.user_id ≡ user)) ks
      → find_key prefix hash us (revoke_rows user key ks).1 ≡ err no_rows
  unfolding find_key revoke_rows
  find_key-revoked prefix hash user key us [] h = refl
  find_key-revoked prefix hash user key us (k ∷ ks) (here, h) =
      ground (
        arith,
        find_key-revoked prefix hash user key us ks h,
        bytes_eq_refl key,
        bytes_eq_refl user,
      )

pub keys_of-revoke_rows :
    (user key other : Bytes) (ks : List ApiKeyRow)
    → bytes_eq user other ≡ false
    → keys_of other (revoke_rows user key ks).1 ≡ keys_of other ks
unfolding keys_of revoke_rows
keys_of-revoke_rows user key other [] ne = refl
keys_of-revoke_rows user key other (k ∷ ks) ne = elim (Bool-cases (revokes user key k)) [
  | inl mine ↦
      let same : k.user_id ≡ user = (bytes_eq_iff k.user_id user).0 ground arith in
      rw (mine, same, ne) (keys_of-revoke_rows user key other ks ne)
  | inr other_key ↦ rw (other_key, keys_of-revoke_rows user key other ks ne) refl
]

-- What the packages behind `Crypto` promise.
pub record CryptoLaws (crypto : Crypto) : Type 0 where
  pub read-length :
      (n : ℕ) (r : crypto.Random) (b : Bytes) → (crypto.read n r).0 ≡ ok b → length b ≡ n
  pub compare-generate :
      (p h : Bytes) (r : crypto.Random)
      → (crypto.generate_from_password p r).0 ≡ ok h
      → crypto.compare_hash_and_password h p ≡ true
