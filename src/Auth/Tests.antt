-- ===== src/Auth/Tests.antt =====
-- Accounts and middlewares at concrete inputs.
use tts_platform.Common.{
  ℕ, zero, suc, ◌≡◌, refl, ◌⊎◌, true, false, Option, none, some, [], ◌∷◌, Bytes, bytes_eq,
  bytes_eq_refl, codes, length, ap, subst,
}
use tts_platform.Common.Int.{pos}
use tts_platform.Common.Results.{ok, err, no_rows}
use tts_platform.Numbers.Fixed.{fixed}
use tts_platform.Postgres.{Db, exec, empty_tables}
use tts_platform.Valkey.Memory.{memory, empty_memory}
use tts_platform.RateLimit.Store.{Limits, LimitsJson, Store, effective_db, cache_key}
use tts_platform.RateLimit.Limiter.{
  allow, count_request, check_windows, first_error, windows, incr_replies, commands, minute_key,
  hour_key, day_key,
}
use tts_platform.Auth.Token.{
  Request, trim_space, trim_left, trim_right, token_from_request, with_prefix, encode_hex,
}
use tts_platform.Auth.Accounts.{
  Crypto, World, create_api_key, resolve_api_key, resolve_secret, revoke_api_key, register,
  authenticate_password, hash_api_key, generate_api_key,
}
use tts_platform.Auth.Statements.{
  User, matches, select_key_user, find_key, update_revoked, revoke_rows, insert_user, insert_wallet,
  user_by_name, user_by_id, insert_key,
}
use tts_platform.Auth.Keys.{Says, CryptoLaws}
use tts_platform.Auth.Lifecycle.{create_api_key-resolves, register-authenticates}
use tts_platform.Auth.Revoked.{revoke_api_key-find_key}
use tts_platform.Auth.Middleware.{
  Verdict, pass, public_paths, is_public, is_empty, admin_middleware, admin_key_of,
  bearer_middleware, rate_limit_middleware,
}
use tts_platform.Auth.Guard.{guard, guard-pass, admin_middleware-pass}

abbrev replicate : ℕ → ℕ → Bytes
replicate zero x = []
replicate (suc n) x = x ∷ replicate n x

length-replicate : (n x : ℕ) → length (replicate n x) ≡ n
length-replicate zero x = refl
length-replicate (suc n) x = ap suc (length-replicate n x)

-- Nothing is hashed, and the random bytes count up.
abbrev pub toy : Crypto
toy = record {
  Random = ℕ;
  read = λ n r. (ok (replicate n r), suc r);
  uuid = λ r. (r ∷ [], suc r);
  sha256 = λ s. s;
  generate_from_password = λ p r. (ok p, suc r);
  compare_hash_and_password = bytes_eq;
}

toy_laws : CryptoLaws toy
toy_laws = record {
  read-length = λ n r b h.
      (let e : replicate n r ≡ b = cc h in subst (λ c. length c ≡ n) e (length-replicate n r));
  compare-generate = λ p h r e. (let same : p ≡ h = cc e in rw same (bytes_eq_refl h));
}

abbrev pub ann : User
ann = record { id = codes "u1"; username = codes "ann" }

abbrev world : World fixed toy
world = record {
  db = record {
    tables = record (empty_tables fixed) {
      users =
          record {
            id = codes "u1";
            username = codes "ann";
            password_hash = codes "pw";
            price_per_audio_minute_usd = none;
          }
          ∷ [];
    };
    faults = [];
  };
  random = 7;
}

-- The key made of the byte 7.
abbrev secret : Bytes
secret = codes "sk-070707070707070707070707070707070707070707070707"

create_api_key-resolves_example :
    let db = (create_api_key fixed toy (codes "u1") world).1.db in
    Says ann db (resolve_api_key fixed toy secret db).0
unfolding create_api_key generate_api_key insert_key exec encode_hex find_key user_by_id
create_api_key-resolves_example =
    create_api_key-resolves fixed toy toy_laws (codes "u1") (8 ∷ []) (codes "07070707") secret ann
      world refl refl refl

abbrev bob : User
bob = record { id = 8 ∷ []; username = codes "bob" }

register-authenticates_example :
    let db = (register fixed toy (codes "bob") (codes "pw") (pos 20_000_000) world).1.db in
    Says bob db (authenticate_password fixed toy (codes "bob") (codes "pw") db).0
unfolding register insert_user insert_wallet exec user_by_name
register-authenticates_example =
    register-authenticates fixed toy toy_laws (codes "bob") (codes "pw") (pos 20_000_000) bob world
      refl

abbrev two_keys : Db fixed
two_keys = record {
  tables = record world.db.tables {
    api_keys =
        record {
          id = codes "k1";
          user_id = codes "u1";
          key_prefix = codes "aa";
          key_hash = codes "h1";
          revoked = false;
        }
        ∷ record {
          id = codes "k2";
          user_id = codes "u2";
          key_prefix = codes "aa";
          key_hash = codes "h2";
          revoked = false;
        }
        ∷ [];
  };
  faults = [];
}

revoke_api_key-find_key_example :
    (select_key_user fixed
      (codes "aa")
      (codes "h1")
      (revoke_api_key fixed toy (codes "u1") (codes "k1") two_keys).1.tables).0
    ≡ err no_rows
unfolding revoke_api_key update_revoked revoke_rows exec matches
revoke_api_key-find_key_example =
    revoke_api_key-find_key fixed toy (codes "u1") (codes "k1") (codes "aa") (codes "h1") two_keys
      refl ((λ m. (refl, refl)), ((λ m. cc), tt))

abbrev pub json : LimitsJson
json = record { marshal = λ l. ok []; unmarshal = λ b. none }

abbrev pub limits : Store
limits = record {
  has_redis = true;
  has_pool = false;
  defaults = record { rpm = pos 2; rph = pos 9; rpd = pos 9 };
}

abbrev pub served : tts_platform.RateLimit.Store.World fixed memory
served = record { redis = empty_memory; db = (create_api_key fixed toy (codes "u1") world).1.db }

abbrev pub request : Request
request = record {
  path = codes "/v1/wallet";
  authorization = codes "Bearer sk-070707070707070707070707070707070707070707070707 ";
  admin_key = [];
  cookie = none;
}

pub guarded : (guard fixed toy memory json (some limits) 60 request served).0 ≡ pass (some ann)
unfolding guard tts_platform.Auth.Guard.limited bearer_middleware rate_limit_middleware
    tts_platform.Auth.Middleware.limit_verdict is_public token_from_request trim_space trim_left
    trim_right resolve_api_key resolve_secret with_prefix select_key_user find_key user_by_id
    matches hash_api_key encode_hex create_api_key generate_api_key insert_key exec allow
    count_request effective_db tts_platform.RateLimit.Store.effective
    tts_platform.RateLimit.Store.from_cache check_windows first_error windows incr_replies commands
    minute_key hour_key day_key
guarded = refl

guard-pass_example :
    ((◌≡◌ {A = Option User} (some ann) none) × (is_public request.path public_paths ≡ true))
    ⊎ ((u : User) × (◌≡◌ {A = Option User} (some ann) (some u))
        × (is_empty (token_from_request request) ≡ false)
        × ((resolve_api_key fixed toy (token_from_request request) served.db).0 ≡ ok u))
guard-pass_example =
    guard-pass fixed toy memory json (some limits) 60 request (some ann) served guarded
