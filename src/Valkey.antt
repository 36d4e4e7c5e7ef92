-- ===== src/Valkey.antt =====
-- The Valkey server behind `*redis.Client`, which is not part of the repository: its commands as
-- the two services call them, and the promises of its documentation.
pub mod Memory
use tts_platform.Common.{
  ℕ, suc, ◌≡◌, ◌≢◌, ◌⊎◌, Option, List, [], ◌∷◌, Bytes, bytes_eq, if◌then◌else◌,
}
use tts_platform.Common.Int.{ℤ}
use tts_platform.Common.Results.{Error, Result, ok, err, redis_nil}

-- The commands that the rate limiter puts into a pipeline.
pub data Command : Type 0 where
  incr : Bytes → Command
  expire : Bytes → ℤ → Command

pub record Valkey : Type 1 where
  -- the server's data and the state of the connection
  pub Store : Type 0
  -- a missing key is the error `redis.Nil`
  pub get : Bytes → Store → Result Bytes × Store
  pub set : Bytes → Bytes → ℤ → Store → Result (Unit {0}) × Store
  pub del : Bytes → Store → Result (Unit {0}) × Store
  -- one reply to each command; without a connection all are errors
  pub pipeline : List Command → Store → List (Result ℕ) × Store

-- What the documentation of the server promises of one connection: a read that follows a write
-- that was acknowledged gives that value, or fails, or finds the key gone (it may expire or be
-- evicted), and one that follows an acknowledged deletion finds nothing or fails.
pub record ValkeyLaws (vk : Valkey) : Type 0 where
  pub get-set :
      (k v : Bytes) (ttl : ℤ) (s : vk.Store)
      → (vk.set k v ttl s).0 ≡ ok tt
      → ((vk.get k (vk.set k v ttl s).1).0 ≡ ok v)
        ⊎ ((e : Error) × ((vk.get k (vk.set k v ttl s).1).0 ≡ err e))
  pub get-del :
      (k : Bytes) (s : vk.Store)
      → (vk.del k s).0 ≡ ok tt
      → (e : Error) × ((vk.get k (vk.del k s).1).0 ≡ err e)
