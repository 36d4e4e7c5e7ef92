-- ===== src/Valkey/Memory.antt =====
-- A concrete server for tests and witnesses: nothing expires and nothing fails.
use tts_platform.Common.{
  ℕ, suc, ◌≡◌, refl, inl, inr, Option, none, some, List, [], ◌∷◌, Bytes, bytes_eq, Bool-cases,
  if◌then◌else◌,
}
use tts_platform.Common.Dict.{lookup, insert, lookup-insert_self}
use tts_platform.Common.Results.{Result, ok, err, redis_nil}
use tts_platform.Valkey.{Valkey, ValkeyLaws, Command, incr, expire}

pub record Memory : Type 0 where
  pub cached : List (Bytes × Bytes)
  pub counters : Bytes → ℕ

abbrev pub empty_memory : Memory
empty_memory = record { cached = []; counters = λ k. 0 }

abbrev or_nil : Option Bytes → Result Bytes
or_nil none = err redis_nil
or_nil (some v) = ok v

abbrev pub erase : Bytes → List (Bytes × Bytes) → List (Bytes × Bytes)
erase k [] = []
erase k ((j, v) ∷ m) = if bytes_eq j k then erase k m else (j, v) ∷ erase k m

abbrev pub bump : Bytes → Memory → Memory
bump k m = record m { counters = λ j. if bytes_eq j k then suc (m.counters j) else m.counters j }

abbrev pub run_commands : List Command → Memory → List (Result ℕ) × Memory
run_commands [] m = ([], m)
run_commands (incr k ∷ cs) m =
    let (rs, m') = run_commands cs (bump k m) in (ok (suc (m.counters k)) ∷ rs, m')
run_commands (expire k ttl ∷ cs) m = let (rs, m') = run_commands cs m in (ok 1 ∷ rs, m')

abbrev pub memory : Valkey
memory = record {
  Store = Memory;
  get = λ k m. (or_nil (lookup k m.cached), m);
  set = λ k v ttl m. (ok tt, record m { cached = insert k v m.cached });
  del = λ k m. (ok tt, record m { cached = erase k m.cached });
  pipeline = run_commands;
}

lookup-erase : (k : Bytes) (m : List (Bytes × Bytes)) → lookup k (erase k m) ≡ none
lookup-erase k [] = refl
lookup-erase k ((j, v) ∷ m) = elim (Bool-cases (bytes_eq j k)) [
  | inl same ↦ rw same (lookup-erase k m)
  | inr other ↦ rw (other, other) (lookup-erase k m)
]

pub memory_laws : ValkeyLaws memory
memory_laws = record {
  get-set = λ k v ttl m h. inl (rw (lookup-insert_self k v m.cached));
  get-del = λ k m h. (redis_nil, rw (lookup-erase k m.cached));
}
