-- ===== src/RateLimit/Tests.antt =====
-- The rate limiter at concrete inputs.
use tts_platform.Common.{
  ℕ, zero, suc, ◌-◌, ◌≤◌, ◌≡◌, refl, sym, ◌∙◌, inl, inr, true, false, Option, none, some, List, [],
  ◌∷◌, Bytes, bytes_eq, bytes_eq_refl, bytes_eq_iff, Bool-cases, codes, All, arith, subst,
}
use tts_platform.Common.Int.{ℤ, pos, negsuc}
use tts_platform.Common.Results.{err, no_rows, Result, ok, err, canceled}
use tts_platform.Numbers.Fixed.{fixed}
use tts_platform.Postgres.{exec, empty_tables}
use tts_platform.Valkey.{Valkey, Command, incr, expire}
use tts_platform.Valkey.Memory.{Memory, memory, memory_laws, empty_memory, bump, run_commands}
use tts_platform.RateLimit.Store.{
  find_limits, Limits, LimitsJson, Store, World, cache_key, valid, effective, set_override,
  clear_override, cache, upsert_limits, from_cache, effective_db,
}
use tts_platform.RateLimit.Overrides.{
  Answers, ReadsBack, effective-set_override, clear_override_stale,
}
use tts_platform.RateLimit.Limiter.{minute_key, commands, allow, count_request}
use tts_platform.RateLimit.Counters.{Avoids, CounterLaws}
use tts_platform.RateLimit.Quota.{CapsAtMost, allowed, allowed-le-cap}

abbrev two : Limits
two = record { rpm = pos 2; rph = pos 1000; rpd = pos 10000 }

abbrev put : ℤ → Bytes → Bytes
put (pos n) b = 0 ∷ n ∷ b
put (negsuc n) b = 1 ∷ n ∷ b

abbrev number : ℕ → ℕ → ℤ
number zero n = pos n
number (suc _) n = negsuc n

abbrev unmarshal_limits : Bytes → Option Limits
unmarshal_limits (a ∷ b ∷ c ∷ d ∷ e ∷ f ∷ []) =
    some (record { rpm = number a b; rph = number c d; rpd = number e f })
unmarshal_limits _ = none

abbrev marshal_limits : Limits → Result Bytes
marshal_limits l = ok (put l.rpm (put l.rph (put l.rpd [])))

-- Six numbers in place of the JSON.
abbrev json : LimitsJson
json = record { marshal = marshal_limits; unmarshal = unmarshal_limits }

unmarshal-marshal :
    (a b c : ℤ)
    → unmarshal_limits (put a (put b (put c []))) ≡ some (record { rpm = a; rph = b; rpd = c })
unmarshal-marshal (pos a) (pos b) (pos c) = refl
unmarshal-marshal (pos a) (pos b) (negsuc c) = refl
unmarshal-marshal (pos a) (negsuc b) (pos c) = refl
unmarshal-marshal (pos a) (negsuc b) (negsuc c) = refl
unmarshal-marshal (negsuc a) (pos b) (pos c) = refl
unmarshal-marshal (negsuc a) (pos b) (negsuc c) = refl
unmarshal-marshal (negsuc a) (negsuc b) (pos c) = refl
unmarshal-marshal (negsuc a) (negsuc b) (negsuc c) = refl

json-ReadsBack : ReadsBack json
json-ReadsBack l raw h =
    let e : put l.rpm (put l.rph (put l.rpd [])) ≡ raw = cc h in
    subst (λ r. unmarshal_limits r ≡ some l) e (unmarshal-marshal l.rpm l.rph l.rpd)

abbrev user : Bytes
user = codes "u1"

abbrev store : Store
store = record { has_redis = true; has_pool = true; defaults = two }

abbrev world : World fixed memory
world = record { redis = empty_memory; db = record { tables = empty_tables fixed; faults = [] } }

abbrev five : Limits
five = record { rpm = pos 5; rph = pos 50; rpd = pos 500 }

effective-set_override_example :
    Answers
      (five, true)
      (effective fixed memory json store user
        (set_override fixed memory json store user five world).1).0
unfolding set_override cache upsert_limits exec valid
effective-set_override_example =
    effective-set_override fixed memory memory_laws json store json-ReadsBack user five world refl

abbrev overridden : World fixed memory
overridden = (set_override fixed memory json store user five world).1

-- A server that refuses deletions.
abbrev stubborn : Valkey
stubborn = record memory { del = λ k m. (err canceled, m) }

abbrev cached_world : World fixed stubborn
cached_world = record {
  redis = record empty_memory { cached = (codes "rlcfg:u1", 0 ∷ 5 ∷ 0 ∷ 50 ∷ 0 ∷ 500 ∷ []) ∷ [] };
  db = record { tables = empty_tables fixed; faults = [] };
}

clear_override_stale_example :
    let (r, w') = clear_override fixed stubborn json store user cached_world in
    (r ≡ ok tt)
    × (find_limits user w'.db.tables.user_rate_limits ≡ err no_rows)
    × ((effective fixed stubborn json store user w').0 ≡ ok (five, true))
unfolding valid cache_key
clear_override_stale_example =
    clear_override_stale fixed stubborn json store user (0 ∷ 5 ∷ 0 ∷ 50 ∷ 0 ∷ 500 ∷ []) five
      cached_world canceled refl refl refl refl refl refl refl

run_commands-grows :
    (k : Bytes) (cmds : List Command) (m : Memory)
    → m.counters k ≤ (run_commands cmds m).1.counters k
run_commands-grows k [] m = omega arith
run_commands-grows k (incr j ∷ cs) m = ground (arith, run_commands-grows k cs (bump j m))
run_commands-grows k (expire j ttl ∷ cs) m = run_commands-grows k cs m

run_commands-Avoids :
    (k : Bytes) (cmds : List Command) (m : Memory)
    → All (Avoids k) cmds
    → (run_commands cmds m).1.counters k ≡ m.counters k
run_commands-Avoids k [] m h = refl
run_commands-Avoids k (incr j ∷ cs) m (ne, h) = elim (Bool-cases (bytes_eq k j)) [
  | inl same ↦ absurd (ne (sym ((bytes_eq_iff k j).0 same)))
  | inr other ↦ run_commands-Avoids k cs (bump j m) h ∙ rw other refl
]
run_commands-Avoids k (expire j ttl ∷ cs) m (_, h) = run_commands-Avoids k cs m h

counter_laws : (k : Bytes) → CounterLaws memory k
counter_laws k = record {
  count = λ m. m.counters k;
  get-count = λ j m. refl;
  set-count = λ j v ttl m ne. refl;
  pipeline-grows = run_commands-grows k;
  pipeline-incr = λ rest m h none_failed. (
    run_commands-Avoids k rest (bump k m) h ∙ rw (bytes_eq_refl k) refl,
    ((run_commands rest (bump k m)).0, refl),
  );
}

-- No database: everybody has the default caps.
abbrev plain : Store
plain = record store { has_pool = false }

caps_example :
    CapsAtMost fixed memory json plain user 60
      (counter_laws (minute_key user 60))
      2
      (60 ∷ 61 ∷ 65 ∷ [])
      world
unfolding effective from_cache effective_db allow count_request commands
caps_example = ((λ l o h. ground arith), ((λ l o h. ground arith), ((λ l o h. ground arith), tt)))

allowed-le-cap_example : allowed fixed memory json plain user (60 ∷ 61 ∷ 65 ∷ []) world ≤ 2 - 0
unfolding counter_laws
allowed-le-cap_example =
    allowed-le-cap fixed memory json plain user 60 (counter_laws (minute_key user 60)) 2
      (60 ∷ 61 ∷ 65 ∷ []) world (refl, (refl, (refl, tt))) caps_example
