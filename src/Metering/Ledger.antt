-- ===== src/Metering/Ledger.antt =====
-- The ledger that the consumer keeps, as its users see it: batches of events, each of which is charged
-- to its user's wallet as a whole, or not at all.
use tts_platform.Common.{
  ℕ, suc, ◌+◌, ◌≡◌, Option, none, some, List, [], ◌∷◌, ◌++◌, map, Bytes, bytes_eq, All, length,
  if◌then◌else◌,
}
use tts_platform.Common.Dict.{lookup, insert}
use tts_platform.Numbers.{Numbers, zero_float}
use tts_platform.Postgres.{WalletRow}
use tts_platform.Valkey.{Valkey}
use tts_platform.Billing.Event.{Event}
use tts_platform.Metering.Consumer.{Codec, debit_wallet, Happening, message, tick}
use tts_platform.Metering.Debit.{total_of}

module _ (num : Numbers) where
  abbrev pub Batch : Type 0
  Batch = Bytes × List (Event num)

  -- What becomes of a batch: it is charged at a price for each event, or not at all.
  abbrev pub Fate : Type 0
  Fate = Option (List num.Float)

  abbrev pub Posting : Type 0
  Posting = Batch × Fate

  -- One price for each event
  abbrev pub IsPriced : Posting → Type 0
  IsPriced (b, none) = Unit {0}
  IsPriced ((user, es), some prices) = length prices ≡ length es

  -- A posting for each batch, in order
  abbrev pub Ledger : List Batch → List Posting → Type 0
  Ledger bs ps = (map (λ (p : Posting). p.0) ps ≡ bs) × All IsPriced ps

  -- The batches that failed, and the events of those that did not
  abbrev pub errors_of : List Posting → ℕ
  errors_of [] = 0
  errors_of ((b, none) ∷ ps) = suc (errors_of ps)
  errors_of ((b, some prices) ∷ ps) = errors_of ps

  abbrev pub processed_of : List Posting → ℕ
  processed_of [] = 0
  processed_of ((b, none) ∷ ps) = processed_of ps
  processed_of (((user, es), some prices) ∷ ps) = length es + processed_of ps

  -- The events of one user among batches
  abbrev pub collected : Bytes → List Batch → List (Event num)
  collected user [] = []
  collected user ((u, es) ∷ bs) = (if bytes_eq u user then es else []) ++ collected user bs

  -- An event is added to its user's batch.
  abbrev pub add_to : Option (List (Event num)) → Event num → List (Event num)
  add_to none e = e ∷ []
  add_to (some es) e = es ++ e ∷ []

  abbrev pub take_in : Option (Event num) → List Batch → List Batch
  take_in none pending = pending
  take_in (some e) pending = insert e.user_id (add_to (lookup e.user_id pending) e) pending

module _ (num : Numbers) (vk : Valkey) (codec : Codec num) (ppm : num.Float) where
  -- The wallets after a batch
  unfoldable pub post : Posting num → List (WalletRow num) → List (WalletRow num)
  post ((user, es), none) ws = ws
  post ((user, es), some prices) ws =
      if num.le (total_of num vk codec ppm es prices) (zero_float num)
      then ws
      else map (debit_wallet num user (total_of num vk codec ppm es prices)) ws

  abbrev pub post_all : List (Posting num) → List (WalletRow num) → List (WalletRow num)
  post_all [] ws = ws
  post_all (p ∷ ps) ws = post_all ps (post p ws)

  -- The batches that the ticks of a run take in order, and those that are left at its end, from the messages
  -- alone
  abbrev pub gather : List (Happening num vk codec ppm) → List (Batch num) → List (Batch num)
  gather [] pending = []
  gather (tick ∷ xs) pending = pending ++ gather xs []
  gather (message msg ∷ xs) pending = gather xs (take_in num (codec.unmarshal_event msg) pending)

  abbrev pub waiting : List (Happening num vk codec ppm) → List (Batch num) → List (Batch num)
  waiting [] pending = pending
  waiting (tick ∷ xs) pending = waiting xs []
  waiting (message msg ∷ xs) pending = waiting xs (take_in num (codec.unmarshal_event msg) pending)
