-- ===== src/Pipeline/Tests.antt =====
-- A request's audio from the coalescer to the ledger, with an encoding of events that can be read back.
use tts_platform.Common.{
  ℕ, zero, suc, ◌≡◌, refl, sym, ap, ◌∙◌, ◌⊎◌, none, some, List, [], ◌∷◌, ◌++◌, map, Bytes, codes,
  concat, length, take, drop, drop-append,
}
use tts_platform.Common.Int.{ℤ, pos, negsuc}
use tts_platform.Common.Results.{ok}
use tts_platform.Numbers.Fixed.{fixed}
use tts_platform.Numbers.Laws.{fixed_add_laws}
use tts_platform.Valkey.Memory.{memory, empty_memory}
use tts_platform.Billing.Event.{Event, Nats}
use tts_platform.Billing.Coalescer.{new_coalescer}
use tts_platform.Billing.Calls.{flushes, billable, run_calls, publish_all, Numbered}
use tts_platform.Billing.Tests.{calls, last}
use tts_platform.Metering.Consumer.{Codec, Consumer, message, tick, run, has_usage, find_user}
use tts_platform.Metering.Tests.{tables, price}
use tts_platform.Pipeline.Sent.{Delivers, Refused}
use tts_platform.Pipeline.Billed.{IsCharged, request-Recorded}

-- A text with its length before it, and an integer with its sign
abbrev put_text : Bytes → Bytes → Bytes
put_text s rest = length s ∷ (s ++ rest)

abbrev put_int : ℤ → Bytes → Bytes
put_int (pos n) rest = 0 ∷ n ∷ rest
put_int (negsuc n) rest = 1 ∷ n ∷ rest

abbrev text_of : Bytes → Bytes
text_of [] = []
text_of (n ∷ s) = take n s

abbrev after_text : Bytes → Bytes
after_text [] = []
after_text (n ∷ s) = drop n s

abbrev signed : ℕ → ℕ → ℤ
signed zero n = pos n
signed (suc k) n = negsuc n

abbrev int_of : Bytes → ℤ
int_of (k ∷ n ∷ s) = signed k n
int_of _ = pos 0

abbrev after_int : Bytes → Bytes
after_int (k ∷ n ∷ s) = s
after_int _ = []

encode : Event fixed → Bytes
encode e = put_text e.idempotency_key (
    put_text e.user_id (
      put_text e.request_id
        (put_text e.transport (put_int e.audio_seconds (put_int e.occurred_at [])))))

abbrev decode : Bytes → Event fixed
decode b0 =
    let b1 = after_text b0 in
    let b2 = after_text b1 in
    let b3 = after_text b2 in
    let b4 = after_text b3 in
    record {
      idempotency_key = text_of b0;
      user_id = text_of b1;
      request_id = text_of b2;
      transport = text_of b3;
      audio_seconds = int_of b4;
      occurred_at = int_of (after_int b4);
    }

take-append : (s r : Bytes) → take (length s) (s ++ r) ≡ s
take-append [] r = refl
take-append (c ∷ s) r = ap (λ l. c ∷ l) (take-append s r)

int_of-put_int : (z : ℤ) (r : Bytes) → int_of (put_int z r) ≡ z
int_of-put_int (pos n) r = refl
int_of-put_int (negsuc n) r = refl

after_int-put_int : (z : ℤ) (r : Bytes) → after_int (put_int z r) ≡ r
after_int-put_int (pos n) r = refl
after_int-put_int (negsuc n) r = refl

decode-encode : (e : Event fixed) → decode (encode e) ≡ e
unfolding encode
decode-encode e = simp (take-append, drop-append, int_of-put_int, after_int-put_int)

abbrev queue : Nats fixed
queue = record {
  Bus = List Bytes;
  marshal = λ e. ok (encode e);
  publish = λ subj b bus. (ok tt, bus ++ b ∷ []);
}

abbrev json : Codec fixed
json = record { unmarshal_event = λ b. some (decode b); unmarshal_price = λ b. none }

decode-queue :
    (e : Event fixed) (b : Bytes) → queue.marshal e ≡ ok b → json.unmarshal_event b ≡ some e
decode-queue e b made =
    let same : encode e ≡ b = cc made in ap some (ap decode (sym same) ∙ decode-encode e)

abbrev delivers : Delivers fixed queue json (codes "u1") (codes "r1") (codes "http_stream")
delivers = record {
  sent = λ bus. bus;
  sent-publish = λ b bus accepted. refl;
  unmarshal-marshal = λ e k b key his req tr made. decode-queue e b made;
}

abbrev consumer : Consumer fixed memory json price
consumer = record {
  world = record { redis = empty_memory; db = record { tables = tables; faults = [] } };
  pending = [];
  events_processed = 0;
  debit_errors = 0;
}

request-Recorded_example :
    let bus' =
      (run_calls fixed queue
        (calls ++ flushes last ∷ [])
        (new_coalescer fixed (codes "u1") (codes "r1") (codes "http_stream") (pos 300_000_000))
        []).1 in
    let c' = run fixed memory json price (map message bus' ++ tick ∷ []) consumer in
    (groups : List (List ℤ)) × (events : List (ℤ × Event fixed)) × (concat groups
      ≡ billable fixed calls)
    × Numbered fixed (codes "u1") (codes "r1") (codes "http_stream") 0 groups events
    × (bus' ≡ publish_all fixed queue events [])
    × (Refused fixed queue events []
        ⊎ IsCharged fixed
            (codes "u1")
            (codes "r1")
            (codes "http_stream")
            memory
            json
            price
            groups
            consumer
            c')
unfolding find_user has_usage
request-Recorded_example =
    request-Recorded fixed fixed_add_laws queue memory json (codes "u1") (codes "r1")
      (codes "http_stream") delivers price (pos 300_000_000) calls last [] consumer none refl refl
      refl refl (λ k. refl)
