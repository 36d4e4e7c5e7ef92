-- ===== src/Pipeline/Taken.antt =====
-- The messages of one user, taken by one tick.
use tts_platform.Common.{
  ◌≡◌, refl, sym, ap, ◌∙◌, some, List, [], ◌∷◌, ◌++◌, append-nil, append_assoc, map, Bytes,
  bytes_eq, bytes_eq_iff, true, All,
}
use tts_platform.Numbers.{Numbers}
use tts_platform.Valkey.{Valkey}
use tts_platform.Billing.Event.{Event}
use tts_platform.Metering.Consumer.{
  Codec, Consumer, Happening, message, tick, on_message, step, run, flush, flush_batch, flush_user,
}
use tts_platform.Metering.Ledger.{Batch, take_in}
use tts_platform.Metering.Refines.{on_message-take_in}
use tts_platform.Pipeline.Sent.{Reads}

module _ (num : Numbers) (user : Bytes) where
  abbrev pub IsHis : Event num → Type 0
  IsHis e = e.user_id ≡ user

  take_in_first : (e : Event num) → IsHis e → take_in num (some e) [] ≡ (user, e ∷ []) ∷ []
  take_in_first e h = ap (λ u. (u, e ∷ []) ∷ []) h

  take_in_more :
      (e : Event num) (old : List (Event num))
      → IsHis e
      → take_in num (some e) ((user, old) ∷ []) ≡ (user, old ++ e ∷ []) ∷ []
  take_in_more e old h =
      let same : bytes_eq user e.user_id ≡ true = (bytes_eq_iff user e.user_id).1 (sym h) in
      rw same (ap (λ u. (u, old ++ e ∷ []) ∷ []) h)

module _ (num : Numbers) (vk : Valkey) (codec : Codec num) (ppm : num.Float) (user : Bytes) where
  abbrev pub messages : List Bytes → List (Happening num vk codec ppm)
  messages bs = map message bs

  run-append :
      (xs ys : List (Happening num vk codec ppm)) (c : Consumer num vk codec ppm)
      → run num vk codec ppm (xs ++ ys) c ≡ run num vk codec ppm ys (run num vk codec ppm xs c)
  unfolding run
  run-append [] ys c = refl
  run-append (x ∷ xs) ys c = run-append xs ys (step num vk codec ppm x c)

  abbrev waits_with : List (Batch num) → Consumer num vk codec ppm → Consumer num vk codec ppm
  waits_with p c = record c { pending = p }

  on_message-read :
      (b : Bytes) (e : Event num) (p : List (Batch num)) (c : Consumer num vk codec ppm)
      → codec.unmarshal_event b ≡ some e
      → on_message num vk codec ppm b (waits_with p c) ≡ waits_with (take_in num (some e) p) c
  on_message-read b e p c read =
      on_message-take_in num vk codec ppm b (waits_with p c)
      ∙ ap (λ o. waits_with (take_in num o p) c) read

  run_more :
      (bs : List Bytes) (es old : List (Event num)) (c : Consumer num vk codec ppm)
      → Reads num codec bs es
      → All (IsHis num user) es
      → run num vk codec ppm (messages bs) (waits_with ((user, old) ∷ []) c)
        ≡ waits_with ((user, old ++ es) ∷ []) c
  unfolding run step
  run_more [] [] old c r h = ap (λ l. waits_with ((user, l) ∷ []) c) (sym (append-nil old))
  run_more [] (e ∷ es) old c r h = absurd r
  run_more (b ∷ bs) [] old c r h = absurd r
  run_more (b ∷ bs) (e ∷ es) old c (read, r) (he, h) =
      ap (run num vk codec ppm (messages bs)) (
        on_message-read b e ((user, old) ∷ []) c read
        ∙ ap (λ p. waits_with p c) (take_in_more num user e old he))
      ∙ run_more bs es (old ++ e ∷ []) c r h
      ∙ ap (λ l. waits_with ((user, l) ∷ []) c) (append_assoc old (e ∷ []) es)

  -- One tick after a user's events debits them as one batch.
  pub run_batch :
      (b : Bytes) (e : Event num) (bs : List Bytes) (es : List (Event num))
      (c : Consumer num vk codec ppm)
      → Reads num codec (b ∷ bs) (e ∷ es)
      → All (IsHis num user) (e ∷ es)
      → run num vk codec ppm (messages (b ∷ bs) ++ tick ∷ []) (waits_with [] c)
        ≡ flush_user num vk codec ppm (user, e ∷ es) (waits_with [] c)
  unfolding run step flush flush_batch
  run_batch b e bs es c (read, r) (he, h) =
      run-append (messages (b ∷ bs)) (tick ∷ []) (waits_with [] c)
      ∙ ap (flush num vk codec ppm) (
          ap (run num vk codec ppm (messages bs))
            (on_message-read b e [] c read ∙ ap (λ p. waits_with p c) (take_in_first num user e he))
          ∙ run_more bs es (e ∷ []) c r h)
