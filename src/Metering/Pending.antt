-- ===== src/Metering/Pending.antt =====
-- The events that wait for the next tick.
use tts_platform.Common.{
  ◌≡◌, sym, ap, ◌∙◌, subst, inl, inr, some, List, [], ◌∷◌, ◌++◌, map, append-nil, append_assoc,
  Bytes, bytes_eq, bytes_eq_iff, Bool-cases, Option-cases, if◌then◌else◌,
}
use tts_platform.Common.Dict.{lookup, insert, lookup-insert_self, lookup-insert_ne}
use tts_platform.Numbers.{Numbers}
use tts_platform.Valkey.{Valkey}
use tts_platform.Billing.Event.{Event}
use tts_platform.Metering.Conserved.{one_for}
use tts_platform.Metering.Consumer.{Codec, Consumer, pending_of, on_message, message, step, run}

module _ (num : Numbers) (vk : Valkey) (codec : Codec num) (ppm : num.Float) where
  -- The events of one user among messages, those that do not decode left out.
  events_for : Bytes → List Bytes → List (Event num)
  events_for user [] = []
  events_for user (msg ∷ msgs) =
      one_for num user (codec.unmarshal_event msg) ++ events_for user msgs

  insert-pending :
      (k user : Bytes) (es : List (Event num)) (c : Consumer num vk codec ppm)
      → pending_of num vk codec ppm user (record c { pending = insert k es c.pending })
        ≡ (if bytes_eq k user then es else pending_of num vk codec ppm user c)
  unfolding pending_of
  insert-pending k user es c = elim (Bool-cases (bytes_eq k user)) [
    | inl same ↦
        let found : lookup user (insert k es c.pending) ≡ some es =
          subst (λ j. lookup user (insert j es c.pending) ≡ some es)
            (sym ((bytes_eq_iff k user).0 same)) (lookup-insert_self user es c.pending) in
        rw (same, found, pending_of)
    | inr other ↦ rw (other, lookup-insert_ne k user es c.pending other, pending_of)
  ]

  on_message-pending :
      (user msg : Bytes) (c : Consumer num vk codec ppm)
      → pending_of num vk codec ppm user (on_message num vk codec ppm msg c)
        ≡ pending_of num vk codec ppm user c ++ one_for num user (codec.unmarshal_event msg)
  unfolding on_message
  on_message-pending user msg c = elim (Option-cases (codec.unmarshal_event msg)) [
    | inl bad ↦ rw (bad, on_message) (sym (append-nil _))
    | inr (e, good) ↦ elim (Bool-cases (bytes_eq e.user_id user)) [
      | inl mine ↦ rw (
        good,
        on_message,
        insert-pending e.user_id user,
        mine,
        (bytes_eq_iff e.user_id user).0 mine,
      )
      | inr other ↦ rw (good, on_message, insert-pending e.user_id user, other) (sym (append-nil _))
    ]
  ]

-- Between two ticks a user's pending events are those that waited before and then the user's among
-- the messages, in the order of arrival. Messages that do not decode change nothing.
run-pending :
    (num : Numbers) (vk : Valkey) (codec : Codec num) (ppm : num.Float) (user : Bytes)
    (msgs : List Bytes) (c : Consumer num vk codec ppm)
    → pending_of num vk codec ppm user (run num vk codec ppm (map message msgs) c)
      ≡ pending_of num vk codec ppm user c ++ events_for num vk codec ppm user msgs
unfolding run step events_for
run-pending num vk codec ppm user [] c = sym (append-nil _)
run-pending num vk codec ppm user (msg ∷ msgs) c =
    run-pending num vk codec ppm user msgs (on_message num vk codec ppm msg c)
    ∙ ap (λ p. p ++ events_for num vk codec ppm user msgs)
        (on_message-pending num vk codec ppm user msg c)
    ∙ append_assoc (pending_of num vk codec ppm user c)
        (one_for num user (codec.unmarshal_event msg)) (events_for num vk codec ppm user msgs)
