-- ===== src/Metering/Conserved.antt =====
-- No event is lost or made up between a message and the batch that a tick takes.
use tts_platform.Common.{
  ◌≡◌, ◌≢◌, refl, sym, ap, subst, ◌∙◌, inl, inr, false, Option, none, some, List, [], ◌∷◌, ◌++◌,
  append-nil, append_assoc, Bytes, All, All-append, bytes_eq, bytes_eq_iff, bytes_eq_comm,
  Bool-cases, if◌then◌else◌,
}
use tts_platform.Common.Dict.{lookup, insert}
use tts_platform.Numbers.{Numbers}
use tts_platform.Valkey.{Valkey}
use tts_platform.Billing.Event.{Event}
use tts_platform.Metering.Consumer.{Codec, Consumer, Happening, message, tick, run}
use tts_platform.Metering.Ledger.{Batch, collected, add_to, take_in, gather, waiting}
use tts_platform.Metering.Refines.{run-Ledger}

module _ (num : Numbers) where
  -- No user has two batches, and no batch is empty.
  abbrev pub IsOther : Bytes → Batch num → Type 0
  IsOther user (u, es) = bytes_eq u user ≡ false

  abbrev pub IsPending : List (Batch num) → Type 0
  IsPending [] = Unit {0}
  IsPending ((u, es) ∷ m) = All (IsOther u) m × (es ≢ []) × IsPending m

  abbrev pub one_for : Bytes → Option (Event num) → List (Event num)
  one_for user none = []
  one_for user (some e) = if bytes_eq e.user_id user then e ∷ [] else []

  collected-append :
      (user : Bytes) (bs cs : List (Batch num))
      → collected num user (bs ++ cs) ≡ collected num user bs ++ collected num user cs
  collected-append user [] cs = refl
  collected-append user ((u, es) ∷ bs) cs =
      ap (λ l. (if bytes_eq u user then es else []) ++ l) (collected-append user bs cs)
      ∙ sym (
          append_assoc (if bytes_eq u user then es else []) (collected num user bs)
            (collected num user cs))

  collected-other :
      (user : Bytes) (m : List (Batch num)) → All (IsOther user) m → collected num user m ≡ []
  collected-other user [] h = refl
  collected-other user ((u, es) ∷ m) (ne, h) = rw ne (collected-other user m h)

  insert-Other :
      (j k : Bytes) (v : List (Event num)) (m : List (Batch num))
      → bytes_eq k j ≡ false
      → All (IsOther j) m
      → All (IsOther j) (insert k v m)
  insert-Other j k v [] ne h = (ne, tt)
  insert-Other j k v ((i, w) ∷ m) ne (h0, h) = elim (Bool-cases (bytes_eq i k)) [
    | inl same ↦ rw same (ne, h)
    | inr other ↦ rw other (h0, insert-Other j k v m ne h)
  ]

  add_to-ne-nil : (o : Option (List (Event num))) (e : Event num) → add_to num o e ≢ []
  add_to-ne-nil none e h = cc h
  add_to-ne-nil (some []) e h = cc h
  add_to-ne-nil (some (x ∷ es)) e h = cc h

  abbrev added : Bytes → Event num → List (Batch num) → List (Batch num)
  added k e m = insert k (add_to num (lookup k m) e) m

  lookup-other :
      (k j : Bytes) (es : List (Event num)) (m : List (Batch num))
      → bytes_eq j k ≡ false
      → lookup k ((j, es) ∷ m) ≡ lookup k m
  lookup-other k j es m ne = rw ne

  insert-other :
      (k j : Bytes) (v es : List (Event num)) (m : List (Batch num))
      → bytes_eq j k ≡ false
      → insert k v ((j, es) ∷ m) ≡ (j, es) ∷ insert k v m
  insert-other k j v es m ne = rw ne

  added-other :
      (k j : Bytes) (e : Event num) (es : List (Event num)) (m : List (Batch num))
      → bytes_eq j k ≡ false
      → added k e ((j, es) ∷ m) ≡ (j, es) ∷ added k e m
  added-other k j e es m ne =
      ap (λ o. insert k (add_to num o e) ((j, es) ∷ m)) (lookup-other k j es m ne)
      ∙ insert-other k j (add_to num (lookup k m) e) es m ne

  added-IsPending :
      (k : Bytes) (e : Event num) (m : List (Batch num)) → IsPending m → IsPending (added k e m)
  added-IsPending k e [] h = (tt, add_to-ne-nil none e, tt)
  added-IsPending k e ((j, es) ∷ m) (alone, full, h) = elim (Bool-cases (bytes_eq j k)) [
    | inl same ↦ rw same (rw (← (bytes_eq_iff j k).0 same) alone, add_to-ne-nil (some es) e, h)
    | inr other ↦ subst IsPending (sym (added-other k j e es m other)) (
      insert-Other j k (add_to num (lookup k m) e) m (bytes_eq_comm k j ∙ other) alone,
      full,
      added-IsPending k e m h,
    )
  ]

  added-collected :
      (user k : Bytes) (e : Event num) (m : List (Batch num))
      → IsPending m
      → collected num user (added k e m)
        ≡ collected num user m ++ (if bytes_eq k user then e ∷ [] else [])
  added-collected user k e [] h = append-nil _
  added-collected user k e ((j, es) ∷ m) (alone, full, h) = elim (Bool-cases (bytes_eq j k)) [
    | inl same ↦ elim (Bool-cases (bytes_eq k user)) [
      | inl mine ↦
          let nobody : collected num user m ≡ [] = collected-other user m (
            subst (λ u. All (IsOther u) m)
              ((bytes_eq_iff j k).0 same ∙ (bytes_eq_iff k user).0 mine) alone) in
          rw (same, mine, (bytes_eq_iff j k).0 same, mine, nobody) (simp append-nil)
      | inr other ↦ rw (same, other, (bytes_eq_iff j k).0 same, other) (sym (append-nil _))
    ]
    | inr other ↦
        ap (collected num user) (added-other k j e es m other)
        ∙ (ap (λ l. (if bytes_eq j user then es else []) ++ l) (added-collected user k e m h)
            ∙ sym (append_assoc (if bytes_eq j user then es else []) (collected num user m) _))
  ]

  take_in-IsPending :
      (o : Option (Event num)) (m : List (Batch num)) → IsPending m → IsPending (take_in num o m)
  take_in-IsPending none m h = h
  take_in-IsPending (some e) m h = added-IsPending e.user_id e m h

  take_in-collected :
      (user : Bytes) (o : Option (Event num)) (m : List (Batch num))
      → IsPending m
      → collected num user (take_in num o m) ≡ collected num user m ++ one_for user o
  take_in-collected user none m h = sym (append-nil _)
  take_in-collected user (some e) m h = added-collected user e.user_id e m h

module _ (num : Numbers) (vk : Valkey) (codec : Codec num) (ppm : num.Float) where
  -- The events of one user among the messages of a run, those that do not decode left out
  abbrev pub events_for : Bytes → List (Happening num vk codec ppm) → List (Event num)
  events_for user [] = []
  events_for user (tick ∷ xs) = events_for user xs
  events_for user (message msg ∷ xs) =
      one_for num user (codec.unmarshal_event msg) ++ events_for user xs

  gather-collected :
      (user : Bytes) (xs : List (Happening num vk codec ppm)) (m : List (Batch num))
      → IsPending num m
      → collected num user (gather num vk codec ppm xs m)
          ++ collected num user (waiting num vk codec ppm xs m)
        ≡ collected num user m ++ events_for user xs
  gather-collected user [] m h = sym (append-nil _)
  gather-collected user (tick ∷ xs) m h =
      ap (λ l. l ++ collected num user (waiting num vk codec ppm xs []))
        (collected-append num user m (gather num vk codec ppm xs []))
      ∙ append_assoc (collected num user m) _ _
      ∙ ap (λ l. collected num user m ++ l) (gather-collected user xs [] tt)
  gather-collected user (message msg ∷ xs) m h =
      gather-collected user xs (take_in num (codec.unmarshal_event msg) m)
        (take_in-IsPending num (codec.unmarshal_event msg) m h)
      ∙ ap (λ l. l ++ events_for user xs)
          (take_in-collected num user (codec.unmarshal_event msg) m h)
      ∙ append_assoc (collected num user m) _ _

  IsPending-Filled : (m : List (Batch num)) → IsPending num m → All (λ b. b.1 ≢ []) m
  IsPending-Filled [] h = tt
  IsPending-Filled ((u, es) ∷ m) (alone, full, h) = (full, IsPending-Filled m h)

  gather-Filled :
      (xs : List (Happening num vk codec ppm)) (m : List (Batch num))
      → IsPending num m
      → All (λ b. b.1 ≢ []) (gather num vk codec ppm xs m)
  gather-Filled [] m h = tt
  gather-Filled (tick ∷ xs) m h =
      All-append (λ b. b.1 ≢ []) m (gather num vk codec ppm xs []) (IsPending-Filled m h)
        (gather-Filled xs [] tt)
  gather-Filled (message msg ∷ xs) m h =
      gather-Filled xs (take_in num (codec.unmarshal_event msg) m)
        (take_in-IsPending num (codec.unmarshal_event msg) m h)

-- From a state in which each user has at most one batch and no batch is empty, a run loses no event and makes
-- none up: for each user, the events of the batches that its ticks took, and after them those that still
-- wait, are the user's events that waited at the start and then the user's among the messages, in the order of
-- arrival. No batch that a tick took is empty, so that its first event exists.
pub run-collected :
    (num : Numbers) (vk : Valkey) (codec : Codec num) (ppm : num.Float) (user : Bytes)
    (xs : List (Happening num vk codec ppm)) (c : Consumer num vk codec ppm)
    → IsPending num c.pending
    → (collected num user (gather num vk codec ppm xs c.pending)
          ++ collected num user (run num vk codec ppm xs c).pending
        ≡ collected num user c.pending ++ events_for num vk codec ppm user xs)
      × All (λ b. b.1 ≢ []) (gather num vk codec ppm xs c.pending)
run-collected num vk codec ppm user xs c h =
    let (ps, ledger, posted, left) = run-Ledger num vk codec ppm xs c in
    (
      ap (λ m. collected num user (gather num vk codec ppm xs c.pending) ++ collected num user m)
            left
          ∙ gather-collected num vk codec ppm user xs c.pending h,
      gather-Filled num vk codec ppm xs c.pending h,
    )
