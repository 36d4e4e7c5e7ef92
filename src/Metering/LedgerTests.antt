-- ===== src/Metering/LedgerTests.antt =====
-- The ledger at concrete inputs.
use tts_platform.Common.{◌≡◌, refl, some, List, [], ◌∷◌, codes}
use mathlib.Core.List.{Permᴰ}
use tts_platform.Numbers.Fixed.{fixed}
use tts_platform.Valkey.Memory.{memory}
use tts_platform.Metering.Consumer.{run}
use tts_platform.Metering.Ledger.{Posting, Ledger, post_all, gather, waiting}
use tts_platform.Metering.Refines.{HasPosted, run-Ledger}
use tts_platform.Metering.Order.{post_all-perm}
use tts_platform.Metering.Tests.{event, codec, price, tables, consumer, delivered_twice}

run-Ledger_example :
    let c = run fixed memory codec price delivered_twice consumer in
    (ps : List (Posting fixed)) × Ledger fixed
      (gather fixed memory codec price delivered_twice consumer.pending)
      ps
    × HasPosted fixed memory codec price ps consumer c
    × (c.pending ≡ waiting fixed memory codec price delivered_twice consumer.pending)
run-Ledger_example = run-Ledger fixed memory codec price delivered_twice consumer

abbrev first : Posting fixed
first = ((codes "u1", event ∷ []), some (price ∷ []))

abbrev second : Posting fixed
second = ((codes "u2", event ∷ event ∷ []), some (price ∷ price ∷ []))

post_all-perm_example :
    post_all fixed memory codec price (first ∷ second ∷ []) tables.wallets
    ≡ post_all fixed memory codec price (second ∷ first ∷ []) tables.wallets
post_all-perm_example =
    post_all-perm fixed memory codec price (Permᴰ.swap {a = first} {b = second} {l = []} refl refl)
      ((refl, tt), (tt, tt)) tables.wallets
