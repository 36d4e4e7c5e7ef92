-- ===== src/Synth/Tests.antt =====
-- The limiter with one slot and two handlers.
use tts_platform.Common.{ℕ, ◌≤◌, ◌<◌, ◌≡◌, refl, true, none, some, [], ◌∷◌}
use tts_platform.Common.Int.{negsuc}
use tts_platform.Common.Results.{canceled}
use tts_platform.Synth.Limiter.{Limiter, new, acquire, release}
use tts_platform.Synth.Slots.{
  System, holding, past, Reach, here, next, admit, refuse, arrive, start, start-Reach-slots,
  holder-release,
}

-- One handler has the slot, and the other was cancelled while it waited.
abbrev busy : System
busy = record { limiter = record { cap = 1; held = 1 }; handlers = holding ∷ past ∷ [] }

busy-Reach : Reach (start (negsuc 2)) busy
unfolding start new acquire
busy-Reach =
    next
      (next (next (next here arrive) arrive)
        (admit 0 true none (record { cap = 1; held = 1 }) refl refl))
      (refuse 1 true (some canceled) canceled (record { cap = 1; held = 1 }) refl refl)

start-Reach-slots_example :
    (1 ≤ (new (negsuc 2)).cap) × (0 < (new (negsuc 2)).cap) × (◌≡◌ {A = ℕ} 1 1)
start-Reach-slots_example = start-Reach-slots (negsuc 2) busy busy-Reach

holder-release_example : (l : Limiter) × (release (some busy.limiter) ≡ some (some l))
holder-release_example = holder-release (negsuc 2) busy 0 busy-Reach refl
