-- ===== src/Synth/Limiter.antt =====
-- api/internal/synthlimit/limit.go: a buffered channel bounds the syntheses that run at once. A nil
-- limiter is `none`. A call that would block has no outcome, which is `none` too.
use tts_platform.Common.{ℕ, suc, ◌-◌, Bool, true, false, Option, none, some, ltb, if◌then◌else◌}
use tts_platform.Common.Int.{ℤ, pos, pos_part, leb_ℤ}
use tts_platform.Common.Results.{Error, Result, ok, err}

-- The channel's capacity and the number of values in its buffer.
pub record Limiter : Type 0 where
  pub cap : ℕ
  pub held : ℕ

unfoldable pub new : ℤ → Limiter
new max = record { cap = if leb_ℤ max (pos 0) then 1 else pos_part max; held = 0 }

-- The send, if the buffer has room.
unfoldable pub send : Limiter → Option Limiter
send l = if ltb l.held l.cap then some (record l { held = suc l.held }) else none

-- The receive, if the buffer is not empty.
unfoldable pub receive : Limiter → Option Limiter
receive l = if ltb 0 l.held then some (record l { held = l.held - 1 }) else none

-- `select` takes a case that is ready, either one if both are (`pick` says which).
unfoldable pub select :
    Bool → Limiter → Option Limiter → Option Error → Option (Result (Unit {0}) × Option Limiter)
select pick l none none = none
select pick l (some sent) none = some (ok tt, some sent)
select pick l none (some e) = some (err e, some l)
select true l (some sent) (some e) = some (ok tt, some sent)
select false l (some sent) (some e) = some (err e, some l)

-- `Acquire`: `ended` is the context's error once it is done.
unfoldable pub acquire :
    Bool → Option Error → Option Limiter → Option (Result (Unit {0}) × Option Limiter)
unfolding select send
acquire pick ended none = some (ok tt, none)
acquire pick ended (some l) = select pick l (send l) ended

unfoldable pub release : Option Limiter → Option (Option Limiter)
unfolding receive
release none = some none
release (some l) = elim (receive l) [ none ↦ none | some l' ↦ some (some l') ]
