-- ===== src/Config/Tests.antt =====
-- The helpers of the configuration at concrete texts.
use tts_platform.Common.{◌≡◌, refl, none, some, codes}
use tts_platform.Common.Int.{pos, negsuc}
use tts_platform.Config.Env.{atoi, env_int, redis_addr}

positive : atoi (codes "16") ≡ some (pos 16)
unfolding atoi
positive = refl

negative : atoi (codes "-5") ≡ some (negsuc 4)
unfolding atoi
negative = refl

underscore : atoi (codes "1_0") ≡ none
unfolding atoi
underscore = refl

too_large : env_int (λ k. codes "9223372036854775808") (codes "RATE_LIMIT_RPM") (pos 60) ≡ pos 60
unfolding env_int
too_large = refl

address : redis_addr (codes "redis://valkey:6379/0") ≡ codes "valkey:6379"
unfolding redis_addr
address = refl
