-- ===== src/Speech/SubmitTests.antt =====
-- A job that is submitted by a user with a balance.
use tts_platform.Common.{some, none, true, codes}
use tts_platform.Common.Int.{pos}
use tts_platform.Numbers.Fixed.{fixed}
use tts_platform.Valkey.Memory.{memory}
use tts_platform.Speech.Jobs.{TtsRequest}
use tts_platform.Speech.Submit.{IsPaidFor, submit_async, submit_async-Paid}
use tts_platform.Speech.StreamTests.{codec, world}
use tts_platform.Fixtures.{forgetful}

abbrev request : TtsRequest
request = record { text = codes "hi"; voice = none }

submit_async-Paid_example :
    IsPaidFor fixed memory forgetful codec
      (pos 50_000)
      true
      (codes "j1")
      (some (codes "u1"))
      (some request)
      world
      (submit_async fixed memory forgetful codec
        (pos 50_000)
        true
        (codes "j1")
        (some (codes "u1"))
        (some request)
        world).0
      (submit_async fixed memory forgetful codec
        (pos 50_000)
        true
        (codes "j1")
        (some (codes "u1"))
        (some request)
        world).1
submit_async-Paid_example =
    submit_async-Paid fixed memory forgetful codec (pos 50_000) true (codes "j1")
      (some (codes "u1")) (some request) world
