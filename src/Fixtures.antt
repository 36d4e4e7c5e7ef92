-- ===== src/Fixtures.antt =====
-- What the tests of several components share.
use tts_platform.Common.{none, List, ◌∷◌, Bytes}
use tts_platform.Common.Results.{ok}
use tts_platform.Numbers.Fixed.{fixed}
use tts_platform.Billing.Event.{Nats}
use tts_platform.Wallet.Cache.{Group}

-- A connection that records the keys of the events that are published, and never fails.
abbrev pub recorder : Nats fixed
recorder = record {
  Bus = List Bytes;
  marshal = λ e. ok e.idempotency_key;
  publish = λ subj b bus. (ok tt, b ∷ bus);
}

-- A group that keeps nothing
abbrev pub forgetful : Group
forgetful = record {
  Cache = Unit {0};
  lookup = λ k c. (none, c);
  fill = λ k b c. c;
  remove = λ k c. (ok tt, c);
}
