-- ===== src/Live/Wire.antt =====
-- The data of api/internal/ws/live.go: what the client and the service are sent, the points of the
-- two goroutines, and their steps.
use tts_platform.Common.{ℕ, Bool, Option, Bytes}
use tts_platform.Common.Int.{ℤ}
use tts_platform.Common.Results.{Error}
use tts_platform.Numbers.{Numbers}
use tts_platform.Billing.Coalescer.{Readings}
use tts_platform.Speech.Job.{Chunk}

-- `inbound`, a message of the client
pub record Inbound : Type 0 where
  pub kind : Bytes
  pub text : Bytes
  pub final : Bool
  pub voice : Bytes

-- A `LiveTextChunk`, for the inference service
pub record LiveText : Type 0 where
  pub text : Bytes
  pub voice : Bytes
  pub final : Bool

-- What the client is sent: binary messages, and `control` as JSON.
pub data Frame (num : Numbers) : Type 0 where
  ready : Frame num
  audio : Bytes → Frame num
  metadata : ℤ → Frame num
  utterance_done : num.Float → Frame num
  insufficient : num.Float → Frame num
  close : ℕ → Frame num
  failed : Bytes → Frame num
  finished : num.Float → Frame num

pub record Utterance (num : Numbers) : Type 0 where
  pub start : ℤ
  pub last_pcm : ℤ
  pub audio_sec : num.Float
  pub first_byte : Bool
  pub active : Bool

-- Where the goroutine that delivers audio is: at the top of its loop, in `Recv`, past the lock with a
-- chunk, with the budget that it has read, with the budget that it has written, past the test, past
-- the write to the client, or gone.
pub data Writer (num : Numbers) : Type 0 where
  top : Writer num
  receiving : Writer num
  counted : Chunk → Writer num
  weighed : Chunk → num.Float → Writer num
  paid : Chunk → Writer num
  cleared : Chunk → Writer num
  sent : Chunk → Writer num
  gone : Writer num

-- Where the handler is: in its loop, past it, past the final flush, or back.
pub data Reader : Type 0 where
  reading : Reader
  over : Reader
  flushed : Reader
  left : Reader

-- What `Recv` gives: an error, or a chunk with its number and the time.
pub data Received : Type 0 where
  broken : Received
  chunk : Chunk → ℤ → ℤ → Received

-- A message that `ReadMessage` gives, with what befalls it: the error of `SendText`, and the readings
-- of the clock for the start of an utterance, for the test of the refresh and after it.
pub record Message : Type 0 where
  pub raw : Bytes
  pub send_error : Option Error
  pub started : ℤ
  pub checked : ℤ
  pub refreshed : ℤ

-- One step of one of the two, with what it meets.
pub data Event : Type 0 where
  look : Event
  receive : Received → Event
  weigh : Event
  pay : Event
  check : Event
  write : Option Error → Event
  bill : Event
  hear : Message → Event
  hang_up : Event
  flush_all : Readings → Event
  leave : Event
