-- ===== src/Live/Session.antt =====
-- `LiveHandler.ServeHTTP` of api/internal/ws/live.go once the socket is open: the variables that its two
-- goroutines share, and what each part of their loops does with them. The metrics are left out.
use tts_platform.Common.{
  Bool, true, false, ◌&&◌, not, Option, none, some, List, [], ◌∷◌, ◌++◌, Bytes, codes, length,
  if◌then◌else◌,
}
use tts_platform.Common.Int.{ℤ, pos, ◌-ℤ◌, ltb_ℤ, div_ℤ}
use tts_platform.Common.Results.{Error}
use tts_platform.Numbers.{Numbers, zero_float}
use tts_platform.Valkey.{Valkey}
use tts_platform.Billing.Event.{Nats}
use tts_platform.Billing.Coalescer.{Coalescer, Readings, new_coalescer, add_pcm, flush}
use tts_platform.Wallet.Cache.{WalletSnapshot, Group, World}
use tts_platform.Speech.Job.{Chunk, chunk_seconds, chunk_cost}
use tts_platform.Live.Wire.{
  LiveText, Frame, ready, audio, metadata, utterance_done, insufficient, close, Utterance, Writer,
  top, counted, paid, cleared, sent, gone, Reader, reading, flushed, Received, broken, chunk,
}

module _ (num : Numbers) where
  -- `flushUtterance`; its two branches differ in the metrics alone
  unfoldable pub flush_utterance : Utterance num → Utterance num
  flush_utterance u = record u { active = false; first_byte = false; audio_sec = zero_float num }

  abbrev pub no_utterance : Utterance num
  no_utterance = record {
    start = pos 0;
    last_pcm = pos 0;
    audio_sec = zero_float num;
    first_byte = false;
    active = false;
  }

module _ (num : Numbers) (nc : Nats num) (vk : Valkey) (group : Group) where
  open num use {Float, add, sub, le}
  open nc use {Bus}

  pub record Session : Type 0 where
    pub writer : Writer num
    pub reader : Reader
    pub cancelled : Bool
    pub budget : Float
    pub price : Float
    pub last_refresh : ℤ
    pub voice : Bytes
    pub total_audio_seconds : Float
    pub utt : Utterance num
    pub coal : Coalescer num
    pub bus : Bus
    pub wallets : World num vk group
    -- what the client and the inference service have been sent
    pub frames : List (Frame num)
    pub texts : List LiveText

  -- The variables when the two loops begin
  unfoldable pub open_session :
      Bytes → Bytes → ℤ → ℤ → WalletSnapshot num → Bus → World num vk group → Session
  open_session user request interval now snap bus wallets = record {
    writer = top;
    reader = reading;
    cancelled = false;
    budget = snap.balance_usd;
    price = snap.price_per_audio_minute_usd;
    last_refresh = now;
    voice = codes "tara";
    total_audio_seconds = zero_float num;
    utt = no_utterance num;
    coal = new_coalescer num user request (codes "websocket") interval;
    bus = bus;
    wallets = wallets;
    frames = ready ∷ [];
    texts = [];
  }

  -- The first byte of an utterance: `metadata` with the milliseconds since its start
  unfoldable pub announce : ℤ → Session → Session
  announce now s =
      if s.utt.active && not s.utt.first_byte
      then record s {
        utt = record s.utt { first_byte = true };
        frames = s.frames ++ metadata (div_ℤ (now -ℤ s.utt.start) 1_000_000) ∷ [];
      }
      else s

  unfoldable pub lengthen : ℤ → Chunk → Session → Session
  lengthen now c s =
      if s.utt.active
      then record s {
        utt = record s.utt {
          audio_sec = add s.utt.audio_sec (chunk_seconds num c);
          last_pcm = now;
        };
      }
      else s

  -- The part under the lock
  unfoldable pub count_chunk : ℤ → Chunk → Session → Session
  unfolding announce lengthen
  count_chunk now c s =
      let s' = lengthen now c (announce now s) in
      record s' {
        total_audio_seconds = add s'.total_audio_seconds (chunk_seconds num c);
        writer = counted c;
      }

  -- The end of an utterance: a chunk with a negative number
  unfoldable pub end_utterance : Session → Session
  unfolding flush_utterance
  end_utterance s = record s {
    utt = flush_utterance num s.utt;
    frames = s.frames ++ utterance_done s.utt.audio_sec ∷ [];
    writer = top;
  }

  unfoldable pub on_received : Received → Session → Session
  unfolding count_chunk end_utterance
  on_received broken s = record s { writer = gone }
  on_received (chunk c seq now) s =
      if ltb_ℤ seq (pos 0)
      then end_utterance s
      else elim c.pcm [ [] ↦ record s { writer = top } | b ∷ pcm ↦ count_chunk now c s ]

  -- `budget -= cost`, with the budget as it was read
  unfoldable pub charge : Chunk → Float → Session → Session
  charge c b s = record s { budget = sub b (chunk_cost num s.price c); writer = paid c }

  unfoldable pub test_budget : Chunk → Session → Session
  test_budget c s =
      if le s.budget (zero_float num)
      then record s {
        frames = s.frames ++ (insufficient s.total_audio_seconds ∷ close 4020 ∷ []);
        cancelled = true;
        writer = gone;
      }
      else record s { writer = cleared c }

  unfoldable pub send_audio : Option Error → Chunk → Session → Session
  send_audio (some e) c s = record s { writer = gone }
  send_audio none c s = record s { frames = s.frames ++ audio c.pcm ∷ []; writer = sent c }

  unfoldable pub bill_chunk : Chunk → Session → Session
  bill_chunk c s =
      let (_, coal', bus') = add_pcm num nc c.readings (length c.pcm) c.sample_rate s.coal s.bus in
      record s { coal = coal'; bus = bus'; writer = top }

  -- The last flush, past the loop
  unfoldable pub close_utterance : Readings → Session → Session
  unfolding flush_utterance
  close_utterance t s =
      let (_, coal', bus') = flush num nc t s.coal s.bus in
      record s { utt = flush_utterance num s.utt; coal = coal'; bus = bus'; reader = flushed }

  -- The start of an utterance
  unfoldable pub begin_utterance : Bool → ℤ → Session → Session
  begin_utterance false now s = s
  begin_utterance true now s = record s {
    utt = record (no_utterance num) { start = now; active = true };
  }
