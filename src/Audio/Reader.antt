-- ===== src/Audio/Reader.antt =====
-- A reader of RIFF/WAVE files with one `fmt ` chunk of 16 bytes and one `data` chunk, against which
-- the writer is checked.
use tts_platform.Common.{
  ℕ, ◌+◌, ◌*◌, ◌^◌, ◌<◌, ◌≡◌, refl, Bool, true, ◌&&◌, Option, none, some, ◌∷◌, Bytes, codes,
  bytes_eq, length, take, drop, arith, ◌==◌, if◌then◌else◌,
}
use tts_platform.Common.Int.{ℤ, pos, leb_ℤ, ◌*ℤ◌}
use tts_platform.Audio.Wav.{put_uint32, put_uint16, wrap_wav}

pub record Wave : Type 0 where
  pub format : ℕ
  pub channels : ℕ
  pub rate : ℕ
  pub byte_rate : ℕ
  pub block_align : ℕ
  pub bits : ℕ
  pub samples : Bytes

read_uint32 : Bytes → ℕ
read_uint32 (a ∷ b ∷ c ∷ d ∷ s) = a + 256 * b + 65536 * c + 16777216 * d
read_uint32 s = 0

read_uint16 : Bytes → ℕ
read_uint16 (a ∷ b ∷ s) = a + 256 * b
read_uint16 s = 0

-- The tags stand in their places, and the two sizes are those of the file and of what follows.
is_wave : Bytes → Bool
unfolding read_uint32
is_wave s =
    bytes_eq (take 4 s) (codes "RIFF")
    && ((read_uint32 (drop 4 s) + 8 == length s)
        && (bytes_eq (take 8 (drop 8 s)) (codes "WAVEfmt ")
            && ((read_uint32 (drop 16 s) == 16)
                && (bytes_eq (take 4 (drop 36 s)) (codes "data")
                    && (read_uint32 (drop 40 s) == length (drop 44 s))))))

pub read_wave : Bytes → Option Wave
unfolding is_wave read_uint16
read_wave s =
    if is_wave s
    then some (record {
      format = read_uint16 (drop 20 s);
      channels = read_uint16 (drop 22 s);
      rate = read_uint32 (drop 24 s);
      byte_rate = read_uint32 (drop 28 s);
      block_align = read_uint16 (drop 32 s);
      bits = read_uint16 (drop 34 s);
      samples = drop 44 s;
    })
    else none

-- A reader finds in `WrapWAV(pcm, rate)` uncompressed mono audio of 16 bits at this rate, with
-- these very bytes and with sizes that fit, if the rate is positive and below 2^31 and the file's
-- size fits its field of 32 bits.
pub read_wave-wrap_wav :
    (pcm : Bytes) (rate : ℕ)
    → 0 < rate
    → rate < 2 ^ 31
    → length pcm + 36 < 2 ^ 32
    → read_wave (wrap_wav pcm (pos rate))
      ≡ some (record {
        format = 1;
        channels = 1;
        rate = rate;
        byte_rate = rate * 2;
        block_align = 2;
        bits = 16;
        samples = pcm;
      })
unfolding read_wave wrap_wav put_uint32 put_uint16 ◌*ℤ◌
read_wave-wrap_wav pcm rate h0 h1 h2 = ground arith

-- `WrapWAV` puts 44 bytes before the audio and changes no byte of it, whatever the rate, and a rate
-- that is not positive is written as 24000.
pub wrap_wav-layout :
    (pcm : Bytes) (rate : ℤ)
    → (length (wrap_wav pcm rate) ≡ 44 + length pcm)
      × (drop 44 (wrap_wav pcm rate) ≡ pcm)
      × (leb_ℤ rate (pos 0) ≡ true → wrap_wav pcm rate ≡ wrap_wav pcm (pos 24000))
unfolding wrap_wav put_uint32 put_uint16
wrap_wav-layout pcm rate = (omega arith, refl, λ h. rw h)
