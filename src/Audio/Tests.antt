-- ===== src/Audio/Tests.antt =====
-- The WAV writer at concrete inputs.
use tts_platform.Common.{◌≡◌, some, [], ◌∷◌, Bytes, arith}
use tts_platform.Common.Int.{pos}
use tts_platform.Audio.Wav.{wrap_wav}
use tts_platform.Audio.Reader.{read_wave, read_wave-wrap_wav}

abbrev pcm : Bytes
pcm = 1 ∷ 2 ∷ 255 ∷ 0 ∷ []

read_wave-wrap_wav_example :
    read_wave (wrap_wav pcm (pos 24000))
    ≡ some (record {
      format = 1;
      channels = 1;
      rate = 24000;
      byte_rate = 48000;
      block_align = 2;
      bits = 16;
      samples = pcm;
    })
read_wave-wrap_wav_example = read_wave-wrap_wav pcm 24000 (omega arith) (omega arith) (omega arith)
