-- ===== src/Audio/Wav.antt =====
-- api/internal/audio/wav.go: the WAV container for s16le mono PCM. A byte is a number below 256.
use tts_platform.Common.{
  ℕ, ◌+◌, ◌-◌, ◌/◌, ◌%◌, ◌^◌, [], ◌∷◌, ◌++◌, Bytes, codes, length, if◌then◌else◌,
}
use tts_platform.Common.Int.{ℤ, pos, pos_part, neg_part, leb_ℤ, ◌*ℤ◌}

abbrev pub default_rate : ℤ
default_rate = pos 24000

-- `uint32(n)` of an int: its value modulo 2 ^ 32.
abbrev pub to_uint32 : ℤ → ℕ
to_uint32 n = (pos_part n + 2 ^ 32 - neg_part n % 2 ^ 32) % 2 ^ 32

-- `binary.LittleEndian.PutUint32` and `PutUint16`.
unfoldable pub put_uint32 : ℕ → Bytes
put_uint32 v = v % 256 ∷ v / 256 % 256 ∷ v / 65536 % 256 ∷ v / 16777216 % 256 ∷ []

unfoldable pub put_uint16 : ℕ → Bytes
put_uint16 v = v % 256 ∷ v / 256 % 256 ∷ []

-- The 44 bytes of `hdr`.
unfoldable pub header : ℕ → ℤ → Bytes
header data_size rate =
    codes "RIFF"
    ++ (put_uint32 ((36 + data_size) % 2 ^ 32)
        ++ (codes "WAVEfmt "
            ++ (put_uint32 16
                ++ (put_uint16 1
                    ++ (put_uint16 1
                        ++ (put_uint32 (to_uint32 rate)
                            ++ (put_uint32 (to_uint32 (rate *ℤ pos 2))
                                ++ (put_uint16 2
                                    ++ (put_uint16 16
                                        ++ (codes "data" ++ put_uint32 data_size))))))))))

unfoldable pub wrap_wav : Bytes → ℤ → Bytes
unfolding header
wrap_wav pcm sample_rate =
    let rate = if leb_ℤ sample_rate (pos 0) then default_rate else sample_rate in
    header (length pcm % 2 ^ 32) rate ++ pcm
