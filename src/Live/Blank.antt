-- ===== src/Live/Blank.antt =====
-- Whether `strings.TrimSpace` leaves nothing of a text, which need not be ASCII: whether it is a row
-- of white space in UTF-8.
use tts_platform.Common.{ℕ, Bool, true, false, ◌&&◌, ◌||◌, [], ◌∷◌, Bytes, leb, ◌==◌, if◌then◌else◌}

-- How much of a space the last bytes are: none, two bytes of three, and so on.
pub data Scan : Type 0 where
  gap : Scan
  after_c2 : Scan
  after_e1 : Scan
  after_e1_9a : Scan
  after_e2 : Scan
  after_e2_80 : Scan
  after_e2_81 : Scan
  after_e3 : Scan
  after_e3_80 : Scan
  word : Scan

abbrev when : Bool → Scan → Scan
when true s = s
when false s = word

abbrev first_byte : ℕ → Scan
first_byte c =
    if (leb 9 c && leb c 13) || (c == 0x20)
    then gap
    else if c == 0xC2
    then after_c2
    else if c == 0xE1
    then after_e1
    else if c == 0xE2
    then after_e2
    else when (c == 0xE3) after_e3

unfoldable pub scan : Scan → ℕ → Scan
scan gap c = first_byte c
scan after_c2 c = when ((c == 0x85) || (c == 0xA0)) gap
scan after_e1 c = when (c == 0x9A) after_e1_9a
scan after_e1_9a c = when (c == 0x80) gap
scan after_e2 c = if c == 0x80 then after_e2_80 else when (c == 0x81) after_e2_81
scan after_e2_80 c =
    when ((leb 0x80 c && leb c 0x8A) || ((c == 0xA8) || ((c == 0xA9) || (c == 0xAF)))) gap
scan after_e2_81 c = when (c == 0x9F) gap
scan after_e3 c = when (c == 0x80) after_e3_80
scan after_e3_80 c = when (c == 0x80) gap
scan word c = word

abbrev is_gap : Scan → Bool
is_gap gap = true
is_gap _ = false

unfoldable pub blank_from : Scan → Bytes → Bool
unfolding scan
blank_from s [] = is_gap s
blank_from s (c ∷ cs) = blank_from (scan s c) cs

-- `strings.TrimSpace(text) == ""`
unfoldable pub is_blank : Bytes → Bool
unfolding blank_from
is_blank text = blank_from gap text
