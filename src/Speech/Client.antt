-- ===== src/Speech/Client.antt =====
-- What the client of api/internal/grpcclient/client.go hands the generated one, and `voicesMeta` and
-- `emotiveTagsMeta` of api/internal/handler/meta.go.
use tts_platform.Common.{Bool, Option, List, [], ◌∷◌, Bytes, codes}
use tts_platform.Common.Results.{Error, Result}
use tts_platform.Speech.Admission.{Health, health_detail}

pub record SynthesizeRequest : Type 0 where
  pub request_id : Bytes
  pub text : Bytes
  pub voice : Bytes

pub record LiveTextChunk : Type 0 where
  pub request_id : Bytes
  pub text : Bytes
  pub voice : Bytes
  pub final : Bool

module _ {ℓ} {Stream : Type ℓ} where
  -- `Synthesize`; `generated` is the method of the generated client.
  unfoldable pub synthesize :
      (SynthesizeRequest → Result Stream) → Bytes → Bytes → Bytes → Result Stream
  synthesize generated request_id text voice =
      generated (record { request_id = request_id; text = text; voice = voice })

-- `SendText`; `send` is the `Send` of the stream.
unfoldable pub send_text :
    (LiveTextChunk → Option Error) → Bytes → Bytes → Bytes → Bool → Option Error
send_text send request_id text voice final =
    send (record { request_id = request_id; text = text; voice = voice; final = final })

-- `Health`
unfoldable pub health : Result Health → Option Error
unfolding health_detail
health answer = let (_, _, e) = health_detail answer in e

pub record VoiceMeta : Type 0 where
  pub id : Bytes
  pub label : Bytes
  pub hint : Bytes

abbrev voice_meta : Bytes → Bytes → Bytes → VoiceMeta
voice_meta id label hint = record { id = id; label = label; hint = hint }

abbrev pub voices_meta : List VoiceMeta
voices_meta =
    voice_meta (codes "tara") (codes "Tara") (codes "Female, conversational, clear")
    ∷ voice_meta (codes "leah") (codes "Leah") (codes "Female, warm, gentle")
    ∷ voice_meta (codes "jess") (codes "Jess") (codes "Female, energetic, youthful")
    ∷ voice_meta (codes "leo") (codes "Leo") (codes "Male, authoritative, deep")
    ∷ voice_meta (codes "dan") (codes "Dan") (codes "Male, friendly, casual")
    ∷ voice_meta (codes "mia") (codes "Mia") (codes "Female, professional, articulate")
    ∷ voice_meta (codes "zac") (codes "Zac") (codes "Male, enthusiastic, dynamic")
    ∷ voice_meta (codes "zoe") (codes "Zoe") (codes "Female, calm, soothing")
    ∷ []

-- The tags of emotions with their labels
abbrev pub emotive_tags_meta : List (Bytes × Bytes)
emotive_tags_meta =
    (codes "<laugh>", codes "Laugh")
    ∷ (codes "<chuckle>", codes "Chuckle")
    ∷ (codes "<sigh>", codes "Sigh")
    ∷ (codes "<cough>", codes "Cough")
    ∷ (codes "<sniffle>", codes "Sniffle")
    ∷ (codes "<groan>", codes "Groan")
    ∷ (codes "<yawn>", codes "Yawn")
    ∷ (codes "<gasp>", codes "Gasp")
    ∷ []

pub record VoicesMeta : Type 0 where
  pub voices : List VoiceMeta
  pub emotive_tags : List (Bytes × Bytes)
  pub notes : Bytes

-- `GetMetaVoices`: the body of its answer
abbrev pub get_meta_voices : VoicesMeta
get_meta_voices = record {
  voices = voices_meta;
  emotive_tags = emotive_tags_meta;
  notes =
      codes
        "English voices for the current model. Insert emotive tags in text; speech is formatted as {voice}: your text.";
}
