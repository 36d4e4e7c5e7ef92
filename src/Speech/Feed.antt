-- ===== src/Speech/Feed.antt =====
-- `CopyAudioStream` of api/internal/grpcclient/client.go: the loop over a stream of audio.
use tts_platform.Common.{◌≡◌, refl, List, [], ◌∷◌, arith}
use tts_platform.Common.Results.{Error, Result, ok, err, eof}

-- One turn of the loop: the context is done, or `Recv` fails, or it gives a value. The end of the
-- turns is `io.EOF`.
pub data Turn (A : Type 0) : Type 0 where
  ended : Error → Turn A
  broken : Error → Turn A
  received : A → Turn A

module _ {A S : Type 0} (on_chunk : A → S → Result (Unit {0}) × S) where
  unfoldable pub copy_audio_stream : List (Turn A) → S → Result (Unit {0}) × S
  copy_audio_stream [] s = (ok tt, s)
  copy_audio_stream (ended e ∷ turns) s = (err e, s)
  copy_audio_stream (broken eof ∷ turns) s = (ok tt, s)
  copy_audio_stream (broken e ∷ turns) s = (err e, s)
  copy_audio_stream (received a ∷ turns) s =
      let (r, s') = on_chunk a s in
      let rest = copy_audio_stream turns s' in elim r [ err e ↦ (err e, s') | ok _ ↦ rest ]

  pub copy-received_err :
      (a : A) (turns : List (Turn A)) (s s' : S) (e : Error)
      → on_chunk a s ≡ (err e, s')
      → copy_audio_stream (received a ∷ turns) s ≡ (err e, s')
  unfolding copy_audio_stream
  copy-received_err a turns s s' e h = rw (copy_audio_stream, h, h) refl

  pub copy-received_ok :
      (a : A) (turns : List (Turn A)) (s s' : S)
      → on_chunk a s ≡ (ok tt, s')
      → copy_audio_stream (received a ∷ turns) s ≡ copy_audio_stream turns s'
  unfolding copy_audio_stream
  copy-received_ok a turns s s' h = rw (copy_audio_stream, h, h) refl

  pub copy-broken :
      (e : Error) (turns : List (Turn A)) (s : S) → (copy_audio_stream (broken e ∷ turns) s).1 ≡ s
  unfolding copy_audio_stream
  copy-broken e turns s = ground arith
