-- ===== src/Stream/EncodingRs/Outputs.antt =====
-- What a `LossyDecoder` with a decoder of `encoding_rs` is to give its sink.
use tendril.Common.{
  ℕ, zero, suc, ◌≤◌, ◌≡◌, Option, none, some, List, [], ◌∷◌, ◌++◌, Bool, drop, length,
}
use tendril.Mem.{Mem}
use tendril.Fmt.Utf8.{encode_utf8}
use tendril.Tendril.{Tendril}
use tendril.World.{World}
use tendril.Stream.{Event, Desc, process, error, invalid_sequence}
use tendril.Stream.Same.{texts}
use tendril.Stream.EncodingRs.{
  DecoderResult, input_empty, output_full, malformed, Outcome, Decoder, room_for,
}

-- What the sink is to get: text, or an error and a replacement character.
pub data Output : Type 0 where
  text : List ℕ → Output
  replaced : Output

abbrev pub text_of : Output → List ℕ
text_of (text s) = s
text_of replaced = encode_utf8 0xFFFD

abbrev pub texts_of : List Output → List (List ℕ)
texts_of [] = []
texts_of (o ∷ os) = text_of o ∷ texts_of os

-- The errors among the calls, and the places of the texts.
abbrev pub calls_of : List Event → List (Option Desc)
calls_of [] = []
calls_of (process t ∷ es) = none ∷ calls_of es
calls_of (error d ∷ es) = some d ∷ calls_of es

abbrev pub calls_for : List Output → List (Option Desc)
calls_for [] = []
calls_for (text s ∷ os) = none ∷ calls_for os
calls_for (replaced ∷ os) = some invalid_sequence ∷ none ∷ calls_for os

-- Empty text is not passed on.
abbrev pub written_text : List ℕ → List Output
written_text [] = []
written_text (b ∷ bs) = text (b ∷ bs) ∷ []

-- What comes after a round: nothing if the input is used up.
abbrev pub Remains :
    {D : Type 0} → (D → List ℕ → List Output → D → Type 0) → D → List ℕ → List Output → D → Type 0
Remains Later d [] os d' = (os ≡ []) × (d ≡ d')
Remains Later d (x ∷ xs) os d' = Later d (x ∷ xs) os d'

abbrev pub Decodes :
    {D : Type 0}
    → (D → List ℕ → List Output → D → Type 0)
    → DecoderResult
    → D
    → List ℕ
    → List Output
    → D
    → Type 0
Decodes Later input_empty d left os d' = (os ≡ []) × (d ≡ d')
Decodes Later output_full d left os d' = Remains Later d left os d'
Decodes Later malformed d left os d' =
    (rest : List Output) × (os ≡ replaced ∷ rest) × Remains Later d left rest d'

module _ {D : Type 0} (decoder : Decoder D) (last : Bool) where
  abbrev pub outcome : D → List ℕ → Outcome D
  outcome d xs =
      decoder.decode_to_utf8 d xs (room_for (decoder.max_utf8_buffer_length d (length xs))) last

  -- Within so many calls the decoder makes these outputs of the bytes `xs`, stays inside its buffers
  -- and becomes `d'`.
  abbrev pub Drains : (rounds : ℕ) → D → List ℕ → List Output → D → Type 0
  Drains zero d xs os d' = ⊥
  Drains (suc rounds) d xs os d' =
      (length (outcome d xs).text ≤ room_for (decoder.max_utf8_buffer_length d (length xs)))
      × ((outcome d xs).read ≤ length xs)
      × (rest : List Output) × (os ≡ written_text (outcome d xs).text ++ rest)
      × Decodes (Drains rounds) (outcome d xs).result (outcome d xs).state
          (drop (outcome d xs).read xs) rest d'

-- The calls of the sink are those for the outputs, and it owns their texts.
abbrev pub Sent :
    {D : Type 0} → List Tendril → List (List ℕ) → List Output → D → D × List Event → Mem → Type 0
Sent ts xss os d' (d, events) m =
    (d ≡ d')
    × (calls_of events ≡ calls_for os)
    × (length (texts events) ≡ length (texts_of os))
    × World m (texts events ++ ts) (texts_of os ++ xss)
