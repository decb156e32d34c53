-- ===== src/Stream/Encoding/Outputs.antt =====
-- What a `LossyDecoder` with a decoder of `encoding` is to give its sink.
use tendril.Common.{
  ℕ, zero, suc, ◌+◌, ◌≤◌, ◌^◌, ◌≡◌, ◌⊎◌, Option, none, some, List, [], ◌∷◌, ◌++◌, drop, length,
}
use tendril.Mem.{Mem}
use tendril.Fmt.Utf8.{encode_utf8}
use tendril.Tendril.{Tendril}
use tendril.Tendril.Convert.{WriterCall}
use tendril.World.{World}
use tendril.World.Convert.{texts_of, AreSmall}
use tendril.Stream.{Event, process, error, cause}
use tendril.Stream.Encoding.{CodecError, RawDecoder}

-- The text that a decoder puts where it could not go on.
abbrev pub marked : Option CodecError → List ℕ
marked none = []
marked (some e) = encode_utf8 0xFFFD

abbrev pub causes_of : Option CodecError → List (List ℕ)
causes_of none = []
causes_of (some e) = e.reason ∷ []

-- What becomes of the input after an answer of `raw_feed`: nothing is left of it without an error,
-- and with one the decoder goes on behind `upto`.
abbrev pub GoesOn :
    {D : Type 0}
    → (D → List ℕ → (size : ℕ) → List ℕ → List (List ℕ) → D → Type 0)
    → D
    → List ℕ
    → (size : ℕ) → Option CodecError
    → List ℕ
    → List (List ℕ)
    → D
    → Type 0
GoesOn Later d xs size none text causes d' = (text ≡ []) × (causes ≡ []) × (d' ≡ d)
GoesOn Later d xs size (some e) text causes d' =
    (rest : List ℕ) × (more : List (List ℕ)) × (text ≡ encode_utf8 0xFFFD ++ rest)
    × (causes ≡ e.reason ∷ more)
    × (e.upto ≤ length xs)
    × (size + 4 ≤ 2 ^ 31)
    × Later d (drop e.upto xs) (size + length (encode_utf8 0xFFFD)) rest more d'

abbrev pub Answers :
    {D : Type 0}
    → (D → List ℕ → (size : ℕ) → List ℕ → List (List ℕ) → D → Type 0)
    → (size : ℕ) → D × List WriterCall × Option CodecError
    → List ℕ
    → List ℕ
    → List (List ℕ)
    → D
    → Type 0
Answers Later size (d, calls, failure) xs text causes d' =
    AreSmall size calls
    × (rest : List ℕ) × (text ≡ texts_of calls ++ rest)
    × GoesOn Later d xs (size + length (texts_of calls)) failure rest causes d'

module _ {D : Type 0} (decoder : RawDecoder D) where
  -- Within so many calls of `raw_feed` the decoder makes of the bytes `xs` a text, with a replacement
  -- character at each error, and becomes `d'`; with `size` bytes in front no call goes too far.
  abbrev pub Feeds : (rounds : ℕ) → D → List ℕ → (size : ℕ) → List ℕ → List (List ℕ) → D → Type 0
  Feeds zero d xs size text causes d' = ⊥
  Feeds (suc rounds) d xs size text causes d' =
      Answers (Feeds rounds) size (decoder.raw_feed d xs) xs text causes d'

abbrev pub errors : List (List ℕ) → List Event
errors [] = []
errors (c ∷ cs) = error (cause c) ∷ errors cs

-- The calls of the sink: the errors, then the text if it is not empty.
abbrev pub Emits : List Tendril → List (List ℕ) → List ℕ → List (List ℕ) → List Event → Mem → Type 0
Emits ts xss text causes events m =
    ((text ≡ []) × (events ≡ errors causes) × World m ts xss)
    ⊎ ((u : Tendril) × (events ≡ errors causes ++ (process u ∷ [])) × World m (u ∷ ts) (text ∷ xss))
