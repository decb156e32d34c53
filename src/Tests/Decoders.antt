-- ===== src/Tests/Decoders.antt =====
-- Decoders of other crates by example, and the theorems on `LossyDecoder` and `decode` with them.
use tendril.Common.{
  ℕ, ◌*◌, ◌≡◌, refl, false, Option, none, some, List, [], ◌∷◌, ◌++◌, arith, ltb, min, if◌then◌else◌,
  take, length, as_u32,
}
use tendril.Fmt.{bytes}
use tendril.Fmt.Utf8.{encode_utf8}
use tendril.Tendril.Convert.{WriterCall, write_char, write_str, writer_hint, decode}
use tendril.World.Change.{World-swap}
use tendril.World.Extend.{bytes-IsPlain}
use tendril.World.Convert.{texts_of, Decodes, decode_lem}
use tendril.World.Returns.{Returns}
use tendril.Stream.Encoding.{CodecError, RawDecoder, process_encoding}
use tendril.Stream.Encoding.Feed.{process_encoding_lem}
use tendril.Stream.Encoding.Outputs.{Feeds, Emits}
use tendril.Stream.EncodingRs.{malformed, Decoder, room_for, process_encoding_rs}
use tendril.Stream.EncodingRs.Drain.{process_encoding_rs_lem}
use tendril.Stream.EncodingRs.Outputs.{Output, replaced, Remains, Drains, Sent}
use tendril.Stream.EncodingRs.Outputs
use tendril.Tests.Memory
use tendril.Tests.Memory.{mem, front_bytes, back_bytes, mem-World}

-- A decoder that takes a byte from 99 on for an error, and else says that it saw the digits.
abbrev first_bad : List ℕ → List WriterCall × Option CodecError
first_bad [] = (writer_hint 3 ∷ write_char 0x20AC ∷ [], none)
first_bad (b ∷ bs) =
    if ltb b 99
    then (write_str (b ∷ []) ∷ [], none)
    else (write_char b ∷ [], some (record { upto = 5; reason = 63 ∷ [] }))

decode_example :
    Returns
      (Decodes
        (Memory.back ∷ Memory.front ∷ [])
        (back_bytes ∷ front_bytes ∷ [])
        (texts_of (first_bad back_bytes).0)
        (first_bad back_bytes).1)
      (decode bytes first_bad Memory.back mem)
unfolding encode_utf8
decode_example = decode_lem bytes bytes-IsPlain first_bad (omega arith, tt) (World-swap mem-World)

abbrev raw : RawDecoder (Unit {0})
raw = record {
  raw_feed = λ d xs. (d, (first_bad xs).0, (first_bad xs).1);
  raw_finish = λ d. ([], none);
}

abbrev fed_text : List ℕ
fed_text =
    texts_of (first_bad back_bytes).0 ++ (encode_utf8 0xFFFD ++ (texts_of (first_bad []).0 ++ []))

raw-Feeds : Feeds raw 2 tt back_bytes 0 fed_text ((63 ∷ []) ∷ []) tt
unfolding encode_utf8
raw-Feeds = (
  (omega arith, tt),
  _,
  refl,
  (
    _,
    [],
    refl,
    refl,
    omega arith,
    omega arith,
    ((omega arith, (omega arith, tt)), [], refl, (refl, refl, refl)),
  ),
)

process_encoding_example :
    Returns
      (λ (d₁, events) m'.
        (d₁ ≡ tt)
        × Emits (Memory.front ∷ []) (front_bytes ∷ []) fed_text ((63 ∷ []) ∷ []) events m')
      (process_encoding bytes raw 2 tt Memory.back mem)
process_encoding_example =
    process_encoding_lem bytes bytes-IsPlain raw (Memory.front ∷ []) (front_bytes ∷ []) tt 2 tt
      fed_text ((63 ∷ []) ∷ []) raw-Feeds (World-swap mem-World)

-- A decoder that copies up to two bytes, refuses the rest, and takes it all.
abbrev copying : Decoder (Unit {0})
copying = record {
  max_utf8_buffer_length = λ d n. some (n * 3);
  decode_to_utf8 = λ d input room last. record {
    state = tt;
    result = malformed;
    read = length input;
    text = take (min 2 room) input;
  };
}

copied-Remains :
    Remains (Drains copying false 1) tt back_bytes (Outputs.text (99 ∷ 100 ∷ []) ∷ replaced ∷ []) tt
unfolding room_for as_u32
copied-Remains = (omega arith, omega arith, replaced ∷ [], refl, ([], refl, (refl, refl)))

process_encoding_rs_example :
    Returns
      (Sent
        (Memory.front ∷ [])
        (front_bytes ∷ [])
        (Outputs.text (99 ∷ 100 ∷ []) ∷ replaced ∷ [])
        tt)
      (process_encoding_rs copying false 1 tt Memory.back mem)
process_encoding_rs_example =
    process_encoding_rs_lem copying 1 tt tt (Outputs.text (99 ∷ 100 ∷ []) ∷ replaced ∷ [])
      copied-Remains (omega arith) (World-swap mem-World)
