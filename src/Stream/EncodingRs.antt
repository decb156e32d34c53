-- ===== src/Stream/EncodingRs.antt =====
-- `LossyDecoder` of `src/stream.rs` with a decoder of the crate `encoding_rs`, which is a parameter.
pub mod Drain
pub mod Outputs
use tendril.Common.{
  ℕ, zero, suc, Option, none, some, List, [], ◌∷◌, ◌++◌, ltb, ◌==◌, if◌then◌else◌, length, min,
  as_u32, Bool,
}
use tendril.Mem.{M, pure, fault, ◌>>=◌, ◌>>◌}
use tendril.Fmt.{bytes}
use tendril.Fmt.Utf8.{encode_utf8}
use tendril.Tendril.{Tendril, as_byte_slice, drop_tendril}
use tendril.Tendril.Edit.{new, push_uninitialized}
use tendril.Tendril.Checked.{pop_front, subtendril}
use tendril.Tendril.Views.{as_mut_byte_slice, write_slice}
use tendril.Tendril.Extend.{from_slice}
use tendril.Tendril.Convert.{reinterpret_without_validating}
use tendril.Stream.{Event, process, error, invalid_sequence}

pub data DecoderResult : Type 0 where
  input_empty output_full malformed : DecoderResult

-- What `decode_to_utf8_without_replacement` returns, with the decoder and the bytes that it wrote.
pub record Outcome (D : Type 0) : Type 0 where
  pub state : D
  pub result : DecoderResult
  pub read : ℕ
  pub text : List ℕ

-- `encoding_rs::Decoder`. The output is told by its size.
pub record Decoder (D : Type 0) : Type 0 where
  pub max_utf8_buffer_length : D → ℕ → Option ℕ
  pub decode_to_utf8 : D → (input : List ℕ) → (room : ℕ) → (last : Bool) → Outcome D

abbrev pub or_else : ℕ → Option ℕ → ℕ
or_else n none = n
or_else n (some k) = k

unfoldable pub room_for : Option ℕ → ℕ
room_for max_len = min (as_u32 (or_else 8192 max_len)) 8192

-- The part of the output that was written goes to the sink.
unfoldable pub emit_text : Tendril → ℕ → M (Tendril × List Event)
emit_text out bytes_written =
    if ltb 0 bytes_written
    then (do
      (out, text) ← subtendril bytes out 0 (as_u32 bytes_written)
      pure (out, process (reinterpret_without_validating text) ∷ []))
    else pure (out, [])

-- The calls for an invalid sequence.
unfoldable pub emit_malformed : M (List Event)
emit_malformed = do
  replacement ← from_slice bytes (encode_utf8 0xFFFD)
  pure (error invalid_sequence ∷ process replacement ∷ [])

module _ {D : Type 0} (decoder : Decoder D) (last : Bool) where
  -- The end of a round: the next one if there is input left.
  unfoldable pub next_round :
      (D → Tendril → M (D × List Event)) → D → Tendril → Tendril → (read : ℕ) → M (D × List Event)
  next_round loop d t out read = do
    t ← pop_front bytes t (as_u32 read)
    input ← as_byte_slice t
    drop_tendril out
    if length input == 0 then (do drop_tendril t; pure (d, [])) else loop d t

  unfoldable pub after_decode :
      (D → Tendril → M (D × List Event))
      → D
      → Tendril
      → Tendril
      → (read : ℕ) → DecoderResult
      → M (D × List Event)
  after_decode loop d t out read input_empty = do drop_tendril out; drop_tendril t; pure (d, [])
  after_decode loop d t out read output_full = next_round loop d t out read
  after_decode loop d t out read malformed = do
    events ← emit_malformed
    (d, more) ← next_round loop d t out read
    pure (d, events ++ more)

  unfoldable pub decode_to_sink : (rounds : ℕ) → D → Tendril → M (D × List Event)
  decode_to_sink zero d t = λ m. fault
  decode_to_sink (suc rounds) d t = do
    out ← new
    input ← as_byte_slice t
    out ← push_uninitialized out (room_for (decoder.max_utf8_buffer_length d (length input)))
    (out, slice) ← as_mut_byte_slice out
    let o = decoder.decode_to_utf8 d input (length slice) last
    out ← write_slice out 0 o.text
    (out, events) ← emit_text out (length o.text)
    (d, more) ← after_decode (decode_to_sink rounds) o.state t out o.read o.result
    pure (d, events ++ more)

  -- `process`, which does nothing with an empty tendril
  unfoldable pub process_encoding_rs : (rounds : ℕ) → D → Tendril → M (D × List Event)
  process_encoding_rs rounds d t = do
    input ← as_byte_slice t
    if length input == 0 then (do drop_tendril t; pure (d, [])) else decode_to_sink rounds d t
