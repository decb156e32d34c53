-- ===== src/Stream/LossyDecoder.antt =====
-- `LossyDecoder` of `src/stream.rs`: one of three decoders, chosen when it is made.
use tendril.Common.{ℕ, Bool, true, false, List, [], ◌∷◌, if◌then◌else◌}
use tendril.Mem.{M, pure, ◌>>=◌}
use tendril.Fmt.{Format}
use tendril.Tendril.{Tendril}
use tendril.Tendril.Edit.{new}
use tendril.Utf8Decode.{Decoded, TryComplete}
use tendril.Stream.{Desc, Event, error, Utf8LossyDecoder, new_decoder, process_bytes, finish}
use tendril.Stream.Encoding.{RawDecoder, process_encoding, finish_encoding}
use tendril.Stream.EncodingRs.{Decoder, process_encoding_rs, decode_to_sink}

pub data LossyDecoder (I D E : Type 0) : Type 0 where
  utf8 : Utf8LossyDecoder I → LossyDecoder I D E
  encoding : D → LossyDecoder I D E
  encoding_rs : E → LossyDecoder I D E

-- `LossyDecoder::utf8`
unfoldable pub new_utf8 : {I D E : Type 0} → LossyDecoder I D E
new_utf8 = utf8 new_decoder

-- `new` and `new_encoding_rs`, with the test whether the encoding is UTF-8
unfoldable pub new_lossy : {I D E : Type 0} → (is_utf8 : Bool) → D → LossyDecoder I D E
new_lossy is_utf8 raw_decoder = if is_utf8 then new_utf8 else encoding raw_decoder

unfoldable pub new_encoding_rs : {I D E : Type 0} → (is_utf8 : Bool) → E → LossyDecoder I D E
new_encoding_rs is_utf8 decoder = if is_utf8 then new_utf8 else encoding_rs decoder

-- `error`, which goes to the inner sink from each of the three
unfoldable pub lossy_error : Desc → List Event
lossy_error desc = error desc ∷ []

module _ {I D E : Type 0} (decode : List ℕ → Decoded I) (replacement_character : List ℕ)
    (try_complete : TryComplete I) (format : Format) (raw : RawDecoder D) (decoder : Decoder E)
    (rounds : ℕ) where
  unfoldable pub lossy_process : LossyDecoder I D E → Tendril → M (LossyDecoder I D E × List Event)
  lossy_process (utf8 u) t = do
    (u, events) ← process_bytes decode replacement_character try_complete u t
    pure (utf8 u, events)
  lossy_process (encoding d) t = do
    (d, events) ← process_encoding format raw rounds d t
    pure (encoding d, events)
  lossy_process (encoding_rs e) t = do
    (e, events) ← process_encoding_rs decoder false rounds e t
    pure (encoding_rs e, events)

  -- Less `finish` of the inner sink.
  unfoldable pub lossy_finish : LossyDecoder I D E → M (List Event)
  lossy_finish (utf8 u) = finish replacement_character u
  lossy_finish (encoding d) = finish_encoding format raw d
  lossy_finish (encoding_rs e) = do
    t ← new
    (_, events) ← decode_to_sink decoder true rounds e t
    pure events
