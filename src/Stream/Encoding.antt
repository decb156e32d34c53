-- ===== src/Stream/Encoding.antt =====
-- `LossyDecoder` of `src/stream.rs` with a decoder of the crate `encoding`, which is a parameter:
-- what `raw_feed` and `raw_finish` do to the decoder, the calls that they make on the output, and
-- the error, if there is one, with the number of bytes up to its end and its cause.
pub mod Feed
pub mod Outputs
use tendril.Common.{
  ℕ, zero, suc, Option, none, some, List, [], ◌∷◌, ◌++◌, ltb, if◌then◌else◌, length, as_u32,
}
use tendril.Mem.{M, pure, fault, ◌>>=◌, ◌>>◌}
use tendril.Fmt.{Format, bytes}
use tendril.Tendril.{Tendril, len32, as_byte_slice, drop_tendril}
use tendril.Tendril.Edit.{new}
use tendril.Tendril.Checked.{pop_front}
use tendril.Tendril.Chars.{push_char}
use tendril.Tendril.Convert.{WriterCall, all_written}
use tendril.Stream.{Event, process, error, cause}

-- `encoding::CodecError`, with `upto` where it is not negative
pub record CodecError : Type 0 where
  pub upto : ℕ
  pub reason : List ℕ

-- `encoding::RawDecoder`
pub record RawDecoder (D : Type 0) : Type 0 where
  pub raw_feed : D → List ℕ → D × List WriterCall × Option CodecError
  pub raw_finish : D → List WriterCall × Option CodecError

abbrev pub replacement_char : ℕ
replacement_char = 0xFFFD

-- The sink gets the output, if there is any.
unfoldable pub emit : Tendril → M (List Event)
emit out = do
  text ← as_byte_slice out
  if ltb 0 (length text) then pure (process out ∷ []) else (do drop_tendril out; pure [])

unfoldable pub finish_error : Format → Tendril → Option CodecError → M (Tendril × List Event)
finish_error utf8 out none = pure (out, [])
finish_error utf8 out (some e) = do
  out ← push_char utf8 out replacement_char
  pure (out, error (cause e.reason) ∷ [])

module _ {D : Type 0} (utf8 : Format) (decoder : RawDecoder D) where
  -- A round of the loop, with those that follow.
  unfoldable pub feed_round :
      (D → Tendril → Tendril → M (D × Tendril × Tendril × List Event))
      → Tendril
      → Tendril
      → D × Option CodecError
      → M (D × Tendril × Tendril × List Event)
  feed_round loop t out (d, none) = pure (d, t, out, [])
  feed_round loop t out (d, some e) = do
    out ← push_char utf8 out replacement_char
    t ← pop_front bytes t (as_u32 e.upto)
    (d, t, out, events) ← loop d t out
    pure (d, t, out, error (cause e.reason) ∷ events)

  unfoldable pub feed_loop :
      (rounds : ℕ) → D → Tendril → Tendril → M (D × Tendril × Tendril × List Event)
  feed_loop zero d t out = λ m. fault
  feed_loop (suc rounds) d t out = do
    input ← as_byte_slice t
    let (d, calls, failure) = decoder.raw_feed d input
    out ← all_written utf8 out calls
    feed_round (feed_loop rounds) t out (d, failure)

  -- `process`
  unfoldable pub process_encoding : (rounds : ℕ) → D → Tendril → M (D × List Event)
  process_encoding rounds d t = do
    out ← new
    (d, t, out, events) ← feed_loop rounds d t out
    last ← emit out
    drop_tendril t
    pure (d, events ++ last)

  -- `finish`, less that of the inner sink
  unfoldable pub finish_encoding : D → M (List Event)
  finish_encoding d = do
    out ← new
    let (calls, failure) = decoder.raw_finish d
    out ← all_written utf8 out calls
    (out, events) ← finish_error utf8 out failure
    last ← emit out
    pure (events ++ last)
