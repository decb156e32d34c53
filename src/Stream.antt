-- ===== src/Stream.antt =====
-- `src/stream.rs`: the sinks that do not depend on an encoding library. `utf8::decode`,
-- `utf8::Incomplete` and `utf8::REPLACEMENT_CHARACTER` are parameters as in `Utf8Decode`. The inner
-- sink is the list of what it receives; it owns the tendrils.
pub mod Same
pub mod Process
pub mod One
pub mod Sinks
pub mod Encoding
pub mod EncodingRs
pub mod LossyDecoder
use tendril.Common.{
  ℕ, zero, suc, ◌+◌, ◌-◌, Option, none, some, Result, ok, err, List, [], ◌∷◌, ◌++◌, ◌==◌, map,
  if◌then◌else◌, length, as_u32, sub64,
}
use tendril.Mem.{M, pure, fault, ◌>>=◌, ◌>>◌}
use tendril.Fmt.{bytes}
use tendril.Tendril.{Tendril, as_byte_slice, drop_tendril}
use tendril.Tendril.Checked.{pop_front}
use tendril.Tendril.Extend.{from_slice}
use tendril.Utf8Decode.{
  Decoded, valid_text, invalid, incomplete, TryComplete, unwrap_or, valid_part,
}

-- "invalid byte sequence", "incomplete byte sequence at end of stream", "invalid sequence", and what
-- a decoder of `encoding` says
pub data Desc : Type 0 where
  invalid_byte_sequence incomplete_at_end invalid_sequence : Desc
  cause : List ℕ → Desc

-- A call of `TendrilSink::process` or `TendrilSink::error` on the inner sink.
pub data Event : Type 0 where
  process : Tendril → Event
  error : Desc → Event

-- `Utf8LossyDecoder`, less the inner sink
pub record Utf8LossyDecoder (I : Type 0) : Type 0 where
  pub incomplete : Option I

-- `Utf8LossyDecoder::new`
unfoldable pub new_decoder : {I : Type 0} → Utf8LossyDecoder I
new_decoder = record { incomplete = none }

-- The calls for a character that was broken off.
unfoldable pub resumed_events : Result (List ℕ) (List ℕ) → Tendril → List Event
resumed_events (ok s) t = process t ∷ []
resumed_events (err s) t = error invalid_byte_sequence ∷ process t ∷ []

module _ {I : Type 0} (replacement_character : List ℕ) where
  unfoldable pub finish_with : Option I → M (List Event)
  finish_with none = pure []
  finish_with (some state) = do
    replacement ← from_slice bytes replacement_character
    pure (error incomplete_at_end ∷ process replacement ∷ [])

  -- `Utf8LossyDecoder::finish`
  unfoldable pub finish : Utf8LossyDecoder I → M (List Event)
  finish decoder = finish_with decoder.incomplete

module _ {I : Type 0} (decode : List ℕ → Decoded I) (replacement_character : List ℕ) where
  -- A round of the `while` loop of `process`, with the rounds that follow.
  unfoldable pub process_round :
      (Tendril → M (List Event × Option I)) → Tendril → Decoded I → M (List Event × Option I)
  process_round loop t valid_text = pure (process t ∷ [], none)
  process_round loop t (invalid valid_len invalid_len) = do
    (t, pushed) ← valid_part t valid_len
    replacement ← from_slice bytes replacement_character
    t ← pop_front bytes t (as_u32 (valid_len + invalid_len))
    (more, pending) ← loop t
    pure (map process pushed ++ (error invalid_byte_sequence ∷ process replacement ∷ more), pending)
  process_round loop t (incomplete valid_len suffix) = do
    (t, pushed) ← valid_part t valid_len
    drop_tendril t
    pure (map process pushed, some suffix)

  unfoldable pub process_loop : ℕ → Tendril → M (List Event × Option I)
  process_loop zero t = λ m. fault
  process_loop (suc rounds) t = do
    input ← as_byte_slice t
    if length input == 0
        then (do drop_tendril t; pure ([], none))
        else process_round (process_loop rounds) t (decode input)

  -- The loop from its start; every round but the last one takes a byte at least.
  unfoldable pub process_rest : Tendril → M (List Event × Option I)
  process_rest t = do input ← as_byte_slice t; process_loop (suc (length input)) t

  unfoldable pub resume :
      Tendril → List ℕ → I × Option (Result (List ℕ) (List ℕ) × List ℕ) → M (List Event × Option I)
  resume t input (state, none) = do drop_tendril t; pure ([], some state)
  resume t input (state, some (result, rest)) = do
    first ← from_slice bytes (unwrap_or result replacement_character)
    t ← pop_front bytes t (as_u32 (sub64 (length input) (length rest)))
    (more, pending) ← process_rest t
    pure (resumed_events result first ++ more, pending)

  module _ (try_complete : TryComplete I) where
    unfoldable pub process_with : Option I → Tendril → M (List Event × Option I)
    process_with none t = process_rest t
    process_with (some state) t = do
      input ← as_byte_slice t
      resume t input (try_complete state input)

    -- `Utf8LossyDecoder::process`
    unfoldable pub process_bytes :
        Utf8LossyDecoder I → Tendril → M (Utf8LossyDecoder I × List Event)
    process_bytes decoder t = do
      (events, pending) ← process_with decoder.incomplete t
      pure (record { incomplete = pending }, events)

    -- `TendrilSink::one`
    unfoldable pub one : Utf8LossyDecoder I → Tendril → M (List Event)
    one decoder t = do
      (decoder, events) ← process_bytes decoder t
      last ← finish replacement_character decoder
      pure (events ++ last)

    -- `TendrilSink::from_iter`
    unfoldable pub from_iter : Utf8LossyDecoder I → List Tendril → M (List Event)
    from_iter decoder [] = finish replacement_character decoder
    from_iter decoder (t ∷ rest) = do
      (decoder, events) ← process_bytes decoder t
      more ← from_iter decoder rest
      pure (events ++ more)
