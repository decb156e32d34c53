-- ===== src/Utf8Decode.antt =====
-- `src/utf8_decode.rs`: bytes to text, with replacement characters. The crate `utf-8` is not part of
-- the repository: `utf8::decode`, `utf8::Incomplete` with its `try_complete`, and
-- `utf8::REPLACEMENT_CHARACTER` are parameters. The closure `push_utf8` is the list of the tendrils
-- it is called with, in order; it owns them.
pub mod Lossy
pub mod Run
pub mod Complete
use tendril.Common.{
  ℕ, zero, suc, ◌+◌, ◌-◌, Option, none, some, Result, ok, err, List, [], ◌∷◌, ◌++◌, ◌==◌,
  if◌then◌else◌, length, as_u32, sub64,
}
use tendril.Mem.{M, pure, fault, ◌>>=◌, ◌>>◌}
use tendril.Fmt.{bytes}
use tendril.Tendril.{Tendril, as_byte_slice, drop_tendril}
use tendril.Tendril.Checked.{subtendril, pop_front}
use tendril.Tendril.Extend.{from_slice}

-- The result of `utf8::decode` by the lengths of its parts: all of the input, or a valid prefix and
-- the invalid sequence behind it, or a valid prefix and the start of a character.
pub data Decoded (I : Type 0) : Type 0 where
  valid_text : Decoded I
  invalid : (valid_prefix invalid_sequence : ℕ) → Decoded I
  incomplete : (valid_prefix : ℕ) (incomplete_suffix : I) → Decoded I

-- `Incomplete::try_complete` by its new state, and by what it returns: the completed character or
-- the bytes that are none, and the input behind it.
abbrev pub TryComplete : Type 0 → Type 0
TryComplete I = I → List ℕ → I × Option (Result (List ℕ) (List ℕ) × List ℕ)

-- `Result::unwrap_or`
abbrev pub unwrap_or : {E : Type 0} → Result (List ℕ) E → List ℕ → List ℕ
unwrap_or (ok a) other = a
unwrap_or (err e) other = other

-- The slice of a valid prefix, if it is not empty.
unfoldable pub valid_part : Tendril → ℕ → M (Tendril × List Tendril)
valid_part t valid_len =
    if valid_len == 0
    then pure (t, [])
    else (do (t, sub) ← subtendril bytes t 0 (as_u32 valid_len); pure (t, sub ∷ []))

module _ {I : Type 0} (decode : List ℕ → Decoded I) (replacement_character : List ℕ) where
  -- One round of the loop, with the rounds that follow.
  unfoldable pub decode_round :
      (Tendril → M (List Tendril × Option I)) → Tendril → Decoded I → M (List Tendril × Option I)
  decode_round loop t valid_text = pure (t ∷ [], none)
  decode_round loop t (invalid valid_len invalid_len) = do
    (t, pushed) ← valid_part t valid_len
    replacement ← from_slice bytes replacement_character
    t ← pop_front bytes t (as_u32 (valid_len + invalid_len))
    (more, result) ← loop t
    pure (pushed ++ (replacement ∷ more), result)
  decode_round loop t (incomplete valid_len suffix) = do
    (t, pushed) ← valid_part t valid_len
    drop_tendril t
    pure (pushed, some suffix)

  unfoldable pub decode_loop : ℕ → Tendril → M (List Tendril × Option I)
  decode_loop zero t = λ m. fault
  decode_loop (suc rounds) t = do
    input ← as_byte_slice t
    if length input == 0
        then (do drop_tendril t; pure ([], none))
        else decode_round (decode_loop rounds) t (decode input)

  -- Every round but the last one takes a byte at least.
  unfoldable pub decode_utf8_lossy : Tendril → M (List Tendril × Option I)
  decode_utf8_lossy t = do input ← as_byte_slice t; decode_loop (suc (length input)) t

module _ {I : Type 0} (try_complete : TryComplete I) (replacement_character : List ℕ) where
  -- What `try_complete` does with the result of the crate's: the new state, the tendrils pushed, and
  -- the rest of the input.
  unfoldable pub completed :
      Tendril
      → List ℕ
      → I × Option (Result (List ℕ) (List ℕ) × List ℕ)
      → M (I × List Tendril × Result Tendril (Unit {0}))
  completed input bytes_of (state, none) = do drop_tendril input; pure (state, [], err tt)
  completed input bytes_of (state, some (result, rest)) = do
    pushed ← from_slice bytes (unwrap_or result replacement_character)
    input ← pop_front bytes input (as_u32 (sub64 (length bytes_of) (length rest)))
    pure (state, pushed ∷ [], ok input)

  -- `IncompleteUtf8::try_complete`
  unfoldable pub complete_utf8 : I → Tendril → M (I × List Tendril × Result Tendril (Unit {0}))
  complete_utf8 state input = do
    bytes_of ← as_byte_slice input
    completed input bytes_of (try_complete state bytes_of)
