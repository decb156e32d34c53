-- ===== src/Tendril/Chars.antt =====
-- The methods of `src/tendril.rs` on characters: `pop_front_char`, `pop_front_char_run`,
-- `try_push_char`, `push_char` and `from_char`.
use tendril.Common.{
  ℕ, Bool, not, Option, none, some, Result, ok, err, List, [], ◌∷◌, ◌==◌, if◌then◌else◌, as_u32,
}
use tendril.Mem.{M, pure, ◌>>=◌}
use tendril.Fmt.{Format, ascii, latin1, single_byte_char_indices, encode_ascii, encode_latin1}
use tendril.Fmt.Utf8.{char_indices, encode_utf8}
use tendril.Tendril.{Tendril, as_byte_slice, clone}
use tendril.Tendril.Edit.{
  new, clear, push_bytes_without_validating, unsafe_subtendril, unsafe_pop_front,
}

-- `trait CharFormat`: the iterator as the list of what it yields, and the bytes that `encode_char`
-- hands to its continuation.
pub record CharFormat : Type 0 where
  pub format : Format
  pub indices : List ℕ → List (ℕ × ℕ)
  pub encode : ℕ → Option (List ℕ)

abbrev pub ascii_chars : CharFormat
ascii_chars = record { format = ascii; indices = single_byte_char_indices 0; encode = encode_ascii }

abbrev pub latin1_chars : CharFormat
latin1_chars = record {
  format = latin1;
  indices = single_byte_char_indices 0;
  encode = encode_latin1;
}

-- `UTF8`, whose other checks are a parameter
abbrev pub utf8_chars : Format → CharFormat
utf8_chars format = record {
  format = format;
  indices = char_indices;
  encode = λ c. some (encode_utf8 c);
}

-- The first character, and the bytes to skip, or 0 to clear.
unfoldable pub first_char : List (ℕ × ℕ) → Option ℕ × ℕ
first_char [] = (none, 0)
first_char ((i, c) ∷ []) = (some c, 0)
first_char ((i, c) ∷ (n, d) ∷ rest) = (some c, as_u32 n)

-- `chars.find(…)`: the index of the first character of another class
unfoldable pub first_mismatch {ℓ} :
    {R : Type ℓ} → (R → R → Bool) → (ℕ → R) → R → List (ℕ × ℕ) → Option ℕ
first_mismatch same classify class [] = none
first_mismatch same classify class ((i, c) ∷ rest) =
    if not (same (classify c) class) then some i else first_mismatch same classify class rest

module _ (chars : CharFormat) where
  unfoldable pub pop_front_char : Tendril → M (Tendril × Option ℕ)
  pop_front_char t = do
    bytes ← as_byte_slice t
    let (next_char, skip) = first_char (chars.indices bytes)
    t ← (if not (skip == 0) then unsafe_pop_front t skip else clear t)
    pure (t, next_char)

  -- The two ends of `pop_front_char_run`.
  unfoldable pub split_run :
      {R : Type 0} → Tendril → R → Option ℕ → M (Tendril × Option (Tendril × R))
  split_run t class (some idx) = do
    (t, run) ← unsafe_subtendril t 0 (as_u32 idx)
    t ← unsafe_pop_front t (as_u32 idx)
    pure (t, some (run, class))
  split_run t class none = do (t, run) ← clone t; t ← clear t; pure (t, some (run, class))

  unfoldable pub run_of :
      {R : Type 0}
      → (R → R → Bool)
      → (ℕ → R)
      → Tendril
      → List (ℕ × ℕ)
      → M (Tendril × Option (Tendril × R))
  run_of same classify t [] = pure (t, none)
  run_of same classify t ((_, first) ∷ rest) =
      split_run t (classify first) (first_mismatch same classify (classify first) rest)

  unfoldable pub pop_front_char_run :
      {R : Type 0} → (R → R → Bool) → (ℕ → R) → Tendril → M (Tendril × Option (Tendril × R))
  pop_front_char_run same classify t = do
    bytes ← as_byte_slice t
    run_of same classify t (chars.indices bytes)

  unfoldable pub encoded : Tendril → Option (List ℕ) → M (Tendril × Result (Unit {0}) (Unit {0}))
  encoded t none = pure (t, err tt)
  encoded t (some b) = do t ← push_bytes_without_validating chars.format t b; pure (t, ok tt)

  unfoldable pub try_push_char : Tendril → ℕ → M (Tendril × Result (Unit {0}) (Unit {0}))
  try_push_char t c = encoded t (chars.encode c)

-- For `Tendril<UTF8>`.
module _ (utf8 : Format) where
  unfoldable pub push_char : Tendril → ℕ → M Tendril
  push_char t c = push_bytes_without_validating utf8 t (encode_utf8 c)

  unfoldable pub from_char : ℕ → M Tendril
  from_char c = do t ← new; push_char t c
