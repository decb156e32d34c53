-- ===== src/Fmt.antt =====
-- The traits and marker types of `src/fmt.rs`. A format is a record of the functions of its traits;
-- the classification of code points (the crate `futf`) is a parameter.
pub mod Utf8
pub mod Unicode
pub mod Sound
pub mod Boundaries
pub mod Subset
use tendril.Common.{
  ℕ, ◌+◌, ◌-◌, ◌*◌, ◌^◌, Bool, true, false, ◌&&◌, Option, none, some, List, [], ◌∷◌, leb, ltb, ◌==◌,
  if◌then◌else◌, length,
}

-- `imp::Fixup`; `insert_bytes` is an array of 4.
pub record Fixup : Type 0 where
  pub drop_left : ℕ
  pub drop_right : ℕ
  pub insert_len : ℕ
  pub insert_bytes : List ℕ

unfoldable pub default_fixup : Fixup
default_fixup = record {
  drop_left = 0;
  drop_right = 0;
  insert_len = 0;
  insert_bytes = 0 ∷ 0 ∷ 0 ∷ 0 ∷ [];
}

-- `trait Format`. A `fixup` may panic, which is `none`.
pub record Format : Type 0 where
  pub validate : List ℕ → Bool
  pub validate_prefix : List ℕ → Bool
  pub validate_suffix : List ℕ → Bool
  pub validate_subseq : List ℕ → Bool
  pub fixup : List ℕ → List ℕ → Option Fixup

-- The default methods of the trait.
unfoldable pub default_format : (List ℕ → Bool) → Format
default_format validate = record {
  validate = validate;
  validate_prefix = validate;
  validate_suffix = validate;
  validate_subseq = validate;
  fixup = λ _ _. some default_fixup;
}

-- `Bytes`
unfoldable pub bytes : Format
unfolding default_format
bytes = default_format (λ _. true)

unfoldable pub all_ascii : List ℕ → Bool
all_ascii [] = true
all_ascii (n ∷ buf) = leb n 127 && all_ascii buf

-- `ASCII`
unfoldable pub ascii : Format
unfolding default_format all_ascii
ascii = record (default_format all_ascii) {
  validate_prefix = λ _. true;
  validate_suffix = λ _. true;
  validate_subseq = λ _. true;
}

-- `Latin1`
unfoldable pub latin1 : Format
unfolding default_format
latin1 = record {
  validate = λ _. true;
  validate_prefix = λ _. true;
  validate_suffix = λ _. true;
  validate_subseq = λ _. true;
  fixup = λ _ _. some default_fixup;
}

-- `SingleByteCharIndices`: each byte with its index, as a character.
unfoldable pub single_byte_char_indices : ℕ → List ℕ → List (ℕ × ℕ)
single_byte_char_indices i [] = []
single_byte_char_indices i (b ∷ buf) = (i, b) ∷ single_byte_char_indices (i + 1) buf

-- `encode_char` of `ASCII` and `Latin1`: the bytes that the continuation gets, if it is called.
unfoldable pub encode_ascii : ℕ → Option (List ℕ)
encode_ascii n = if ltb 0x7F n then none else some (n ∷ [])

unfoldable pub encode_latin1 : ℕ → Option (List ℕ)
encode_latin1 n = if ltb 0xFF n then none else some (n ∷ [])
