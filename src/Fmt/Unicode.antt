-- ===== src/Fmt/Unicode.antt =====
-- The marker types `UTF8` and `WTF8` of `src/fmt.rs`. `classify` is `futf::classify`: the code point
-- around the byte at an index, of a crate that is not part of the repository.
use tendril.Common.{
  ℕ, zero, suc, ◌+◌, ◌-◌, ◌*◌, ◌^◌, Bool, true, false, ◌&&◌, Option, none, some, List, leb, ltb,
  ◌==◌, if◌then◌else◌, length, replicate, overwrite,
}
use tendril.Fmt.{Fixup, default_fixup, Format}
use tendril.Fmt.Utf8.{from_utf8, encode_utf8}

-- `futf::Meaning`; the constructors that the code does not tell apart are one.
pub data Meaning : Type 0 where
  whole : ℕ → Meaning
  lead_surrogate : ℕ → Meaning
  trail_surrogate : ℕ → Meaning
  other : Meaning

-- `futf::Codepoint`, less the field that the code does not read
pub record Codepoint : Type 0 where
  pub bytes : List ℕ
  pub meaning : Meaning

abbrev pub Classify : Type 0
Classify = List ℕ → ℕ → Option Codepoint

unfoldable pub is_whole : Option Codepoint → Bool
is_whole none = false
is_whole (some c) = elim c.meaning [ whole _ ↦ true | _ ↦ false ]

unfoldable pub wtf8_meaningful : Meaning → Bool
wtf8_meaningful (whole _) = true
wtf8_meaningful (lead_surrogate _) = true
wtf8_meaningful (trail_surrogate _) = true
wtf8_meaningful other = false

unfoldable pub is_meaningful : Option Codepoint → Bool
unfolding wtf8_meaningful
is_meaningful none = false
is_meaningful (some c) = wtf8_meaningful c.meaning

-- `char::from_u32`
unfoldable pub char_from_u32 : ℕ → Option ℕ
char_from_u32 n =
    if ltb n 0xD800
    then some n
    else if ltb n 0xE000
    then none
    else if ltb n 0x110000
    then some n
    else none

-- The fixup that joins a lead and a trail surrogate.
unfoldable pub surrogate_fixup : (hi lo : ℕ) → Option Fixup
surrogate_fixup hi lo = elim (char_from_u32 (0x10000 + hi * 2 ^ 10 + lo)) [
  | none ↦ none
  | some ch ↦ some (record {
    drop_left = 3;
    drop_right = 3;
    insert_len = length (encode_utf8 ch);
    insert_bytes = overwrite 0 (encode_utf8 ch) (replicate 4 0);
  })
]

abbrev meaning_of : Option Codepoint → Meaning
meaning_of none = other
meaning_of (some c) = c.meaning

abbrev fixup_of : Meaning → Meaning → Option Fixup
fixup_of (lead_surrogate hi) (trail_surrogate lo) = surrogate_fixup hi lo
fixup_of _ _ = some default_fixup

module _ (classify : Classify) where
  unfoldable pub utf8_prefix : List ℕ → Bool
  utf8_prefix buf = if length buf == 0 then true else is_whole (classify buf (length buf - 1))

  unfoldable pub utf8_suffix : List ℕ → Bool
  utf8_suffix buf = if length buf == 0 then true else is_whole (classify buf 0)

  -- `UTF8`
  unfoldable pub utf8 : Format
  utf8 = record {
    validate = from_utf8;
    validate_prefix = utf8_prefix;
    validate_suffix = utf8_suffix;
    validate_subseq = λ buf. utf8_prefix buf && utf8_suffix buf;
    fixup = λ _ _. some default_fixup;
  }

  -- The loop of `WTF8::validate`. A code point has a byte at least, so that the length of the buffer
  -- is enough rounds; none left counts as the end.
  unfoldable pub wtf8_validate_from : ℕ → (i : ℕ) → (prev_lead : Bool) → List ℕ → Bool
  wtf8_validate_from zero i prev_lead buf = true
  wtf8_validate_from (suc rounds) i prev_lead buf = elim (ltb i (length buf)) [
    | false ↦ true
    | true ↦ elim (classify buf i) [
      | none ↦ false
      | some c ↦
          let next = λ (lead : Bool). wtf8_validate_from rounds (i + length c.bytes) lead buf in
          elim c.meaning [
            | other ↦ false
            | trail_surrogate _ ↦ elim prev_lead [ true ↦ false | false ↦ next false ]
            | lead_surrogate _ ↦ next true
            | whole _ ↦ next false
          ]
    ]
  ]

  unfoldable pub wtf8_validate : List ℕ → Bool
  wtf8_validate buf = wtf8_validate_from (length buf) 0 false buf

  unfoldable pub wtf8_prefix : List ℕ → Bool
  wtf8_prefix buf = if length buf == 0 then true else is_meaningful (classify buf (length buf - 1))

  unfoldable pub wtf8_suffix : List ℕ → Bool
  wtf8_suffix buf = if length buf == 0 then true else is_meaningful (classify buf 0)

  unfoldable pub wtf8_fixup : List ℕ → List ℕ → Option Fixup
  wtf8_fixup lhs rhs =
      if leb 3 (length lhs) && leb 3 (length rhs)
      then fixup_of (meaning_of (classify lhs (length lhs - 1))) (meaning_of (classify rhs 0))
      else some default_fixup

  -- `WTF8`
  unfoldable pub wtf8 : Format
  wtf8 = record {
    validate = wtf8_validate;
    validate_prefix = wtf8_prefix;
    validate_suffix = wtf8_suffix;
    validate_subseq = λ buf. wtf8_prefix buf && wtf8_suffix buf;
    fixup = wtf8_fixup;
  }
