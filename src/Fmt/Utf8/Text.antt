-- ===== src/Fmt/Utf8/Text.antt =====
-- Texts as lists of characters: what `str::from_utf8` accepts, and what `str::char_indices` yields.
use tendril.Common.{
  ℕ, zero, suc, ◌+◌, ◌-◌, ◌≤◌, ◌≡◌, refl, sym, ◌∙◌, ap, true, some, List, [], ◌∷◌, ◌++◌,
  append_assoc, arith, length, length-append,
}
use tendril.Fmt.Utf8.{
  IsScalar, encode_utf8, from_utf8, next_char, char_indices, char_indices_from, run,
  from_utf8-encode_utf8, next_char-encode_utf8, from_utf8-append, length-encode_utf8,
}
use tendril.Fmt.Utf8.First.{from_utf8-First}

abbrev pub encode_all : List ℕ → List ℕ
encode_all [] = []
encode_all (c ∷ cs) = encode_utf8 c ++ encode_all cs

abbrev pub AreScalars : List ℕ → Type 0
AreScalars [] = Unit
AreScalars (c ∷ cs) = IsScalar c × AreScalars cs

-- The characters with the indices of their first bytes, from `i` on.
abbrev pub positions : ℕ → List ℕ → List (ℕ × ℕ)
positions i [] = []
positions i (c ∷ cs) = (i, c) ∷ positions (i + length (encode_utf8 c)) cs

-- A text as its characters.
pub record Text (xs : List ℕ) : Type 0 where
  pub chars : List ℕ
  pub scalars : AreScalars chars
  pub bytes : xs ≡ encode_all chars

nil-from_utf8 : from_utf8 [] ≡ true
unfolding from_utf8 run
nil-from_utf8 = refl

pub from_utf8-encode_all : (cs : List ℕ) → AreScalars cs → from_utf8 (encode_all cs) ≡ true
from_utf8-encode_all [] s = nil-from_utf8
from_utf8-encode_all (c ∷ cs) s =
    from_utf8-append (encode_utf8 c) (encode_all cs) (from_utf8-encode_utf8 c s.0)
      (from_utf8-encode_all cs s.1)

Text-within : (k : ℕ) (xs : List ℕ) → length xs ≤ k → from_utf8 xs ≡ true → Text xs
Text-within k [] h valid = record { chars = []; scalars = tt; bytes = refl }
Text-within zero (a ∷ xs) h valid = absurd (omega arith)
Text-within (suc k) (a ∷ xs) h valid =
    let f = from_utf8-First a xs valid in
    let size : length (a ∷ xs) ≡ length (encode_utf8 f.char) + length f.rest =
      ap length f.split ∙ length-append (encode_utf8 f.char) f.rest in
    let t = Text-within k f.rest (omega (arith, h, size, length-encode_utf8 f.char)) f.valid in
    record {
      chars = f.char ∷ t.chars;
      scalars = (f.scalar, t.scalars);
      bytes = f.split ∙ ap (λ l. encode_utf8 f.char ++ l) t.bytes;
    }

-- Every text that `str::from_utf8` accepts is the encoding of a list of scalar values.
pub from_utf8-Text : (xs : List ℕ) → from_utf8 xs ≡ true → Text xs
from_utf8-Text xs valid = Text-within (length xs) xs (omega arith) valid

nil-char_indices_from : (k i : ℕ) → char_indices_from k i [] ≡ []
unfolding char_indices_from next_char
nil-char_indices_from zero i = refl
nil-char_indices_from (suc k) i = refl

step_char_indices_from :
    (k i c : ℕ) (buf rest : List ℕ)
    → next_char buf ≡ some (c, rest)
    → char_indices_from (suc k) i buf
      ≡ (i, c) ∷ char_indices_from k (i + (length buf - length rest)) rest
unfolding char_indices_from
step_char_indices_from k i c buf rest h = ground arith

indices_within :
    (k i : ℕ) (cs : List ℕ)
    → AreScalars cs
    → length (encode_all cs) ≤ k
    → char_indices_from k i (encode_all cs) ≡ positions i cs
indices_within k i [] s h = nil-char_indices_from k i
indices_within zero i (c ∷ cs) s h =
    absurd (omega (arith, h, length-append (encode_utf8 c) (encode_all cs), length-encode_utf8 c))
indices_within (suc k) i (c ∷ cs) s h =
    let size : length (encode_utf8 c ++ encode_all cs)
        ≡ length (encode_utf8 c) + length (encode_all cs) =
      length-append (encode_utf8 c) (encode_all cs) in
    let skip : length (encode_utf8 c ++ encode_all cs) - length (encode_all cs)
        ≡ length (encode_utf8 c) =
      omega (arith, size) in
    step_char_indices_from k i c (encode_utf8 c ++ encode_all cs) (encode_all cs)
      (next_char-encode_utf8 c (encode_all cs) s.0)
    ∙ ap (λ l. (i, c) ∷ l)
        (rw skip (
          indices_within k (i + length (encode_utf8 c)) cs s.1
            (omega (arith, h, size, length-encode_utf8 c))))

-- On the encoding of a list of scalar values, `char_indices` yields these, each with the index of
-- its first byte.
pub char_indices-encode_all :
    (cs : List ℕ) → AreScalars cs → char_indices (encode_all cs) ≡ positions 0 cs
unfolding char_indices
char_indices-encode_all cs s = indices_within (length (encode_all cs)) 0 cs s (omega arith)

pub encode_all-append : (cs ds : List ℕ) → encode_all (cs ++ ds) ≡ encode_all cs ++ encode_all ds
encode_all-append [] ds = refl
encode_all-append (c ∷ cs) ds =
    ap (λ l. encode_utf8 c ++ l) (encode_all-append cs ds)
    ∙ sym (append_assoc (encode_utf8 c) (encode_all cs) (encode_all ds))
