-- ===== src/Tests/Classifier.antt =====
-- A classifier of code points that knows the texts that the standard library accepts, and what it is
-- good for.
use tendril.Common.{
  ℕ, ◌+◌, ◌≡◌, refl, sym, ◌∙◌, ap, subst, inl, inr, true, false, Option, none, some, List, [], ◌∷◌,
  ◌++◌, arith, ◌==◌, Bool-cases, if◌then◌else◌, length, length-append,
}
use tendril.Fmt.Utf8.{IsScalar, encode_utf8, from_utf8, run, step, char_indices, length-encode_utf8}
use tendril.Fmt.Utf8.Text.{
  encode_all, AreScalars, positions, from_utf8-Text, from_utf8-encode_all, char_indices-encode_all,
  encode_all-append,
}
use tendril.Fmt.Unicode.{Codepoint, Classify, whole, is_whole, utf8, wtf8}
use tendril.Fmt.Sound.{IsSound}
use tendril.Fmt.Boundaries.{Around, IsTruthful, utf8-IsSound}
use tendril.Fmt.Subset.{IsThorough, utf8-wtf8}

abbrev found : ℕ → List (ℕ × ℕ) → Option ℕ
found i [] = none
found i ((j, c) ∷ rest) = if i == j then some c else found i rest

abbrev code_of : Option ℕ → Option Codepoint
code_of none = none
code_of (some c) = some (record { bytes = encode_utf8 c; meaning = whole c })

abbrev pub text_classify : Classify
text_classify buf i = if from_utf8 buf then code_of (found i (char_indices buf)) else none

found-positions :
    (k : ℕ) (cs : List ℕ) (c : ℕ) (ds : List ℕ)
    → found (k + length (encode_all cs)) (positions k (cs ++ (c ∷ ds))) ≡ some c
found-positions k [] c ds =
    let e : (k + length (encode_all []) == k) ≡ true = ground arith in rw e refl
found-positions k (b ∷ cs) c ds =
    let size = length-append (encode_utf8 b) (encode_all cs) in
    let e : (k + length (encode_all (b ∷ cs)) == k) ≡ false =
      ground (arith, size, length-encode_utf8 b) in
    let next : k + length (encode_all (b ∷ cs))
        ≡ (k + length (encode_utf8 b)) + length (encode_all cs) =
      omega (arith, size) in
    rw e (
      ap (λ i. found i (positions (k + length (encode_utf8 b)) (cs ++ (c ∷ ds)))) next
      ∙ found-positions (k + length (encode_utf8 b)) cs c ds)

-- Where a character was found.
abbrev Found : ℕ → ℕ → ℕ → List ℕ → Type 0
Found k i c cs =
    (front : List ℕ) × (rest : List ℕ) × (cs ≡ front ++ (c ∷ rest))
    × (i ≡ k + length (encode_all front))

found-split : (k i c : ℕ) (cs : List ℕ) → found i (positions k cs) ≡ some c → Found k i c cs
found-split k i c [] h = absurd (ground (arith, h))
found-split k i c (b ∷ cs) h = elim (Bool-cases (i == k)) [
  | inl here ↦ ([], cs, ground (arith, h), ground arith)
  | inr later ↦
      let (front, rest, e, at) =
        found-split (k + length (encode_utf8 b)) i c cs (ground (arith, h)) in
      (
        b ∷ front,
        rest,
        ap (λ l. b ∷ l) e,
        omega (arith, at, length-append (encode_utf8 b) (encode_all front)),
      )
]

IsScalar-at :
    (front : List ℕ) (c : ℕ) (rest : List ℕ) → AreScalars (front ++ (c ∷ rest)) → IsScalar c
IsScalar-at [] c rest s = s.0
IsScalar-at (b ∷ front) c rest s = IsScalar-at front c rest s.1

text_classify-IsThorough : IsThorough text_classify
text_classify-IsThorough cs c ds s =
    let plus : 0 + length (encode_all cs) ≡ length (encode_all cs) = omega arith in
    rw (from_utf8-encode_all (cs ++ (c ∷ ds)) s, char_indices-encode_all (cs ++ (c ∷ ds)) s)
      (ap code_of (
        subst (λ i. found i (positions 0 (cs ++ (c ∷ ds))) ≡ some c) plus
          (found-positions 0 cs c ds)))

around :
    (buf : List ℕ) (i : ℕ) (o : Option ℕ)
    → from_utf8 buf ≡ true
    → found i (char_indices buf) ≡ o
    → is_whole (code_of o) ≡ true
    → Around buf i
unfolding is_whole
around buf i none valid e h = absurd (ground (arith, h))
around buf i (some c) valid e h =
    let t = from_utf8-Text buf valid in
    let at : found i (positions 0 t.chars) ≡ some c =
      ap (λ l. found i l)
        (sym (ap char_indices t.bytes ∙ char_indices-encode_all t.chars t.scalars))
      ∙ e in
    let (front, rest, split, place) = found-split 0 i c t.chars at in
    record {
      char = c;
      front = encode_all front;
      rest = encode_all rest;
      scalar = IsScalar-at front c rest (subst AreScalars split t.scalars);
      parts = t.bytes ∙ ap encode_all split ∙ encode_all-append front (c ∷ rest);
      from = omega (arith, place);
      to = omega (arith, place, length-encode_utf8 c);
    }

pub text_classify-IsTruthful : IsTruthful text_classify
unfolding is_whole
text_classify-IsTruthful buf i h = elim (Bool-cases (from_utf8 buf)) [
  | inl valid ↦ around buf i (found i (char_indices buf)) valid refl (ground (arith, h))
  | inr bad ↦ absurd (ground (arith, h, bad))
]

utf8-IsSound_example : IsSound (utf8 text_classify)
utf8-IsSound_example = utf8-IsSound text_classify text_classify-IsTruthful

accents : (utf8 text_classify).validate (0x41 ∷ 0xC3 ∷ 0xA9 ∷ []) ≡ true
unfolding utf8 from_utf8 run step
accents = refl

utf8-wtf8_example : (wtf8 text_classify).validate (0x41 ∷ 0xC3 ∷ 0xA9 ∷ []) ≡ true
utf8-wtf8_example =
    utf8-wtf8 text_classify text_classify-IsThorough (0x41 ∷ 0xC3 ∷ 0xA9 ∷ []) accents
