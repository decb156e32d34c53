-- ===== src/Fmt/Subset.antt =====
-- `SubsetOf` of `src/fmt.rs`: a text of the smaller format is one of the larger, without a look at
-- it.
use tendril.Common.{
  ℕ, zero, suc, ◌+◌, ◌≤◌, ◌≡◌, refl, sym, ◌∙◌, ap, subst, true, false, some, List, [], ◌∷◌, ◌++◌,
  append_assoc, append-nil, arith, ltb, length, length-append,
}
use tendril.Fmt.{Format, all_ascii, ascii, latin1}
use tendril.Fmt.Utf8.{encode_utf8, start, lead, step, run, from_utf8-of_run, length-encode_utf8}
use tendril.Fmt.Utf8.Text.{encode_all, AreScalars, from_utf8-Text, encode_all-append}
use tendril.Fmt.Unicode.{Classify, whole, utf8, wtf8, wtf8_validate, wtf8_validate_from}

-- The promise of `unsafe impl SubsetOf<Super> for Sub`.
abbrev pub IsSubset : (sub super : Format) → Type 0
IsSubset sub super = (xs : List ℕ) → sub.validate xs ≡ true → super.validate xs ≡ true

-- `futf::classify` knows the characters of a text.
abbrev pub IsThorough : Classify → Type 0
IsThorough classify =
    (cs : List ℕ) (c : ℕ) (ds : List ℕ)
    → AreScalars (cs ++ (c ∷ ds))
    → classify (encode_all (cs ++ (c ∷ ds))) (length (encode_all cs))
      ≡ some (record { bytes = encode_utf8 c; meaning = whole c })

run-all_ascii : (xs : List ℕ) → all_ascii xs ≡ true → run start xs ≡ some start
unfolding run step lead all_ascii
run-all_ascii [] h = refl
run-all_ascii (x ∷ xs) h =
    let low : ltb x 0x80 ≡ true = ground arith in rw (run, low) (run-all_ascii xs (ground arith))

module _ (classify : Classify) (thorough : IsThorough classify) where
  -- Enough rounds for the bytes that are left.
  validated :
      (rounds : ℕ) (cs ds : List ℕ)
      → AreScalars (cs ++ ds)
      → length (encode_all ds) ≤ rounds
      → wtf8_validate_from classify rounds (length (encode_all cs)) false (encode_all (cs ++ ds))
        ≡ true
  unfolding wtf8_validate_from
  validated zero cs ds s h = refl
  validated (suc rounds) cs [] s h =
      let done : ltb (length (encode_all cs)) (length (encode_all (cs ++ []))) ≡ false =
        rw append-nil (ground arith) in
      rw (wtf8_validate_from, done) refl
  validated (suc rounds) cs (d ∷ ds) s h =
      let size = length-encode_utf8 d in
      let tail = length-append (encode_utf8 d) (encode_all ds) in
      let total =
        ap length (encode_all-append cs (d ∷ ds))
        ∙ length-append (encode_all cs) (encode_all (d ∷ ds)) in
      let inside : ltb (length (encode_all cs)) (length (encode_all (cs ++ (d ∷ ds)))) ≡ true =
        ground (arith, total, tail, size) in
      let front : length (encode_all cs) + length (encode_utf8 d)
          ≡ length (encode_all (cs ++ (d ∷ []))) =
        sym (
          ap length (
            encode_all-append cs (d ∷ [])
            ∙ ap (λ l. encode_all cs ++ l) (append-nil (encode_utf8 d)))
          ∙ length-append (encode_all cs) (encode_utf8 d)) in
      let order : cs ++ (d ∷ ds) ≡ (cs ++ (d ∷ [])) ++ ds = sym (append_assoc cs (d ∷ []) ds) in
      rw (wtf8_validate_from, inside, thorough cs d ds s, front, order)
        (validated rounds (cs ++ (d ∷ [])) ds (subst AreScalars order s) (omega arith))

  -- If `futf::classify` knows the characters of a text of scalar values, every text of `UTF8` is
  -- one of `WTF8`, as `SubsetOf` promises.
  pub utf8-wtf8 : IsSubset (utf8 classify) (wtf8 classify)
  unfolding utf8 wtf8 wtf8_validate
  utf8-wtf8 xs valid =
      let t = from_utf8-Text xs valid in
      rw t.bytes (validated (length (encode_all t.chars)) [] t.chars t.scalars (omega arith))

-- ASCII text is UTF-8 text and Latin-1 text.
pub ascii-utf8 : (classify : Classify) → IsSubset ascii (utf8 classify) × IsSubset ascii latin1
unfolding ascii utf8 latin1
ascii-utf8 classify = (λ xs h. from_utf8-of_run xs (run-all_ascii xs h), λ xs h. refl)
