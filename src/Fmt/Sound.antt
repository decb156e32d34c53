-- ===== src/Fmt/Sound.antt =====
-- What the tendrils rely on of a format of `src/fmt.rs`: the checks that may assume something of the
-- bytes around them are as good as `validate`.
use tendril.Common.{
  ℕ, zero, suc, ◌≡◌, refl, true, some, List, [], ◌∷◌, ◌++◌, arith, slice, take, drop,
}
use tendril.Fmt.{Format, default_fixup, bytes, ascii, latin1, all_ascii}

-- Parts of a valid text that pass their check are valid, and so are valid texts joined.
pub record IsSound (format : Format) : Type 0 where
  pub of_nothing : format.validate [] ≡ true
  pub of_prefix :
      (n : ℕ) (xs : List ℕ)
      → format.validate xs ≡ true
      → format.validate_prefix (take n xs) ≡ true
      → format.validate (take n xs) ≡ true
  pub of_suffix :
      (n : ℕ) (xs : List ℕ)
      → format.validate xs ≡ true
      → format.validate_suffix (drop n xs) ≡ true
      → format.validate (drop n xs) ≡ true
  pub of_slice :
      (from n : ℕ) (xs : List ℕ)
      → format.validate xs ≡ true
      → format.validate_subseq (slice from n xs) ≡ true
      → format.validate (slice from n xs) ≡ true
  pub of_append :
      (xs ys : List ℕ)
      → format.validate xs ≡ true
      → format.validate ys ≡ true
      → format.validate (xs ++ ys) ≡ true
  pub plain : (old buf : List ℕ) → format.fixup old buf ≡ some default_fixup

pub bytes-IsSound : IsSound bytes
unfolding bytes
bytes-IsSound = record {
  of_nothing = refl;
  of_prefix = λ n xs h k. refl;
  of_suffix = λ n xs h k. refl;
  of_slice = λ from n xs h k. refl;
  of_append = λ xs ys h k. refl;
  plain = λ old buf. refl;
}

pub latin1-IsSound : IsSound latin1
unfolding latin1
latin1-IsSound = record {
  of_nothing = refl;
  of_prefix = λ n xs h k. refl;
  of_suffix = λ n xs h k. refl;
  of_slice = λ from n xs h k. refl;
  of_append = λ xs ys h k. refl;
  plain = λ old buf. refl;
}

all_ascii-take : (n : ℕ) (xs : List ℕ) → all_ascii xs ≡ true → all_ascii (take n xs) ≡ true
unfolding all_ascii
all_ascii-take zero xs h = refl
all_ascii-take (suc n) [] h = refl
all_ascii-take (suc n) (x ∷ xs) h = ground (arith, all_ascii-take n xs)

all_ascii-drop : (n : ℕ) (xs : List ℕ) → all_ascii xs ≡ true → all_ascii (drop n xs) ≡ true
unfolding all_ascii
all_ascii-drop zero xs h = h
all_ascii-drop (suc n) [] h = refl
all_ascii-drop (suc n) (x ∷ xs) h = all_ascii-drop n xs (ground arith)

all_ascii-append :
    (xs ys : List ℕ) → all_ascii xs ≡ true → all_ascii ys ≡ true → all_ascii (xs ++ ys) ≡ true
unfolding all_ascii
all_ascii-append [] ys h k = k
all_ascii-append (x ∷ xs) ys h k = ground (arith, all_ascii-append xs ys)

pub ascii-IsSound : IsSound ascii
unfolding ascii
ascii-IsSound = record {
  of_nothing = empty;
  of_prefix = λ n xs h k. all_ascii-take n xs h;
  of_suffix = λ n xs h k. all_ascii-drop n xs h;
  of_slice = λ from n xs h k. all_ascii-take n (drop from xs) (all_ascii-drop from xs h);
  of_append = all_ascii-append;
  plain = λ old buf. refl;
}
  where
    empty : all_ascii [] ≡ true
    empty = ground arith
