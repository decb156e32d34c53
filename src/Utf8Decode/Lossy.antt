-- ===== src/Utf8Decode/Lossy.antt =====
-- What the callback of `src/utf8_decode.rs` receives.
use tendril.Common.{
  ℕ, ◌+◌, ◌≤◌, ◌<◌, ◌^◌, ◌≡◌, subst, inl, inr, true, Option, none, some, List, [], ◌∷◌, ◌++◌,
  append-nil, ◌==◌, Bool-cases, if◌then◌else◌, length, take, drop,
}
use tendril.Fmt.Utf8.{from_utf8}
use tendril.Utf8Decode.{Decoded, valid_text, invalid, incomplete}

-- What the documentation of `utf8::decode` and `utf8::REPLACEMENT_CHARACTER` says.
pub record IsDecoder {I : Type 0} (decode : List ℕ → Decoded I) (replacement : List ℕ)
    : Type 0 where
  pub all_valid : (xs : List ℕ) → decode xs ≡ valid_text → from_utf8 xs ≡ true
  pub invalid_valid :
      (xs : List ℕ) (v i : ℕ) → decode xs ≡ invalid v i → from_utf8 (take v xs) ≡ true
  pub invalid_inside :
      (xs : List ℕ) (v i : ℕ) → decode xs ≡ invalid v i → (v + i ≤ length xs) × (0 < i)
  pub incomplete_valid :
      (xs : List ℕ) (v : ℕ) (s : I) → decode xs ≡ incomplete v s → from_utf8 (take v xs) ≡ true
  pub incomplete_inside : (xs : List ℕ) (v : ℕ) (s : I) → decode xs ≡ incomplete v s → v ≤ length xs
  pub replacement_valid : from_utf8 replacement ≡ true
  pub replacement_size : length replacement < 2 ^ 32

-- A valid prefix is a piece of its own, if it is not empty.
abbrev pub prefix : ℕ → List ℕ → List (List ℕ)
prefix v xs = if v == 0 then [] else take v xs ∷ []

module _ {I : Type 0} (decode : List ℕ → Decoded I) (replacement : List ℕ) where
  -- The pieces of text that some bytes decode to, and the character that they break off in.
  pub data Lossy : List ℕ → List (List ℕ) → Option I → Type 0 where
    ended : Lossy [] [] none
    whole : {xs : List ℕ} → decode xs ≡ valid_text → Lossy xs (xs ∷ []) none
    replaced :
        {xs : List ℕ} {pieces : List (List ℕ)} {o : Option I} (v i : ℕ)
        → decode xs ≡ invalid v i
        → Lossy (drop (v + i) xs) pieces o
        → Lossy xs (prefix v xs ++ (replacement ∷ pieces)) o
    broken_off :
        {xs : List ℕ} (v : ℕ) (s : I) → decode xs ≡ incomplete v s → Lossy xs (prefix v xs) (some s)

  abbrev pub AllValid : List (List ℕ) → Type 0
  AllValid [] = Unit
  AllValid (x ∷ xs) = (from_utf8 x ≡ true) × AllValid xs

  prefix-AllValid :
      (v : ℕ) (xs : List ℕ) (pieces : List (List ℕ))
      → from_utf8 (take v xs) ≡ true
      → AllValid pieces
      → AllValid (prefix v xs ++ pieces)
  prefix-AllValid v xs pieces valid all = elim (Bool-cases (v == 0)) [
    | inl e ↦ rw e all
    | inr e ↦ rw e (valid, all)
  ]

  -- Every piece is valid text.
  pub Lossy-AllValid :
      {xs : List ℕ} {pieces : List (List ℕ)} {o : Option I}
      → IsDecoder decode replacement
      → Lossy xs pieces o
      → AllValid pieces
  Lossy-AllValid d ended = tt
  Lossy-AllValid d (whole {xs} e) = (d.all_valid xs e, tt)
  Lossy-AllValid d (replaced {xs} {pieces} v i e l) =
      prefix-AllValid v xs (replacement ∷ pieces) (d.invalid_valid xs v i e)
        (d.replacement_valid, Lossy-AllValid d l)
  Lossy-AllValid d (broken_off {xs} v s e) =
      subst AllValid (append-nil (prefix v xs))
        (prefix-AllValid v xs [] (d.incomplete_valid xs v s e) tt)
