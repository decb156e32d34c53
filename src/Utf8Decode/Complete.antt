-- ===== src/Utf8Decode/Complete.antt =====
-- `IncompleteUtf8::try_complete` of `src/utf8_decode.rs`.
use tendril.Common.{
  ℕ, ◌-◌, ◌≤◌, ◌<◌, ◌^◌, ◌≡◌, refl, subst, Option, none, some, Result, ok, err, List, [], ◌∷◌,
  arith, length, drop, as_u32, as_u32_lem, sub64, sub64_lem,
}
use tendril.Mem.{Mem}
use tendril.Fmt.{bytes}
use tendril.Tendril.{Tendril}
use tendril.Tendril.Checked.{pop_front}
use tendril.Utf8Decode.{TryComplete, unwrap_or, completed, complete_utf8}
use tendril.Utf8Decode.Run.{from_slice_lem, suffix_ok}
use tendril.World.{World}
use tendril.World.Drop.{drop_tendril_lem}
use tendril.World.Read.{as_byte_slice_lem, length-lt}
use tendril.World.Unwrapped.{pop_front_lem}
use tendril.World.Shuffle.{World-Shuffle, swap}
use tendril.World.Returns
use tendril.World.Returns.{Returns, returned}

-- What the documentation of `Incomplete::try_complete` says: the rest is the end of the input, and
-- the completed character is short.
pub record IsCompleter {I : Type 0} (try_complete : TryComplete I) (replacement : List ℕ)
    : Type 0 where
  pub rest_size :
      (s s' : I) (xs : List ℕ) (r : Result (List ℕ) (List ℕ)) (rest : List ℕ)
      → try_complete s xs ≡ (s', some (r, rest))
      → length rest ≤ length xs
  pub rest_end :
      (s s' : I) (xs : List ℕ) (r : Result (List ℕ) (List ℕ)) (rest : List ℕ)
      → try_complete s xs ≡ (s', some (r, rest))
      → drop (length xs - length rest) xs ≡ rest
  pub char_size :
      (s s' : I) (xs : List ℕ) (r : Result (List ℕ) (List ℕ)) (rest : List ℕ)
      → try_complete s xs ≡ (s', some (r, rest))
      → length (unwrap_or r replacement) < 2 ^ 32

-- The end of the input that stays behind a completed character.
pub rest_lem :
    {m : Mem} {t : Tendril} {ts : List Tendril} {xs : List ℕ} {xss : List (List ℕ)} (rest : List ℕ)
    → length rest ≤ length xs
    → drop (length xs - length rest) xs ≡ rest
    → World m (t ∷ ts) (xs ∷ xss)
    → Returns
        (λ t' m'. World m' (t' ∷ ts) (rest ∷ xss))
        (pop_front bytes t (as_u32 (sub64 (length xs) (length rest))) m)
rest_lem {m} {t} {ts} {xs} {xss} rest fits end w =
    let n = length xs - length rest in
    rw
      (
        sub64_lem (length xs) (length rest) fits (omega (arith, length-lt w.reps.0)),
        as_u32_lem n (omega (arith, length-lt w.reps.0)),
      )
      (subst (λ l. Returns (λ t' m'. World m' (t' ∷ ts) (l ∷ xss)) (pop_front bytes t n m)) end
        (pop_front_lem bytes n (omega arith) (suffix_ok (drop n xs)) w))

-- What the call does, by what the crate's call returned.
abbrev pub Completes :
    {I : Type 0}
    → (replacement : List ℕ) → List Tendril
    → List (List ℕ)
    → I × Option (Result (List ℕ) (List ℕ) × List ℕ)
    → I × List Tendril × Result Tendril (Unit {0})
    → Mem
    → Type 0
Completes replacement ts xss (s, none) (state, pushed, result) m =
    (state ≡ s) × (pushed ≡ []) × (result ≡ err tt) × World m ts xss
Completes replacement ts xss (s, some (r, rest)) (state, pushed, result) m =
    (u : Tendril) × (input : Tendril) × (state ≡ s)
    × (pushed ≡ u ∷ [])
    × (result ≡ ok input)
    × World m (input ∷ u ∷ ts) (rest ∷ unwrap_or r replacement ∷ xss)

module _ {I : Type 0} (try_complete : TryComplete I) (replacement : List ℕ)
    (law : IsCompleter try_complete replacement) where
  completed_lem :
      {m : Mem} {t : Tendril} {ts : List Tendril} {xs : List ℕ} {xss : List (List ℕ)} (s : I)
      (c : I × Option (Result (List ℕ) (List ℕ) × List ℕ))
      → try_complete s xs ≡ c
      → World m (t ∷ ts) (xs ∷ xss)
      → Returns (Completes replacement ts xss c) (completed try_complete replacement t xs c m)
  unfolding completed
  completed_lem s (s', none) e w =
      Returns.then_do (drop_tendril_lem w) (λ _ m' w'. returned (refl, refl, refl, w'))
  completed_lem {xs} s (s', some (r, rest)) e w =
      Returns.then_do (from_slice_lem (unwrap_or r replacement) (law.char_size s s' xs r rest e) w)
        (λ u m₁ w₁.
          Returns.then_do
            (rest_lem rest (law.rest_size s s' xs r rest e) (law.rest_end s s' xs r rest e)
              (World-Shuffle swap w₁))
            (λ input m₂ w₂. returned (u, input, refl, refl, refl, w₂)))

  -- In a memory where every live tendril stands for its bytes and every header counts the tendrils
  -- that point to it, and with a `try_complete` whose rest is an end of the input and whose
  -- character is short, `IncompleteUtf8::try_complete` drops the input and reports an error if the
  -- character stays incomplete, and else pushes the character or the replacement and returns the
  -- rest of the input.
  pub complete_utf8_lem :
      {m : Mem} {t : Tendril} {ts : List Tendril} {xs : List ℕ} {xss : List (List ℕ)} (s : I)
      → World m (t ∷ ts) (xs ∷ xss)
      → Returns
          (Completes replacement ts xss (try_complete s xs))
          (complete_utf8 try_complete replacement s t m)
  unfolding complete_utf8
  complete_utf8_lem {xs} s w =
      rw (as_byte_slice_lem w.reps.0) (completed_lem s (try_complete s xs) refl w)
