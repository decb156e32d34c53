-- ===== src/World/Checked.antt =====
-- The checked methods of `src/tendril.rs`, on every branch.
use tendril.Common.{
  ℕ, ◌+◌, ◌-◌, ◌≤◌, ◌<◌, ◌^◌, ◌≡◌, refl, sym, subst, ◌⊎◌, inl, inr, ◌||◌, true, false, Result, ok,
  err, List, ◌∷◌, arith, ltb, ◌==◌, Bool-cases, slice, take, take_all, drop, length, drop-eq-slice,
  sub32, sub32_lem,
}
use tendril.Mem.{Mem}
use tendril.Fmt.{Format}
use tendril.Tendril.{Tendril}
use tendril.Tendril.Checked.{
  SubtendrilError, out_of_bounds, validation_failed, try_subtendril, try_pop_front, try_pop_back,
}
use tendril.World.{World}
use tendril.World.Read.{len32_lem, length-lt, as_byte_slice_lem, unsafe_slice_lem}
use tendril.World.Cut.{unsafe_subtendril_lem, unsafe_pop_front_lem, unsafe_pop_back_lem}
use tendril.World.Returns
use tendril.World.Returns.{Returns, returned}

-- The two tests of `try_subtendril` are one.
outside_lem :
    (len from n : ℕ) → len < 2 ^ 32 → (ltb len from || ltb (sub32 len from) n) ≡ ltb len (from + n)
outside_lem len from n h = ground (arith, sub32_lem len from)

-- What `try_subtendril` promises of its result: the error that fits, with nothing changed, or a
-- slice that passed the format's check beside a receiver that keeps its bytes.
abbrev pub Subtendril :
    Format
    → List Tendril
    → List ℕ
    → List (List ℕ)
    → (from n : ℕ) → Tendril × Result Tendril SubtendrilError
    → Mem
    → Type 0
Subtendril format ts xs xss from n (t, err out_of_bounds) m =
    (length xs < from + n) × World m (t ∷ ts) (xs ∷ xss)
Subtendril format ts xs xss from n (t, err validation_failed) m =
    (from + n ≤ length xs)
    × (format.validate_subseq (slice from n xs) ≡ false)
    × World m (t ∷ ts) (xs ∷ xss)
Subtendril format ts xs xss from n (t, ok s) m =
    (from + n ≤ length xs)
    × (format.validate_subseq (slice from n xs) ≡ true)
    × World m (t ∷ s ∷ ts) (xs ∷ slice from n xs ∷ xss)

module _ (format : Format) {m : Mem} {t : Tendril} {ts : List Tendril} {xs : List ℕ}
    {xss : List (List ℕ)} where
  -- In a memory where every live tendril stands for its bytes and every header counts the tendrils
  -- that point to it, and with fewer than 2^64 - 2 other tendrils, `try_subtendril` returns one of
  -- three results: the bounds error exactly where the slice ends outside, the validation error
  -- where the format refuses the slice, both with nothing changed, or the slice beside the
  -- unchanged receiver.
  pub try_subtendril_lem :
      (from n : ℕ)
      → length ts + 2 < 2 ^ 64
      → World m (t ∷ ts) (xs ∷ xss)
      → Returns (Subtendril format ts xs xss from n) (try_subtendril format t from n m)
  unfolding try_subtendril
  try_subtendril_lem from n few w =
      rw (len32_lem w.reps.0, outside_lem (length xs) from n (length-lt w.reps.0))
        (elim (Bool-cases (ltb (length xs) (from + n))) [
          | inl outside ↦ rw outside (returned (ground arith, w))
          | inr inside ↦
              let fits : from + n ≤ length xs = ground arith in
              rw (inside, as_byte_slice_lem w.reps.0, unsafe_slice_lem xs from n m fits)
                (elim (Bool-cases (format.validate_subseq (slice from n xs))) [
                  | inl valid ↦ rw valid (
                      Returns.then_do (unsafe_subtendril_lem from n fits few w)
                        (λ (t', s) m' w'. returned (fits, valid, w')))
                  | inr bad ↦ rw bad (returned (fits, bad, w))
                ])
        ])

-- What `try_pop_front` promises.
abbrev pub PopFront :
    Format
    → List Tendril
    → List ℕ
    → List (List ℕ)
    → (n : ℕ) → Tendril × Result (Unit {0}) SubtendrilError
    → Mem
    → Type 0
PopFront format ts xs xss n (t, err out_of_bounds) m = (length xs < n) × World m (t ∷ ts) (xs ∷ xss)
PopFront format ts xs xss n (t, err validation_failed) m =
    (n ≤ length xs) × (format.validate_suffix (drop n xs) ≡ false) × World m (t ∷ ts) (xs ∷ xss)
PopFront format ts xs xss n (t, ok _) m =
    (n ≤ length xs)
    × ((n ≡ 0) ⊎ (format.validate_suffix (drop n xs) ≡ true))
    × World m (t ∷ ts) (drop n xs ∷ xss)

-- What `try_pop_back` promises.
abbrev pub PopBack :
    Format
    → List Tendril
    → List ℕ
    → List (List ℕ)
    → (n : ℕ) → Tendril × Result (Unit {0}) SubtendrilError
    → Mem
    → Type 0
PopBack format ts xs xss n (t, err out_of_bounds) m = (length xs < n) × World m (t ∷ ts) (xs ∷ xss)
PopBack format ts xs xss n (t, err validation_failed) m =
    (n ≤ length xs)
    × (format.validate_prefix (take (length xs - n) xs) ≡ false)
    × World m (t ∷ ts) (xs ∷ xss)
PopBack format ts xs xss n (t, ok _) m =
    (n ≤ length xs)
    × ((n ≡ 0) ⊎ (format.validate_prefix (take (length xs - n) xs) ≡ true))
    × World m (t ∷ ts) (take (length xs - n) xs ∷ xss)

module _ (format : Format) {m : Mem} {t : Tendril} {ts : List Tendril} {xs : List ℕ}
    {xss : List (List ℕ)} where
  -- In a memory where every live tendril stands for its bytes and every header counts the tendrils
  -- that point to it, `try_pop_front` returns the bounds error exactly where `n` is above the
  -- length, the validation error where the format refuses the rest, both with nothing changed, or
  -- drops `n` bytes in front.
  pub try_pop_front_lem :
      (n : ℕ)
      → World m (t ∷ ts) (xs ∷ xss)
      → Returns (PopFront format ts xs xss n) (try_pop_front format t n m)
  unfolding try_pop_front
  try_pop_front_lem n w = elim (Bool-cases (n == 0)) [
    | inl none_asked ↦
        let e : n ≡ 0 = ground arith in rw (none_asked, e) (returned (omega arith, inl refl, w))
    | inr some_asked ↦
        rw (some_asked, len32_lem w.reps.0)
          (elim (Bool-cases (ltb (length xs) n)) [
            | inl outside ↦ rw outside (returned (ground arith, w))
            | inr inside ↦
                let fits : n ≤ length xs = ground arith in
                rw
                  (
                    inside,
                    as_byte_slice_lem w.reps.0,
                    sub32_lem (length xs) n fits (length-lt w.reps.0),
                    unsafe_slice_lem xs n (length xs - n) m (omega arith),
                    ← drop-eq-slice n xs,
                  )
                  (elim (Bool-cases (format.validate_suffix (drop n xs))) [
                    | inl valid ↦ rw valid (
                        Returns.then_do (unsafe_pop_front_lem n fits w)
                          (λ t' m' w'. returned (fits, inr valid, w')))
                    | inr bad ↦ rw bad (returned (fits, bad, w))
                  ])
          ])
  ]

  -- In a memory where every live tendril stands for its bytes and every header counts the tendrils
  -- that point to it, `try_pop_back` returns the bounds error exactly where `n` is above the
  -- length, the validation error where the format refuses what is left, both with nothing changed,
  -- or drops `n` bytes at the end.
  pub try_pop_back_lem :
      (n : ℕ)
      → World m (t ∷ ts) (xs ∷ xss)
      → Returns (PopBack format ts xs xss n) (try_pop_back format t n m)
  unfolding try_pop_back
  try_pop_back_lem n w = elim (Bool-cases (n == 0)) [
    | inl none_asked ↦
        let e : n ≡ 0 = ground arith in
        rw none_asked (
          returned (
            omega arith,
            inl e,
            subst (λ l. World m (t ∷ ts) (l ∷ xss))
                (sym (take_all (length xs - n) xs (omega arith))) w,
          ))
    | inr some_asked ↦
        rw (some_asked, len32_lem w.reps.0)
          (elim (Bool-cases (ltb (length xs) n)) [
            | inl outside ↦ rw outside (returned (ground arith, w))
            | inr inside ↦
                let fits : n ≤ length xs = ground arith in
                rw
                  (
                    inside,
                    as_byte_slice_lem w.reps.0,
                    sub32_lem (length xs) n fits (length-lt w.reps.0),
                    unsafe_slice_lem xs 0 (length xs - n) m (omega arith),
                  )
                  (elim (Bool-cases (format.validate_prefix (take (length xs - n) xs))) [
                    | inl valid ↦ rw valid (
                        Returns.then_do (unsafe_pop_back_lem n fits w)
                          (λ t' m' w'. returned (fits, inr valid, w')))
                    | inr bad ↦ rw bad (returned (fits, bad, w))
                  ])
          ])
  ]
