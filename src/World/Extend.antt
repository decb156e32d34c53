-- ===== src/World/Extend.antt =====
-- `try_from_byte_slice`, `try_push_bytes`, `Extend` and `FromIterator` over slices and bytes of
-- `src/tendril.rs`.
use tendril.Common.{
  ℕ, ◌+◌, ◌≤◌, ◌<◌, ◌^◌, ◌≡◌, refl, inl, inr, true, false, some, Result, ok, err, List, [], ◌∷◌,
  ◌++◌, append-nil, append_assoc, arith, Bool-cases, length, length-append, as_u32,
}
use tendril.Mem.{Mem}
use tendril.Fmt.{Format, default_fixup, bytes}
use tendril.Tendril.{Tendril}
use tendril.Tendril.Checked.{try_from_byte_slice, try_push_bytes}
use tendril.Tendril.Extend.{push_slice, extend_slices, from_iter_slices, push_bytes, extend_bytes}
use tendril.World.{World}
use tendril.World.Cut.{new_lem}
use tendril.World.Push.{push_plain}
use tendril.World.Reserve.{from_byte_slice_without_validating_lem, force_reserve_lem}
use tendril.World.Returns
use tendril.World.Returns.{Returns, returned}

abbrev pub concat : List (List ℕ) → List ℕ
concat [] = []
concat (x ∷ rest) = x ++ concat rest

-- A format whose fixups do nothing.
abbrev pub IsPlain : Format → Type 0
IsPlain format = (old buf : List ℕ) → format.fixup old buf ≡ some default_fixup

-- What the two checked ways to take bytes in promise.
abbrev pub FromBytes :
    Format → List Tendril → List (List ℕ) → (x : List ℕ) → Result Tendril (Unit {0}) → Mem → Type 0
FromBytes format ts xss x (err _) m = (format.validate x ≡ false) × World m ts xss
FromBytes format ts xss x (ok t) m = (format.validate x ≡ true) × World m (t ∷ ts) (x ∷ xss)

abbrev pub PushBytes :
    Format
    → List Tendril
    → List ℕ
    → List (List ℕ)
    → (buf : List ℕ) → Tendril × Result (Unit {0}) (Unit {0})
    → Mem
    → Type 0
PushBytes format ts xs xss buf (t, err _) m =
    (format.validate buf ≡ false) × World m (t ∷ ts) (xs ∷ xss)
PushBytes format ts xs xss buf (t, ok _) m =
    (format.validate buf ≡ true) × World m (t ∷ ts) ((xs ++ buf) ∷ xss)

module _ (format : Format) where
  pub try_from_byte_slice_lem :
      {m : Mem} {ts : List Tendril} {xss : List (List ℕ)} (x : List ℕ)
      → length x < 2 ^ 32
      → World m ts xss
      → Returns (FromBytes format ts xss x) (try_from_byte_slice format x m)
  unfolding try_from_byte_slice
  try_from_byte_slice_lem x bound w = elim (Bool-cases (format.validate x)) [
    | inl valid ↦ rw valid (
        Returns.then_do (from_byte_slice_without_validating_lem x bound w)
          (λ t m' w'. returned (valid, w')))
    | inr bad ↦ rw bad (returned (bad, w))
  ]

  module _ (plain : IsPlain format) where
    -- In a memory where every live tendril stands for its bytes and every header counts the
    -- tendrils that point to it, for a format without fixups and a total of at most 2^31 bytes,
    -- `try_push_bytes` fails exactly where the format refuses the bytes, with nothing changed, and
    -- else appends them.
    pub try_push_bytes_lem :
        {m : Mem} {t : Tendril} {ts : List Tendril} {xs : List ℕ} {xss : List (List ℕ)}
        (buf : List ℕ)
        → length xs + length buf ≤ 2 ^ 31
        → World m (t ∷ ts) (xs ∷ xss)
        → Returns (PushBytes format ts xs xss buf) (try_push_bytes format t buf m)
    unfolding try_push_bytes
    try_push_bytes_lem {xs} buf bound w = elim (Bool-cases (format.validate buf)) [
      | inl valid ↦ rw valid (
          Returns.then_do (push_plain format buf (plain xs buf) bound w)
            (λ t m' w'. returned (valid, w')))
      | inr bad ↦ rw bad (returned (bad, w))
    ]

    pub push_slice_lem :
        {m : Mem} {t : Tendril} {ts : List Tendril} {xs : List ℕ} {xss : List (List ℕ)}
        (buf : List ℕ)
        → length xs + length buf ≤ 2 ^ 31
        → World m (t ∷ ts) (xs ∷ xss)
        → Returns (λ t' m'. World m' (t' ∷ ts) ((xs ++ buf) ∷ xss)) (push_slice format t buf m)
    unfolding push_slice
    push_slice_lem {xs} buf bound w = push_plain format buf (plain xs buf) bound w

    -- In a memory where every live tendril stands for its bytes and every header counts the
    -- tendrils that point to it, `extend` with slices appends them in order, for a format without
    -- fixups and a total of at most 2^31 bytes.
    pub extend_slices_lem :
        {m : Mem} {t : Tendril} {ts : List Tendril} {xs : List ℕ} {xss : List (List ℕ)}
        (slices : List (List ℕ))
        → length xs + length (concat slices) ≤ 2 ^ 31
        → World m (t ∷ ts) (xs ∷ xss)
        → Returns
            (λ t' m'. World m' (t' ∷ ts) ((xs ++ concat slices) ∷ xss))
            (extend_slices format t slices m)
    unfolding extend_slices
    extend_slices_lem [] bound w = rw append-nil (returned w)
    extend_slices_lem {xs} (x ∷ rest) bound w =
        let size = length-append x (concat rest) in
        Returns.then_do (push_slice_lem x (omega (arith, bound, size)) w) (λ t' m' w'.
          rw (← append_assoc xs x (concat rest))
            (extend_slices_lem rest (omega (arith, bound, size, length-append xs x)) w'))

    pub from_iter_slices_lem :
        {m : Mem} {ts : List Tendril} {xss : List (List ℕ)} (slices : List (List ℕ))
        → length (concat slices) ≤ 2 ^ 31
        → World m ts xss
        → Returns
            (λ t' m'. World m' (t' ∷ ts) (concat slices ∷ xss))
            (from_iter_slices format slices m)
    unfolding from_iter_slices
    from_iter_slices_lem slices bound w =
        Returns.then_do (new_lem w) (λ t m' (w', _, _). extend_slices_lem slices (omega arith) w')

pub bytes-IsPlain : IsPlain bytes
unfolding bytes
bytes-IsPlain old buf = refl

pub push_bytes_lem :
    {m : Mem} {t : Tendril} {ts : List Tendril} {xs : List ℕ} {xss : List (List ℕ)} (rest : List ℕ)
    → length xs + length rest ≤ 2 ^ 31
    → World m (t ∷ ts) (xs ∷ xss)
    → Returns (λ t' m'. World m' (t' ∷ ts) ((xs ++ rest) ∷ xss)) (push_bytes t rest m)
unfolding push_bytes
push_bytes_lem [] bound w = rw append-nil (returned w)
push_bytes_lem {xs} (b ∷ rest) bound w =
    Returns.then_do (push_slice_lem bytes bytes-IsPlain (b ∷ []) (omega arith) w) (λ t' m' w'.
      rw (← append_assoc xs (b ∷ []) rest)
        (push_bytes_lem rest (omega (arith, length-append xs (b ∷ []))) w'))

pub extend_bytes_lem :
    {m : Mem} {t : Tendril} {ts : List Tendril} {xs : List ℕ} {xss : List (List ℕ)} (size_hint : ℕ)
    (rest : List ℕ)
    → length xs + as_u32 size_hint ≤ 2 ^ 31
    → length xs + length rest ≤ 2 ^ 31
    → World m (t ∷ ts) (xs ∷ xss)
    → Returns (λ t' m'. World m' (t' ∷ ts) ((xs ++ rest) ∷ xss)) (extend_bytes t size_hint rest m)
unfolding extend_bytes
extend_bytes_lem size_hint rest hint bound w =
    Returns.then_do (force_reserve_lem (as_u32 size_hint) hint w)
      (λ t' m' (w', _). push_bytes_lem rest bound w')
