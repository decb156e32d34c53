-- ===== src/World/Reserve.antt =====
-- `with_capacity`, `reserve`, `from_byte_slice_without_validating`, `push_uninitialized` and
-- `into_send` of `src/tendril.rs`.
use tendril.Common.{
  ℕ, ◌+◌, ◌-◌, ◌%◌, ◌≤◌, ◌<◌, ◌^◌, ◌≡◌, refl, ◌⊎◌, inl, inr, true, false, List, [], ◌∷◌, arith, leb,
  ltb, leb-true, Bool-cases, length, if◌then◌else◌, ◌==◌, checked_add32_lem,
}
use tendril.Mem.{Mem}
use tendril.Tendril.{Tendril, is_shared, aux}
use tendril.Tendril.Edit.{
  with_capacity, force_reserve, reserve, from_byte_slice_without_validating, into_send,
}
use tendril.World.{World}
use tendril.World.Read.{len32_lem}
use tendril.World.Create.{inlined_lem, owned_copy_lem}
use tendril.World.Own.{make_owned_with_capacity_lem, IsRoomy}
use tendril.World.Owned.{make_owned_lem}
use tendril.World.Cut.{new_lem}
use tendril.World.Returns
use tendril.World.Returns.{Returns, returned}

-- How many bytes fit the tendril's own storage: none, if it is shared.
abbrev pub room : Tendril → ℕ
room t = if leb t.ptr 15 then 8 else if t.ptr % 2 == 0 then aux t else 0

room-IsRoomy : (want : ℕ) (t : Tendril) → IsRoomy want t → want ≤ room t
room-IsRoomy want t r = ground arith

-- In a memory where every live tendril stands for its bytes and every header counts the tendrils
-- that point to it, `with_capacity` up to 2^31 returns an empty tendril with the room that was
-- asked for, beside the others.
pub with_capacity_lem :
    {m : Mem} {ts : List Tendril} {xss : List (List ℕ)} (capacity : ℕ)
    → capacity ≤ 2 ^ 31
    → World m ts xss
    → Returns
        (λ t m'. World m' (t ∷ ts) ([] ∷ xss) × (capacity ≤ room t))
        (with_capacity capacity m)
unfolding with_capacity
with_capacity_lem capacity bound w = Returns.then_do (new_lem w) (λ t m' (w', _, tag).
    elim (Bool-cases (ltb 8 capacity)) [
      | inl large ↦ rw large (
          Returns.weaken (make_owned_with_capacity_lem capacity bound w')
            (λ t' m'' (w'', roomy). (w'', room-IsRoomy capacity t' roomy)))
      | inr small ↦ rw small (returned (w', ground arith))
    ])

-- `force_reserve` keeps the bytes, and owns room for more unless they fit inline.
pub force_reserve_lem :
    {m : Mem} {t : Tendril} {ts : List Tendril} {xs : List ℕ} {xss : List (List ℕ)} (additional : ℕ)
    → length xs + additional ≤ 2 ^ 31
    → World m (t ∷ ts) (xs ∷ xss)
    → Returns
        (λ t' m'.
          World m' (t' ∷ ts) (xs ∷ xss)
          × ((length xs + additional ≤ 8) ⊎ (length xs + additional ≤ room t')))
        (force_reserve t additional m)
unfolding force_reserve
force_reserve_lem {xs} additional bound w =
    rw (len32_lem w.reps.0, checked_add32_lem (length xs) additional (omega arith))
      (elim (Bool-cases (ltb 8 (length xs + additional))) [
        | inl large ↦ rw large (
            Returns.weaken (make_owned_with_capacity_lem (length xs + additional) bound w)
              (λ t' m'' (w'', roomy). (w'', inr (room-IsRoomy (length xs + additional) t' roomy))))
        | inr small ↦ rw small (returned (w, inl (ground arith)))
      ])

-- In a memory where every live tendril stands for its bytes and every header counts the tendrils
-- that point to it, `reserve` up to a total of 2^31 bytes keeps all bytes: a shared tendril is
-- returned as it is, and any other has the room, unless the total fits inline.
pub reserve_lem :
    {m : Mem} {t : Tendril} {ts : List Tendril} {xs : List ℕ} {xss : List (List ℕ)} (additional : ℕ)
    → length xs + additional ≤ 2 ^ 31
    → World m (t ∷ ts) (xs ∷ xss)
    → Returns
        (λ t' m'.
          World m' (t' ∷ ts) (xs ∷ xss)
          × ((is_shared t ≡ true) × (t' ≡ t)
              ⊎ (is_shared t ≡ false)
                × ((length xs + additional ≤ 8) ⊎ (length xs + additional ≤ room t'))))
        (reserve t additional m)
unfolding reserve
reserve_lem {t} additional bound w = elim (Bool-cases (is_shared t)) [
  | inl held ↦ rw held (returned (w, inl (refl, refl)))
  | inr free ↦ rw free (
      Returns.weaken (force_reserve_lem additional bound w)
        (λ t' m' (w', enough). (w', inr (refl, enough))))
]

-- In a memory where every live tendril stands for its bytes and every header counts the tendrils
-- that point to it, a tendril made of a slice of fewer than 2^32 bytes stands for the bytes of the
-- slice, and no other tendril changes.
pub from_byte_slice_without_validating_lem :
    {m : Mem} {ts : List Tendril} {xss : List (List ℕ)} (x : List ℕ)
    → length x < 2 ^ 32
    → World m ts xss
    → Returns (λ t m'. World m' (t ∷ ts) (x ∷ xss)) (from_byte_slice_without_validating x m)
unfolding from_byte_slice_without_validating
from_byte_slice_without_validating_lem x bound w =
    rw (leb-true (length x) (2 ^ 32 - 1) (omega arith)) (elim (Bool-cases (leb (length x) 8)) [
      | inl small ↦
          rw small (Returns.weaken (inlined_lem x (ground arith) w) (λ t m' (w', _, _). w'))
      | inr large ↦ rw large (Returns.weaken (owned_copy_lem x bound w) (λ t m' (w', _, _). w'))
    ])

-- In a memory where every live tendril stands for its bytes and every header counts the tendrils
-- that point to it, `into_send` keeps the bytes, and its result owns its buffer: its pointer has no
-- shared bit.
pub into_send_lem :
    {m : Mem} {t : Tendril} {ts : List Tendril} {xs : List ℕ} {xss : List (List ℕ)}
    → World m (t ∷ ts) (xs ∷ xss)
    → Returns
        (λ t' m'. World m' (t' ∷ ts) (xs ∷ xss) × (15 < t'.ptr) × (t'.ptr % 2 ≡ 0))
        (into_send t m)
unfolding into_send
into_send_lem w = make_owned_lem w
