-- ===== src/Tests/Examples.antt =====
-- The theorems at the memory of `Tests.Memory`, whose two tendrils are slices of one buffer.
use tendril.Common.{
  ℕ, ◌≤◌, ◌≡◌, refl, ◌⊎◌, some, List, [], ◌∷◌, ◌++◌, arith, slice, drop, inl, replicate, ◌+◌, true,
  false,
}
use tendril.Mem.{done, ◌>>=◌}
use tendril.Fmt.{bytes, ascii, default_fixup}
use tendril.Tendril.{
  Tendril, inline, is_shared, as_byte_slice, drop_tendril, clone, make_owned_with_capacity,
}
use tendril.Tendril.Edit.{
  push_bytes_without_validating, push_tendril, unsafe_subtendril, unsafe_pop_front, reserve,
}
use tendril.Tendril.Checked.{try_subtendril, try_pop_front, try_pop_back}
use tendril.Tendril.Convert.{to_tendril, into_string}
use tendril.World.{is_inline, World}
use tendril.World.Convert.{into_string-to_tendril}
use tendril.World.Returns.{Returns}
use tendril.World.Read.{as_byte_slice_lem}
use tendril.World.Drop.{drop_tendril_lem}
use tendril.World.Share.{clone_lem}
use tendril.World.Cut.{unsafe_subtendril_lem, unsafe_pop_front_lem}
use tendril.World.Push.{push_bytes_without_validating_lem}
use tendril.World.Splice.{spliced, IsFixup}
use tendril.World.Join.{push_tendril_lem}
use tendril.World.Checked.{
  Subtendril, PopFront, PopBack, try_subtendril_lem, try_pop_front_lem, try_pop_back_lem,
}
use tendril.World.Own.{IsRoomy, make_owned_with_capacity_lem}
use tendril.World.Reserve.{room, reserve_lem}
use tendril.Tests.Memory.{blank, blank-World, mem, front, back, front_bytes, back_bytes, mem-World}

abbrev text : List ℕ
text = 120 ∷ 121 ∷ 122 ∷ []

plain : bytes.fixup front_bytes text ≡ some default_fixup
unfolding bytes
plain = refl

default_IsFixup : IsFixup default_fixup front_bytes text
unfolding default_fixup
default_IsFixup = record { left = omega arith; right = omega arith; insert = omega arith }

push_bytes_without_validating_example :
    Returns
      (λ t' m'.
        World m' (t' ∷ back ∷ []) (spliced default_fixup front_bytes text ∷ back_bytes ∷ []))
      (push_bytes_without_validating bytes front text mem)
unfolding default_fixup
push_bytes_without_validating_example =
    push_bytes_without_validating_lem bytes text default_fixup plain default_IsFixup (omega arith)
      mem-World

plain_back : bytes.fixup front_bytes back_bytes ≡ some default_fixup
unfolding bytes
plain_back = refl

push_tendril_example :
    Returns
      (λ t' m'. World m' (t' ∷ back ∷ []) ((front_bytes ++ back_bytes) ∷ back_bytes ∷ []))
      (push_tendril bytes front back mem)
push_tendril_example = push_tendril_lem bytes plain_back (omega arith) mem-World

unsafe_subtendril_example :
    Returns
      (λ (t', s) m'.
        World m' (t' ∷ s ∷ back ∷ []) (front_bytes ∷ slice 1 10 front_bytes ∷ back_bytes ∷ []))
      (unsafe_subtendril front 1 10 mem)
unsafe_subtendril_example = unsafe_subtendril_lem 1 10 (omega arith) (omega arith) mem-World

unsafe_pop_front_example :
    Returns
      (λ t' m'. World m' (t' ∷ back ∷ []) (drop 2 front_bytes ∷ back_bytes ∷ []))
      (unsafe_pop_front front 2 mem)
unsafe_pop_front_example = unsafe_pop_front_lem 2 (omega arith) mem-World

drop_tendril_example :
    Returns (λ _ m'. World m' (back ∷ []) (back_bytes ∷ [])) (drop_tendril front mem)
drop_tendril_example = drop_tendril_lem mem-World

clone_example :
    Returns
      (λ (t', copy) m'.
        World m' (t' ∷ copy ∷ back ∷ []) (front_bytes ∷ front_bytes ∷ back_bytes ∷ []))
      (clone front mem)
clone_example = clone_lem (omega arith) mem-World

try_subtendril_example :
    Returns
      (Subtendril ascii (back ∷ []) front_bytes (back_bytes ∷ []) 1 10)
      (try_subtendril ascii front 1 10 mem)
try_subtendril_example = try_subtendril_lem ascii 1 10 (omega arith) mem-World

try_pop_front_example :
    Returns
      (PopFront ascii (back ∷ []) front_bytes (back_bytes ∷ []) 2)
      (try_pop_front ascii front 2 mem)
try_pop_front_example = try_pop_front_lem ascii 2 mem-World

as_byte_slice_example : as_byte_slice front mem ≡ done front_bytes mem
as_byte_slice_example = as_byte_slice_lem mem-World.reps.0

-- An empty inline tendril
abbrev empty : Tendril
empty = record { ptr = 15; buf = inline (replicate 8 0) }

empty-World : World blank (empty ∷ []) ([] ∷ [])
empty-World = record {
  fresh = blank-World.fresh;
  reps = (is_inline {n = 0} (inl (refl, refl)) refl refl, tt);
  counts = λ a. ground arith;
  live = blank-World.live;
}

reserve_example :
    Returns
      (λ t' m'.
        World m' (t' ∷ []) ([] ∷ [])
        × ((is_shared empty ≡ true) × (t' ≡ empty)
            ⊎ (is_shared empty ≡ false) × ((0 + 100 ≤ 8) ⊎ (0 + 100 ≤ room t'))))
      (reserve empty 100 blank)
reserve_example = reserve_lem 100 (omega arith) empty-World

make_owned_with_capacity_example :
    Returns
      (λ t' m'. World m' (t' ∷ back ∷ []) (front_bytes ∷ back_bytes ∷ []) × IsRoomy 100 t')
      (make_owned_with_capacity front 100 mem)
make_owned_with_capacity_example = make_owned_with_capacity_lem 100 (omega arith) mem-World

try_pop_back_example :
    Returns
      (PopBack ascii (back ∷ []) front_bytes (back_bytes ∷ []) 2)
      (try_pop_back ascii front 2 mem)
try_pop_back_example = try_pop_back_lem ascii 2 mem-World

into_string-to_tendril_example :
    Returns
      (λ s m'. (s ≡ front_bytes) × World m' (front ∷ back ∷ []) (front_bytes ∷ back_bytes ∷ []))
      ((do t ← to_tendril bytes front_bytes; into_string t) mem)
into_string-to_tendril_example = into_string-to_tendril bytes front_bytes (omega arith) mem-World
