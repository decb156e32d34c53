-- ===== src/Tendril/Compare.antt =====
-- The comparisons, `Hash`, `Debug` and the views as a slice of `src/tendril.rs`. Slices are compared
-- as the standard library does it: byte by byte, a shorter one before its continuations.
use tendril.Common.{
  ℕ, Ordering, Bool, true, false, not, ◌&&◌, Option, some, List, [], ◌∷◌, ◌++◌, leb, ltb, ◌==◌,
  if◌then◌else◌,
}
use tendril.Mem.{M, pure, ◌>>=◌}
use tendril.Tendril.{Tendril, as_byte_slice, max_inline_tag, low_bit}

unfoldable pub eq_bytes : List ℕ → List ℕ → Bool
eq_bytes [] [] = true
eq_bytes [] (y ∷ ys) = false
eq_bytes (x ∷ xs) [] = false
eq_bytes (x ∷ xs) (y ∷ ys) = (x == y) && eq_bytes xs ys

unfoldable pub cmp_bytes : List ℕ → List ℕ → Ordering
cmp_bytes [] [] = Ordering.eq
cmp_bytes [] (y ∷ ys) = Ordering.lt
cmp_bytes (x ∷ xs) [] = Ordering.gt
cmp_bytes (x ∷ xs) (y ∷ ys) =
    if ltb x y then Ordering.lt else if ltb y x then Ordering.gt else cmp_bytes xs ys

unfoldable pub deref : Tendril → M (List ℕ)
deref t = as_byte_slice t

unfoldable pub borrow : Tendril → M (List ℕ)
borrow t = as_byte_slice t

-- `PartialEq`
unfoldable pub eq : Tendril → Tendril → M Bool
eq t other = do x ← as_byte_slice t; y ← as_byte_slice other; pure (eq_bytes x y)

unfoldable pub ne : Tendril → Tendril → M Bool
ne t other = do x ← as_byte_slice t; y ← as_byte_slice other; pure (not (eq_bytes x y))

-- `Ord` and `PartialOrd`
unfoldable pub cmp : Tendril → Tendril → M Ordering
unfolding deref
cmp t other = do x ← deref t; y ← deref other; pure (cmp_bytes x y)

unfoldable pub partial_cmp : Tendril → Tendril → M (Option Ordering)
unfolding deref
partial_cmp t other = do x ← deref t; y ← deref other; pure (some (cmp_bytes x y))

-- `Hash`: `hash_slice` is what the hasher makes of a slice.
unfoldable pub hash : {H : Type 0} → (hash_slice : List ℕ → H → H) → Tendril → H → M H
hash hash_slice t hasher = do bytes ← as_byte_slice t; pure (hash_slice bytes hasher)

-- The word of `Debug` for the representation.
pub data Kind : Type 0 where
  inline_kind shared_kind owned_kind : Kind

unfoldable pub kind : Tendril → Kind
kind t =
    if leb t.ptr max_inline_tag
    then inline_kind
    else if low_bit t.ptr
    then shared_kind
    else owned_kind

-- "inline", "shared" and "owned"
abbrev pub kind_text : Kind → List ℕ
kind_text inline_kind = 105 ∷ 110 ∷ 108 ∷ 105 ∷ 110 ∷ 101 ∷ []
kind_text shared_kind = 115 ∷ 104 ∷ 97 ∷ 114 ∷ 101 ∷ 100 ∷ []
kind_text owned_kind = 111 ∷ 119 ∷ 110 ∷ 101 ∷ 100 ∷ []

-- `Debug`: "Tendril<", the name of the format, ">(", the kind, ": ", the slice and ")".
unfoldable pub debug :
    (format_name : List ℕ) → (debug_slice : List ℕ → List ℕ) → Tendril → M (List ℕ)
unfolding deref
debug format_name debug_slice t = do
  bytes ← deref t
  pure (
      (84 ∷ 101 ∷ 110 ∷ 100 ∷ 114 ∷ 105 ∷ 108 ∷ 60 ∷ [])
      ++ (format_name
          ++ ((62 ∷ 40 ∷ [])
              ++ (kind_text (kind t) ++ ((58 ∷ 32 ∷ []) ++ (debug_slice bytes ++ (41 ∷ [])))))))
