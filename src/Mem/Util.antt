-- ===== src/Mem/Util.antt =====
-- `src/util.rs`: slices taken without a check, and a copy that moves its destination on.
use tendril.Common.{ℕ, ◌+◌, List, leb, length, slice, overwrite}
use tendril.Mem.{M, pure, ◌>>◌, requires}

-- The length of the slice is the third argument, and a slice out of bounds is undefined.
unfoldable pub unsafe_slice : List ℕ → ℕ → ℕ → M (List ℕ)
unsafe_slice buf start new_len = do
  requires (leb (start + new_len) (length buf))
  pure (slice start new_len buf)

-- The destination is a buffer and an offset into it; the copy must stay inside.
unfoldable pub copy_and_advance : List ℕ → ℕ → List ℕ → M (List ℕ × ℕ)
copy_and_advance buf dest src = do
  requires (leb (dest + length src) (length buf))
  pure (overwrite dest src buf, dest + length src)
