-- ===== src/Tendril/Extend.antt =====
-- `Extend`, `FromIterator`, `io::Write`, `fmt::Write`, `FromStr` and the `From` conversions of
-- `src/tendril.rs`. An iterator is the list of what it yields, with the lower bound that its
-- `size_hint` gives.
use tendril.Common.{ℕ, List, [], ◌∷◌, as_u32, length}
use tendril.Mem.{M, pure, ◌>>=◌}
use tendril.Fmt.{Format, bytes}
use tendril.Tendril.{Tendril}
use tendril.Tendril.Edit.{
  new, force_reserve, from_byte_slice_without_validating, push_bytes_without_validating,
  push_tendril,
}
use tendril.Tendril.Chars.{push_char}

module _ (format : Format) where
  -- `from_slice` and `push_slice`, on the bytes of the slice
  unfoldable pub from_slice : List ℕ → M Tendril
  from_slice x = from_byte_slice_without_validating x

  unfoldable pub push_slice : Tendril → List ℕ → M Tendril
  push_slice t x = push_bytes_without_validating format t x

  unfoldable pub push_chars : Tendril → List ℕ → M Tendril
  push_chars t [] = pure t
  push_chars t (c ∷ cs) = do t ← push_char format t c; push_chars t cs

  unfoldable pub extend_chars : Tendril → (size_hint : ℕ) → List ℕ → M Tendril
  extend_chars t size_hint cs = do t ← force_reserve t (as_u32 size_hint); push_chars t cs

  unfoldable pub from_iter_chars : (size_hint : ℕ) → List ℕ → M Tendril
  from_iter_chars size_hint cs = do output ← new; extend_chars output size_hint cs

  -- `Extend<&str>` and `Extend<&[u8]>`
  unfoldable pub extend_slices : Tendril → List (List ℕ) → M Tendril
  extend_slices t [] = pure t
  extend_slices t (s ∷ rest) = do t ← push_slice t s; extend_slices t rest

  unfoldable pub from_iter_slices : List (List ℕ) → M Tendril
  from_iter_slices rest = do output ← new; extend_slices output rest

  unfoldable pub extend_tendrils : Tendril → List Tendril → M Tendril
  extend_tendrils t [] = pure t
  extend_tendrils t (other ∷ rest) = do t ← push_tendril format t other; extend_tendrils t rest

  -- `fmt::Write::write_str` and `io::Write::write_all`
  unfoldable pub write_str : Tendril → List ℕ → M Tendril
  write_str t s = push_slice t s

-- `Extend<u8>` for `Tendril<Bytes>`
unfoldable pub push_bytes : Tendril → List ℕ → M Tendril
push_bytes t [] = pure t
push_bytes t (b ∷ rest) = do t ← push_slice bytes t (b ∷ []); push_bytes t rest

unfoldable pub extend_bytes : Tendril → (size_hint : ℕ) → List ℕ → M Tendril
extend_bytes t size_hint rest = do t ← force_reserve t (as_u32 size_hint); push_bytes t rest

-- `io::Write::write`: all of the buffer is taken.
unfoldable pub write : Tendril → List ℕ → M (Tendril × ℕ)
write t buf = do t ← push_slice bytes t buf; pure (t, length buf)
