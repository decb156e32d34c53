-- ===== src/Buf32.antt =====
-- `src/buf32.rs`: the buffer behind an owned or shared tendril.
pub mod Growth
use tendril.Common.{
  ℕ, zero, suc, ◌+◌, ◌-◌, ◌*◌, ◌/◌, ◌^◌, Bool, Option, none, some, List, ltb, leb, ◌==◌, take,
  length, checked_add64, if◌then◌else◌,
}
use tendril.Mem.{Block, M, pure, ◌>>=◌, ◌>>◌, expect, requires, load, alloc, dealloc, realloc}

abbrev pub min_cap : ℕ
min_cap = 16

abbrev pub max_len : ℕ
max_len = 2 ^ 32 - 1

pub record Buf32 : Type 0 where
  pub ptr : ℕ
  pub len : ℕ
  pub cap : ℕ

-- `mem::size_of::<Header<NonAtomic>>()`: a packed `usize` and a `u32`
abbrev pub header_size : ℕ
header_size = 12

unfoldable pub bytes_to_vec_capacity : ℕ → M ℕ
bytes_to_vec_capacity x = do
  x ← expect (checked_add64 x header_size)
  pure (1 + (x - 1) / header_size)

-- `h` is the count of references that the new header starts with; its `cap` starts as 0.
unfoldable pub with_capacity : ℕ → (refcount : ℕ) → M Buf32
with_capacity cap refcount = do
  let cap = if ltb cap min_cap then min_cap else cap
  units ← bytes_to_vec_capacity cap
  ptr ← alloc units header_size refcount 0
  pure (record { ptr = ptr; len = 0; cap = cap })

unfoldable pub destroy : Buf32 → M (Unit {0})
destroy b = do units ← bytes_to_vec_capacity b.cap; dealloc b.ptr units

-- `slice::from_raw_parts` must stay inside the block.
unfoldable pub contents : Buf32 → M (List ℕ)
contents b = do
  block ← load b.ptr
  requires (leb b.len (length block.bytes))
  pure (take b.len block.bytes)

-- `u32::checked_next_power_of_two`: doubling from `p` until `n` is reached, `none` past `2 ^ 31`
abbrev pub double_until : ℕ → ℕ → ℕ → Option ℕ
double_until zero p n = none
double_until (suc rounds) p n =
    let rest = double_until rounds (2 * p) n in if leb n p then some p else rest

unfoldable pub checked_next_power_of_two : ℕ → Option ℕ
checked_next_power_of_two n = double_until 32 1 n

-- `Vec::reserve_exact` on a vector of length 0 whose capacity is that of the block
unfoldable pub reserve_exact : ℕ → (old_units additional : ℕ) → M ℕ
reserve_exact p old_units additional = do
  b ← load p
  requires (b.units == old_units)
  if leb additional old_units then pure p else realloc p additional header_size

unfoldable pub grow : Buf32 → ℕ → M Buf32
grow b new_cap = if leb new_cap b.cap then pure b else do
  new_cap ← expect (checked_next_power_of_two new_cap)
  old_units ← bytes_to_vec_capacity b.cap
  units ← bytes_to_vec_capacity new_cap
  ptr ← reserve_exact b.ptr old_units units
  pure (record { ptr = ptr; len = b.len; cap = new_cap })
