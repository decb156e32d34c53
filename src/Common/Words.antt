-- ===== src/Common/Words.antt =====
-- `u32` and `usize` arithmetic: wrapping operations, and the checked ones of the standard library.
use Prim.Native.Nat.{ℕ, ◌+◌, ◌-◌, ◌%◌, ◌^◌, ◌≤◌, ◌<◌}
use mathlib.Core.Path.{◌≡◌}
use mathlib.Core.Option.{Option, none, some}
use native.Mathlib.Omega.{arith}
use tendril.Common.Lists.{ltb, if◌then◌else◌}

-- `a + b` and `a - b` at `u32`, and `a - b` at a 64-bit `usize`
unfoldable pub add32 : ℕ → ℕ → ℕ
add32 a b = (a + b) % 2 ^ 32

unfoldable pub sub32 : ℕ → ℕ → ℕ
sub32 a b = (a + 2 ^ 32 - b) % 2 ^ 32

unfoldable pub sub64 : ℕ → ℕ → ℕ
sub64 a b = (a + 2 ^ 64 - b) % 2 ^ 64

-- `n as u32`
unfoldable pub as_u32 : ℕ → ℕ
as_u32 n = n % 2 ^ 32

-- `u32::checked_add` and `usize::checked_add`
unfoldable pub checked_add32 : ℕ → ℕ → Option ℕ
checked_add32 a b = if ltb (a + b) (2 ^ 32) then some (a + b) else none

unfoldable pub checked_add64 : ℕ → ℕ → Option ℕ
checked_add64 a b = if ltb (a + b) (2 ^ 64) then some (a + b) else none

pub add32_lem : (a b : ℕ) → a + b < 2 ^ 32 → add32 a b ≡ a + b
unfolding add32
add32_lem a b h = omega arith

pub sub32_lem : (a b : ℕ) → b ≤ a → a < 2 ^ 32 → sub32 a b ≡ a - b
unfolding sub32
sub32_lem a b h k = omega arith

pub sub64_lem : (a b : ℕ) → b ≤ a → a < 2 ^ 64 → sub64 a b ≡ a - b
unfolding sub64
sub64_lem a b h k = omega arith

pub as_u32_lem : (n : ℕ) → n < 2 ^ 32 → as_u32 n ≡ n
unfolding as_u32
as_u32_lem n h = omega arith

pub checked_add32_lem : (a b : ℕ) → a + b < 2 ^ 32 → checked_add32 a b ≡ some (a + b)
unfolding checked_add32
checked_add32_lem a b h = ground arith

pub checked_add32-none : (a b : ℕ) → 2 ^ 32 ≤ a + b → checked_add32 a b ≡ none
unfolding checked_add32
checked_add32-none a b h = ground arith

pub checked_add64_lem : (a b : ℕ) → a + b < 2 ^ 64 → checked_add64 a b ≡ some (a + b)
unfolding checked_add64
checked_add64_lem a b h = ground arith
