-- ===== src/Refcount.antt =====
-- `trait Atomicity` of `src/tendril.rs`: the counter of references in a header, without threads
-- (`NonAtomic`), and with wrapping atomics (`Atomic`) as one thread sees them.
use tendril.Common.{ℕ, ◌+◌, ◌%◌, ◌^◌, sub64, checked_add64}
use tendril.Mem.{M, pure, ◌>>=◌, expect}

-- `NonAtomic`. The first part of a result is what the method returns, the second the new counter.
unfoldable pub new_count : ℕ
new_count = 1

unfoldable pub increment : ℕ → M (ℕ × ℕ)
increment value = do next ← expect (checked_add64 value 1); pure (value, next)

unfoldable pub decrement : ℕ → ℕ × ℕ
decrement value = (value, sub64 value 1)

-- `Atomic`: `fetch_add` and `fetch_sub` wrap.
unfoldable pub atomic_new_count : ℕ
atomic_new_count = 1

unfoldable pub atomic_increment : ℕ → ℕ × ℕ
atomic_increment value = (value, (value + 1) % 2 ^ 64)

unfoldable pub atomic_decrement : ℕ → ℕ × ℕ
atomic_decrement value = (value, sub64 value 1)
