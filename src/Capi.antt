-- ===== src/Capi.antt =====
-- `capi/src/lib.rs`: the functions that C calls. `*t = …` drops the old value of `*t`. The inline
-- functions of `capi/include/tendril.h` read the fields of a tendril without Rust.
pub mod Laws
use tendril.Common.{ℕ, ◌-◌, List, [], leb, ◌==◌, if◌then◌else◌, length, take}
use tendril.Mem.{Block, M, pure, ◌>>=◌, ◌>>◌, requires, load}
use tendril.Fmt.{bytes}
use tendril.Tendril.{
  Tendril, empty_tag, max_inline_tag, clear_low_bit, raw_len, inline_of, assign, clone,
}
use tendril.Tendril.Edit.{new, clear, push_tendril, push_uninitialized}
use tendril.Tendril.Checked.{subtendril, pop_front, pop_back}
use tendril.Tendril.Extend.{push_slice}

-- The two pointers are different.
unfoldable pub tendril_clone : Tendril → (r : Tendril) → M (Tendril × Tendril)
tendril_clone t r = do (r, copy) ← clone r; t ← assign t copy; pure (t, r)

unfoldable pub tendril_sub : Tendril → (r : Tendril) → (offset length : ℕ) → M (Tendril × Tendril)
tendril_sub t r offset length = do
  (r, sub) ← subtendril bytes r offset length
  t ← assign t sub
  pure (t, r)

unfoldable pub tendril_destroy : Tendril → M Tendril
tendril_destroy t = do fresh ← new; assign t fresh

unfoldable pub tendril_clear : Tendril → M Tendril
tendril_clear t = clear t

unfoldable pub tendril_push_buffer : Tendril → List ℕ → M Tendril
tendril_push_buffer t buffer = push_slice bytes t buffer

unfoldable pub tendril_push_tendril : Tendril → (r : Tendril) → M Tendril
tendril_push_tendril t r = push_tendril bytes t r

unfoldable pub tendril_push_uninit : Tendril → ℕ → M Tendril
tendril_push_uninit t n = push_uninitialized t n

unfoldable pub tendril_pop_front : Tendril → ℕ → M Tendril
tendril_pop_front t n = pop_front bytes t n

unfoldable pub tendril_pop_back : Tendril → ℕ → M Tendril
tendril_pop_back t n = pop_back bytes t n

-- The memory from where `tendril_data` points to.
unfoldable pub tendril_data : Tendril → M (List ℕ)
tendril_data t =
    if leb t.ptr max_inline_tag
    then pure (inline_of t.buf)
    else (do b ← load (clear_low_bit t.ptr); pure b.bytes)

unfoldable pub tendril_len : Tendril → ℕ
tendril_len t =
    if t.ptr == empty_tag then 0 else if leb t.ptr max_inline_tag then t.ptr else raw_len t

-- The bytes that C reads through the two: `tendril_len` bytes from `tendril_data` on.
unfoldable pub tendril_bytes : Tendril → M (List ℕ)
tendril_bytes t = do
  from ← tendril_data t
  requires (leb (tendril_len t) (length from))
  pure (take (tendril_len t) from)
