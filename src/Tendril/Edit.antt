-- ===== src/Tendril/Edit.antt =====
-- The unchecked mutators and constructors of `impl Tendril` in `src/tendril.rs`.
use tendril.Common.{
  ℕ, ◌+◌, Bool, false, ◌&&◌, List, [], leb, ltb, ◌==◌, if◌then◌else◌, length, take, replicate,
  add32, sub32, sub64, as_u32, checked_add32,
}
use tendril.Mem.{M, pure, ◌>>=◌, ◌>>◌, expect, assert, write_bytes}
use tendril.Mem.Util.{unsafe_slice, copy_and_advance}
use tendril.Buf32.{max_len}
use tendril.Fmt.{Format, Fixup}
use tendril.Tendril.{
  Tendril, max_inline_len, max_inline_tag, empty_tag, inline_tag, len32, is_shared, raw_len,
  set_len, aux, set_aux, assume_buf, inlined, owned_copy, shared, as_byte_slice, incref, assign,
  make_buf_shared, make_owned, make_owned_with_capacity,
}

-- `Tendril::new`
unfoldable pub new : M Tendril
new = inlined []

unfoldable pub with_capacity : ℕ → M Tendril
with_capacity capacity = do
  t ← new
  if ltb max_inline_len capacity then make_owned_with_capacity t capacity else pure t

unfoldable pub force_reserve : Tendril → ℕ → M Tendril
force_reserve t additional = do
  new_len ← expect (checked_add32 (len32 t) additional)
  if ltb max_inline_len new_len then make_owned_with_capacity t new_len else pure t

unfoldable pub reserve : Tendril → ℕ → M Tendril
reserve t additional = if is_shared t then pure t else force_reserve t additional

unfoldable pub clear : Tendril → M Tendril
clear t = if leb t.ptr max_inline_tag then pure (record t { ptr = empty_tag }) else (do
  (_, shared, _) ← assume_buf t
  if shared then (do fresh ← new; assign t fresh) else pure (set_len t 0))

unfoldable pub from_byte_slice_without_validating : List ℕ → M Tendril
from_byte_slice_without_validating x = do
  assert (leb (length x) max_len)
  if leb (length x) max_inline_len then inlined x else owned_copy x

-- The three copies of `push_bytes_without_validating` into its array of 8 bytes.
unfoldable pub splice_inline : Fixup → (old buf : List ℕ) → M (List ℕ)
splice_inline fx old buf = do
  kept ← unsafe_slice old 0 (sub64 (length old) fx.drop_left)
  (tmp, dest) ← copy_and_advance (replicate max_inline_len 0) 0 kept
  inserted ← unsafe_slice fx.insert_bytes 0 fx.insert_len
  (tmp, dest) ← copy_and_advance tmp dest inserted
  pushed ← unsafe_slice buf fx.drop_right (sub64 (length buf) fx.drop_right)
  (tmp, dest) ← copy_and_advance tmp dest pushed
  pure tmp

-- Its two copies into the heap buffer of an owned tendril.
unfoldable pub splice_heap : Fixup → Tendril → List ℕ → M (Unit {0})
splice_heap fx t buf = do
  (owned, _, _) ← assume_buf t
  let dest = sub64 owned.len fx.drop_left
  inserted ← unsafe_slice fx.insert_bytes 0 fx.insert_len
  write_bytes owned.ptr dest inserted
  pushed ← unsafe_slice buf fx.drop_right (sub64 (length buf) fx.drop_right)
  write_bytes owned.ptr (dest + length inserted) pushed

unfoldable pub push_bytes_without_validating : Format → Tendril → List ℕ → M Tendril
push_bytes_without_validating format t buf = do
  assert (leb (length buf) max_len)
  old ← as_byte_slice t
  fx ← expect (format.fixup old buf)
  let adj_len = sub32 (add32 (len32 t) fx.insert_len) fx.drop_left
  sum ← expect (checked_add32 adj_len (as_u32 (length buf)))
  let new_len = sub32 sum fx.drop_right
  if leb new_len max_inline_len
      then (do
        old ← as_byte_slice t
        tmp ← splice_inline fx old buf
        fresh ← inlined (take new_len tmp)
        assign t fresh)
      else (do
        t ← make_owned_with_capacity t new_len
        splice_heap fx t buf
        pure (set_len t new_len))

-- Two shared slices of one buffer, the second where the first ends.
unfoldable pub adjacent : Tendril → Tendril → M Bool
adjacent t other =
    if ltb max_inline_tag t.ptr && ltb max_inline_tag other.ptr
    then (do
      (self_buf, self_shared, _) ← assume_buf t
      (other_buf, other_shared, _) ← assume_buf other
      pure (
          self_shared
          && (other_shared
              && ((self_buf.ptr == other_buf.ptr) && (aux other == add32 (aux t) (raw_len t))))))
    else pure false

unfoldable pub push_tendril : Format → Tendril → (other : Tendril) → M Tendril
push_tendril format t other = do
  new_len ← expect (checked_add32 (len32 t) (len32 other))
  joined ← adjacent t other
  if joined
      then pure (set_len t new_len)
      else (do bytes ← as_byte_slice other; push_bytes_without_validating format t bytes)

-- The receiver, and the slice.
unfoldable pub unsafe_subtendril : Tendril → (offset length : ℕ) → M (Tendril × Tendril)
unsafe_subtendril t offset length =
    if leb length max_inline_len
    then (do
      bytes ← as_byte_slice t
      part ← unsafe_slice bytes offset length
      sub ← inlined part
      pure (t, sub))
    else (do
      t ← make_buf_shared t
      incref t
      (buf, _, _) ← assume_buf t
      pure (t, shared buf (add32 (aux t) offset) length))

unfoldable pub unsafe_pop_front : Tendril → ℕ → M Tendril
unsafe_pop_front t n = do
  let new_len = sub32 (len32 t) n
  if leb new_len max_inline_len
      then (do
        bytes ← as_byte_slice t
        rest ← unsafe_slice bytes n new_len
        fresh ← inlined rest
        assign t fresh)
      else (do
        t ← make_buf_shared t
        let t = set_aux t (add32 (aux t) n)
        pure (set_len t (sub32 (raw_len t) n)))

unfoldable pub unsafe_pop_back : Tendril → ℕ → M Tendril
unsafe_pop_back t n = do
  let new_len = sub32 (len32 t) n
  if leb new_len max_inline_len
      then (do
        bytes ← as_byte_slice t
        rest ← unsafe_slice bytes 0 new_len
        fresh ← inlined rest
        assign t fresh)
      else (do t ← make_buf_shared t; pure (set_len t (sub32 (raw_len t) n)))

unfoldable pub push_uninitialized : Tendril → ℕ → M Tendril
push_uninitialized t n = do
  new_len ← expect (checked_add32 (len32 t) n)
  if leb new_len max_inline_len && leb t.ptr max_inline_tag
      then pure (record t { ptr = inline_tag new_len })
      else (do t ← make_owned_with_capacity t new_len; pure (set_len t new_len))

-- `into_send`: the tendril that the `SendTendril` wraps.
unfoldable pub into_send : Tendril → M Tendril
into_send t = make_owned t
