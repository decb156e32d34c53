-- ===== src/Tendril/Views.antt =====
-- `as_mut_byte_slice` of `src/tendril.rs`, and a store through the slice that it returns.
use tendril.Common.{ℕ, ◌+◌, List, [], leb, ◌==◌, if◌then◌else◌, length, overwrite}
use tendril.Mem.{M, pure, ◌>>=◌, ◌>>◌, requires, write_bytes}
use tendril.Mem.Util.{unsafe_slice}
use tendril.Buf32.{contents}
use tendril.Tendril.{
  Tendril, inline, max_inline_len, max_inline_tag, empty_tag, inline_of, len32, assume_buf,
  make_owned,
}

-- The receiver, and what the slice shows.
unfoldable pub as_mut_byte_slice : Tendril → M (Tendril × List ℕ)
as_mut_byte_slice t =
    if t.ptr == empty_tag
    then pure (t, [])
    else if leb t.ptr max_inline_len
    then (do bytes ← unsafe_slice (inline_of t.buf) 0 t.ptr; pure (t, bytes))
    else (do
      t ← make_owned t
      (buf, _, offset) ← assume_buf t
      all ← contents buf
      bytes ← unsafe_slice all offset (len32 t)
      pure (t, bytes))

-- A store of `src` at the place `at` of the slice of `as_mut_byte_slice`, which must stay inside.
unfoldable pub write_slice : Tendril → ℕ → List ℕ → M Tendril
write_slice t at src = do
  requires (leb (at + length src) (len32 t))
  if leb t.ptr max_inline_tag
      then pure (record t { buf = inline (overwrite at src (inline_of t.buf)) })
      else (do (buf, _, offset) ← assume_buf t; write_bytes buf.ptr (offset + at) src; pure t)
