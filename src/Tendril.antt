-- ===== src/Tendril.antt =====
-- `struct Tendril<F, NonAtomic>` of `src/tendril.rs`: its three representations, and the private
-- functions that move between them. A method on `&self` or `&mut self` that writes to `self`
-- returns the new value; `*self = t` drops the old one first.
pub mod Edit
pub mod Checked
pub mod Chars
pub mod Extend
pub mod Send
pub mod Views
pub mod Reading
pub mod Compare
pub mod Convert
use tendril.Common.{
  ℕ, ◌+◌, ◌-◌, ◌*◌, ◌/◌, ◌%◌, ◌^◌, Bool, true, false, ◌&&◌, ◌||◌, some, List, [], ◌∷◌, ◌++◌, ltb,
  leb, ◌==◌, if◌then◌else◌, length, take, drop, replicate, add32, as_u32,
}
use tendril.Mem.{Block, M, pure, ◌>>=◌, ◌>>◌, requires, load, store, write_bytes}
use tendril.Mem.Util.{unsafe_slice}
use tendril.Buf32.{Buf32, with_capacity, destroy, contents, grow}
use tendril.Refcount.{increment, decrement, new_count}

abbrev pub max_inline_len : ℕ
max_inline_len = 8

abbrev pub max_inline_tag : ℕ
max_inline_tag = 0xF

abbrev pub empty_tag : ℕ
empty_tag = 0xF

unfoldable pub inline_tag : ℕ → ℕ
inline_tag len = if len == 0 then empty_tag else len

-- `struct Heap`
pub record Heap : Type 0 where
  pub len : ℕ
  pub aux : ℕ

-- `union Buffer`, with the field that was written last
pub data Buffer : Type 0 where
  heap : Heap → Buffer
  inline : List ℕ → Buffer

pub record Tendril : Type 0 where
  pub ptr : ℕ
  pub buf : Buffer

-- A little-endian number of so many bytes, and the bytes of such a number.
abbrev pub read_le : List ℕ → ℕ
read_le [] = 0
read_le (b ∷ bs) = b + 256 * read_le bs

abbrev pub write_le : ℕ → List ℕ
write_le n = (n % 256) ∷ (n / 256 % 256) ∷ (n / 2 ^ 16 % 256) ∷ (n / 2 ^ 24 % 256) ∷ []

-- The fields of the union, also of the one that was not written last.
unfoldable pub heap_of : Buffer → Heap
heap_of (heap h) = h
heap_of (inline bs) = record { len = read_le (take 4 bs); aux = read_le (drop 4 bs) }

unfoldable pub inline_of : Buffer → List ℕ
inline_of (heap h) = write_le h.len ++ write_le h.aux
inline_of (inline bs) = bs

unfoldable pub raw_len : Tendril → ℕ
unfolding heap_of
raw_len t = (heap_of t.buf).len

unfoldable pub set_len : Tendril → ℕ → Tendril
unfolding heap_of
set_len t len = record t { buf = heap (record (heap_of t.buf) { len = len }) }

unfoldable pub aux : Tendril → ℕ
unfolding heap_of
aux t = (heap_of t.buf).aux

unfoldable pub set_aux : Tendril → ℕ → Tendril
unfolding heap_of
set_aux t aux = record t { buf = heap (record (heap_of t.buf) { aux = aux }) }

unfoldable pub len32 : Tendril → ℕ
unfolding raw_len
len32 t =
    if t.ptr == empty_tag then 0 else if leb t.ptr max_inline_len then as_u32 t.ptr else raw_len t

-- `ptr & 1 == 1`, `ptr & !1` and `ptr | 1`
abbrev pub low_bit : ℕ → Bool
low_bit p = p % 2 == 1

abbrev pub clear_low_bit : ℕ → ℕ
clear_low_bit p = p - p % 2

abbrev pub set_low_bit : ℕ → ℕ
set_low_bit p = p - p % 2 + 1

unfoldable pub header : Tendril → ℕ
header t = clear_low_bit t.ptr

unfoldable pub is_shared : Tendril → Bool
is_shared t = ltb max_inline_tag t.ptr && low_bit t.ptr

unfoldable pub is_shared_with : Tendril → Tendril → Bool
is_shared_with t other = ltb max_inline_tag t.ptr && (t.ptr == other.ptr)

-- The buffer, whether it is shared, and the offset of the tendril in it.
unfoldable pub assume_buf : Tendril → M (Buf32 × Bool × ℕ)
assume_buf t =
    if low_bit t.ptr
    then (do
      b ← load (header t)
      let offset = aux t
      pure (record { ptr = header t; len = add32 offset (len32 t); cap = b.cap }, true, offset))
    else pure (record { ptr = header t; len = add32 0 (len32 t); cap = aux t }, false, 0)

-- `Tendril::inline`: the tag, and the bytes in a zeroed array of 8
unfoldable pub inlined : List ℕ → M Tendril
inlined x = do
  requires (leb (length x) 8)
  pure (record {
    ptr = inline_tag (as_u32 (length x));
    buf = inline (x ++ replicate (8 - length x) 0);
  })

-- `Tendril::owned`
unfoldable pub owned : Buf32 → Tendril
owned x = record { ptr = x.ptr; buf = heap (record { len = x.len; aux = x.cap }) }

-- `Tendril::owned_copy`
unfoldable pub owned_copy : List ℕ → M Tendril
owned_copy x = do
  b ← with_capacity (as_u32 (length x)) new_count
  write_bytes b.ptr 0 x
  pure (owned (record b { len = as_u32 (length x) }))

-- `Tendril::shared`
unfoldable pub shared : Buf32 → (off len : ℕ) → Tendril
shared buf off len = record {
  ptr = set_low_bit buf.ptr;
  buf = heap (record { len = len; aux = off });
}

unfoldable pub as_byte_slice : Tendril → M (List ℕ)
as_byte_slice t =
    if t.ptr == empty_tag
    then pure []
    else if leb t.ptr max_inline_len
    then unsafe_slice (inline_of t.buf) 0 t.ptr
    else (do (buf, _, offset) ← assume_buf t; all ← contents buf; unsafe_slice all offset (len32 t))

unfoldable pub incref : Tendril → M (Unit {0})
incref t = do
  b ← load (header t)
  (_, count) ← increment b.refcount
  store (header t) (some (record b { refcount = count }))

-- `drop`. The count that `decrement` returns is the one before the call.
unfoldable pub drop_tendril : Tendril → M (Unit {0})
drop_tendril t = if leb t.ptr max_inline_tag then pure tt else do
  (buf, shared, _) ← assume_buf t
  if shared
      then (do
        b ← load (header t)
        let (before, count) = decrement b.refcount
        store (header t) (some (record b { refcount = count }))
        if before == 1 then destroy buf else pure tt)
      else destroy buf

-- `*self = new`
abbrev pub assign : Tendril → Tendril → M Tendril
assign old new = do drop_tendril old; pure new

-- The capacity moves from the tendril to the header, and an offset takes its place.
unfoldable pub make_buf_shared : Tendril → M Tendril
make_buf_shared t =
    if t.ptr % 2 == 0
    then (do
      b ← load t.ptr
      store t.ptr (some (record b { cap = aux t }))
      pure (set_aux (record t { ptr = set_low_bit t.ptr }) 0))
    else pure t

-- `clone` returns the receiver beside the copy.
unfoldable pub clone : Tendril → M (Tendril × Tendril)
clone t =
    if ltb max_inline_tag t.ptr
    then (do t ← make_buf_shared t; incref t; pure (t, t))
    else pure (t, t)

unfoldable pub make_owned : Tendril → M Tendril
make_owned t =
    if leb t.ptr max_inline_tag || low_bit t.ptr
    then (do bytes ← as_byte_slice t; new ← owned_copy bytes; assign t new)
    else pure t

unfoldable pub make_owned_with_capacity : Tendril → ℕ → M Tendril
make_owned_with_capacity t cap = do
  t ← make_owned t
  (buf, _, _) ← assume_buf t
  buf ← grow buf cap
  pure (set_aux (record t { ptr = buf.ptr }) buf.cap)
