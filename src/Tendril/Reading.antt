-- ===== src/Tendril/Reading.antt =====
-- `ReadExt::read_to_tendril` of `src/tendril.rs`. The reader is a parameter, as `std::io::Read`
-- has it: it gets the size of the buffer, and it is told nothing of the bytes that are there.
use tendril.Common.{
  ℕ, zero, suc, ◌+◌, ◌-◌, ◌*◌, Option, none, some, Result, ok, err, List, [], ◌∷◌, ltb, leb, ◌==◌,
  if◌then◌else◌, length, as_u32, sub32, sub64,
}
use tendril.Mem.{M, pure, ◌>>=◌, ◌>>◌, assert}
use tendril.Fmt.{bytes}
use tendril.Tendril.{Tendril, len32, as_byte_slice}
use tendril.Tendril.Edit.{push_uninitialized}
use tendril.Tendril.Checked.{pop_back}
use tendril.Tendril.Views.{as_mut_byte_slice, write_slice}

-- What `read` returns: the bytes that it wrote at the front of the buffer (`Ok(n)`, where no bytes
-- mean the end), an error of the kind `Interrupted`, or another one.
pub data Reply (E : Type 0) : Type 0 where
  got : List ℕ → Reply E
  interrupted : Reply E
  failed : E → Reply E

abbrev pub default_buf_size : ℕ
default_buf_size = 64 * 1024

-- Room for the next read, where the buffer is full: the buffer, and the next size.
unfoldable pub more_room : Tendril → (len buf_len new_write_size : ℕ) → M (Tendril × ℕ)
more_room t len buf_len new_write_size =
    if len == buf_len
    then (do
      let size = if ltb new_write_size default_buf_size then new_write_size * 2 else new_write_size
      t ← push_uninitialized t size
      pure (t, size))
    else pure (t, new_write_size)

-- The rest of the buffer that was not read into is cut off.
unfoldable pub trimmed : Tendril → ℕ → M Tendril
trimmed t len = pop_back bytes t (sub32 (len32 t) (as_u32 len))

module _ {R E : Type 0} (read : R → ℕ → Reply E × R) where
  -- What the loop does with a reply, `next` being the rounds that follow.
  unfoldable pub on_reply :
      (Tendril → (len : ℕ) → R → M (Option (Tendril × R × Result ℕ E)))
      → Tendril
      → (start_len len : ℕ) → Reply E × R
      → M (Option (Tendril × R × Result ℕ E))
  on_reply next t start_len len (got [], r) = do
    t ← trimmed t len
    pure (some (t, r, ok (sub64 len start_len)))
  on_reply next t start_len len (got (b ∷ bs), r) = do
    t ← write_slice t len (b ∷ bs)
    next t (len + length (b ∷ bs)) r
  on_reply next t start_len len (interrupted, r) = next t len r
  on_reply next t start_len len (failed e, r) = do t ← trimmed t len; pure (some (t, r, err e))

  -- The loop, with at most `rounds` reads; without enough of them there is no result.
  unfoldable pub read_loop :
      (rounds : ℕ)
      → Tendril
      → (start_len len new_write_size : ℕ) → R
      → M (Option (Tendril × R × Result ℕ E))
  read_loop zero t start_len len new_write_size r = pure none
  read_loop (suc rounds) t start_len len new_write_size r = do
    old ← as_byte_slice t
    (t, size) ← more_room t len (length old) new_write_size
    (t, slice) ← as_mut_byte_slice t
    assert (leb len (length slice))
    on_reply (λ t len r. read_loop rounds t start_len len size r) t start_len len
        (read r (length slice - len))

  unfoldable pub read_to_tendril :
      (rounds : ℕ) → R → (buf : Tendril) → M (Option (Tendril × R × Result ℕ E))
  read_to_tendril rounds r buf = do
    old ← as_byte_slice buf
    read_loop rounds buf (length old) (length old) 16 r
